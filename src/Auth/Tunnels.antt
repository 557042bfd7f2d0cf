-- ===== src/Auth/Tunnels.antt =====
-- The login of the tunnel client, src/cmd/tunnel_handler.go, and its middleware,
-- src/cmd/middleware.go.
pub mod Secrets
use kws.Prelude.{Bool, true, false, Text, [], ◌∷◌}
use kws.Prelude.Int.{ℤ}
use kws.World.{UserRow, M, Result, ok, err, pure, attempt, try, ◌>>=◌, Services, call, now}
use kws.Auth.{login_user, set_tunnel_login, get_uid_from_tunnel_secret}
use kws.Http.{Response, refused, answered, bad_request, unauthorized, internal_server_error}

module _ (s : Services) where
  -- The secret of crypto/rand is the response.
  save_secret : UserRow → M s.Memory (Response Text)
  unfolding call set_tunnel_login
  save_secret user = do
    n ← now s
    drawn ← try (call s)
    elim drawn [
      | err e ↦ pure (refused internal_server_error)
      | ok _ ↦ do
        saved ← attempt (set_tunnel_login s (s.secret n) user.id)
        elim saved [
          | err e ↦ pure (refused internal_server_error)
          | ok _ ↦ pure (answered (s.secret n))
        ]
    ]

  abbrev after_login : Result UserRow → M s.Memory (Response Text)
  after_login (ok user) = save_secret user
  after_login (err e) = pure (refused bad_request)

  -- A form that does not parse is refused.
  unfoldable pub login_tunnel_user : Bool → Text → Text → M s.Memory (Response Text)
  unfolding login_user save_secret
  login_tunnel_user false user_name password = pure (refused bad_request)
  login_tunnel_user true user_name password = do
    user ← attempt (login_user s user_name password)
    after_login user

  abbrev pub admitted :
      {A : Type 0} → (ℤ → M s.Memory (Response A)) → Result ℤ → M s.Memory (Response A)
  admitted next (ok uid) = next uid
  admitted next (err e) = pure (refused unauthorized)

  -- The middleware: the header's secret, and the handler with the user's id.
  unfoldable pub is_tunnel_user_authorized :
      {A : Type 0} → Text → (ℤ → M s.Memory (Response A)) → M s.Memory (Response A)
  unfolding get_uid_from_tunnel_secret
  is_tunnel_user_authorized [] next = pure (refused unauthorized)
  is_tunnel_user_authorized (c ∷ cs) next = do
    uid ← attempt (get_uid_from_tunnel_secret s (c ∷ cs))
    admitted next uid
