-- ===== src/Auth/Handlers/Login.antt =====
-- Who gets an authorized session.
use kws.Prelude.{◌≡◌, ◌⊎◌, true, false, Text, some, arith, select}
use kws.World.{World, UserRow, Result, ok, ⊤, Services, call}
use kws.Auth.{is_named, first_user, login_user}
use kws.Auth.Handlers.{Session, session_of, home, login}
use kws.Http.{Response, refused, redirected, bad_request}

module _ (s : Services) where
  -- The first row of the name is a verified user's, and the password fits its hash.
  abbrev pub Fits : Text → Text → UserRow → World s.Memory → Type 0
  Fits user_name password r w =
      (first_user (select (is_named user_name) w.users) ≡ some r)
      × (r.verified ≡ true)
      × (s.compares r.password_hash password ≡ true)

  -- How a login ends, by the state before it.
  abbrev pub LoggedIn :
      Session
      → Text
      → Text
      → World s.Memory
      → Result (Response ⊤ × Session) × World s.Memory
      → Type 0
  LoggedIn session user_name password w (r, v) =
      ((r ≡ ok (refused bad_request, session))
        ⊎ ((u : UserRow) × Fits user_name password u w × (r ≡ ok (redirected home, session_of u))))
      × (v.users ≡ w.users)
      × (v.redis ≡ w.redis)

  -- A login with a session that is not authorized leaves the users and Redis as they are, and
  -- either is refused and leaves the session, or authorizes it for the first user of the name,
  -- who is verified and whose hash the password fits.
  pub login-LoggedIn :
      (session : Session) (user_name password : Text) (w : World s.Memory)
      → session.is_authorized ≡ false
      → LoggedIn session user_name password w (login s session user_name password w)
  unfolding login login_user call
  login-LoggedIn session user_name password w h = ground arith
