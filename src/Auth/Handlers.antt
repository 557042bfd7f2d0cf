-- ===== src/Auth/Handlers.antt =====
-- Registration, verification, login and logout: src/cmd/auth_handler.go and src/cmd/middleware.go.
pub mod Journey
pub mod Login
use kws.Prelude.{ℕ, Bool, true, false, Text, codes, List, [], ◌∷◌, ◌==◌, not, if◌then◌else◌}
use kws.World.{
  UserRow, mail_sent, index_out_of_range, M, Result, ok, err, pure, raise, attempt, try, ⊤, ◌>>=◌,
  ◌>>◌, Services, call, command,
}
use kws.Users.{User, validate_email, validate_password, validate_fl_names, validate_user_name}
use kws.Auth
use kws.Auth.{generate_token, set_email_token, get_email_from_token, delete_email_token, login_user}
use kws.Http.{Response, refused, redirected, bad_request, unauthorized, gone, internal_server_error}

-- The values of a session that the code puts and reads; a value that was never put is the zero value.
pub record Session : Type 0 where
  pub id : ℕ
  pub user_name : Text
  pub is_authorized : Bool

abbrev pub new_session : Session
new_session = record { id = 0; user_name = []; is_authorized = false }

abbrev pub session_of : UserRow → Session
session_of user = record { id = user.id; user_name = user.user_name; is_authorized = true }

-- strings.Split(t, ":"): the part in front of the first colon, and the others.
unfoldable pub split : Text → Text × List Text
split [] = ([], [])
split (c ∷ cs) =
    let (part, parts) = split cs in if c == b':' then ([], part ∷ parts) else (c ∷ part, parts)

abbrev pub home : Text
home = codes "/"

abbrev pub signin : Text
signin = codes "/kws_signin"

-- The order of the checks does not show, as each is answered with 400.
unfoldable pub is_valid : User → Bool
is_valid u =
    if not (validate_email u.email)
    then false
    else if not (validate_password u.password)
    then false
    else if not (validate_fl_names u)
    then false
    else if not (validate_user_name u.user_name)
    then false
    else true

module _ (s : Services) where
  -- The token, and the mail in a goroutine whose failure is only logged.
  unfoldable pub send_token : Text → M s.Memory ⊤
  unfolding generate_token set_email_token command
  send_token email = do
    token ← generate_token s email
    _ ← attempt (set_email_token s email token)
    _ ← attempt (command s (mail_sent email token))
    pure tt

  abbrev pub answer_register : User → Result ⊤ → M s.Memory (Response ⊤)
  unfolding send_token
  answer_register u (err e) = pure (refused internal_server_error)
  answer_register u (ok _) = do send_token u.email; pure (redirected signin)

  unfoldable pub register : User → M s.Memory (Response ⊤)
  unfolding send_token Auth.create_user
  register u = do created ← attempt (Auth.create_user s u); answer_register u created

  unfoldable pub create_user : Session → User → M s.Memory (Response ⊤)
  unfolding register is_valid
  create_user session u =
      if session.is_authorized
      then pure (redirected home)
      else if is_valid u
      then register u
      else pure (refused bad_request)

  -- `strings.Split(value, ":")[2]`.
  abbrev pub third : List Text → M s.Memory Text
  third [] = raise index_out_of_range
  third (p ∷ []) = raise index_out_of_range
  third (p ∷ q ∷ parts) = pure q

  abbrev pub answer_verify : Result ⊤ → M s.Memory (Response ⊤)
  answer_verify (err e) = pure (refused internal_server_error)
  answer_verify (ok _) = pure (redirected signin)

  abbrev pub verify_deleted : Text → Result ⊤ → M s.Memory (Response ⊤)
  unfolding Auth.verify_user
  verify_deleted email (err e) = pure (refused gone)
  verify_deleted email (ok _) = do
    verified ← attempt (Auth.verify_user s email)
    answer_verify verified

  unfoldable pub verify_user : Text → M s.Memory (Response ⊤)
  unfolding get_email_from_token split delete_email_token Auth.verify_user
  verify_user token = do
    value ← get_email_from_token s token
    email ← third (split value).1
    deleted ← attempt (delete_email_token s token)
    verify_deleted email deleted

  abbrev pub logged_in : Session → Result UserRow → M s.Memory (Response ⊤ × Session)
  logged_in session (ok user) = pure (redirected home, session_of user)
  logged_in session (err e) = pure (refused bad_request, session)

  unfoldable pub login : Session → Text → Text → M s.Memory (Response ⊤ × Session)
  unfolding login_user
  login session user_name password =
      if session.is_authorized
      then pure (redirected home, session)
      else (do user ← attempt (login_user s user_name password); logged_in session user)

  abbrev logged_out : Session → Result ⊤ → M s.Memory (Response ⊤ × Session)
  logged_out session (ok _) = pure (redirected signin, new_session)
  logged_out session (err e) = pure (refused internal_server_error, session)

  unfoldable pub log_out_user : Session → M s.Memory (Response ⊤ × Session)
  unfolding call
  log_out_user session =
      if session.is_authorized
      then (do destroyed ← try (call s); logged_out session destroyed)
      else pure (refused unauthorized, session)

  -- The middleware in front of the pages of a user.
  unfoldable pub is_authorized :
      {A : Type 0} → Session → M s.Memory (Response A) → M s.Memory (Response A)
  is_authorized session next = if session.is_authorized then next else pure (redirected signin)
