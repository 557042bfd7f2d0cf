-- ===== src/Routes/Carried/Accounts.antt =====
-- A registration and the verification of a user.
use kws.Prelude.{
  exists-append, ℕ, ◌≡◌, refl, Bool, true, false, Text, List, [], ◌∷◌, exists, update, arith,
  if◌then◌else◌,
}
use kws.World.{
  World, UserRow, mail_sent, M, Result, ok, err, pure, attempt, ⊤, ◌>>=◌, Services, command,
}
use kws.World.Frame.{Keeps}
use kws.Users.{User}
use kws.Auth
use kws.Auth.{has_email, generate_token, set_email_token, get_email_from_token, delete_email_token}
use kws.Auth.Handlers as AuthHandlers
use kws.Auth.Handlers.{Session, home, signin}
use kws.Http.{Response, refused, redirected, bad_request, internal_server_error, gone}
use kws.Untouched.{
  generate_token-IsSame, set_email_token-IsSame, get_email_from_token-IsSame,
  delete_email_token-IsSame, command-IsSame,
}
use kws.Routes.Carried.Base.{is_known, Known, Carries, bind, attempt-Carries, same}

-- A user who is verified once more stays known.
exists-verified :
    (x : Session) (q : UserRow → Bool) (rs : List UserRow)
    → exists (is_known x) rs ≡ true
    → exists (is_known x) (update q (λ r. record r { verified = true }) rs) ≡ true
exists-verified x q [] h = cc
exists-verified x q (r ∷ rs) h = ground (arith, exists-verified x q rs)

module _ (s : Services) (k : ℕ) where
  abbrev Rest : World s.Memory → World s.Memory → Type 0
  Rest w v = (v.peers ≡ w.peers) × (v.pg_users ≡ w.pg_users) × (v.instances ≡ w.instances)

  create_user-Rest : (u : User) → Keeps Rest (Auth.create_user s u)
  unfolding Auth.create_user
  create_user-Rest u w = ground arith

  create_user-Known :
      (u : User) (w : World s.Memory) (x : Session)
      → Known s k x w
      → Known s k x (Auth.create_user s u w).1
  unfolding Auth.create_user
  create_user-Known u w x h = grind (arith, exists-append (is_known x) w.users)

  create_user-Carries : (u : User) → Keeps (Carries s k) (Auth.create_user s u)
  create_user-Carries u w =
      let (peers, roles, instances) = create_user-Rest u w in
      (λ h. (rw peers h.0, rw roles h.1, rw instances h.2), create_user-Known u w)

  verify_user-Carries : (email : Text) → Keeps (Carries s k) (Auth.verify_user s email)
  unfolding Auth.verify_user
  verify_user-Carries email w =
      (λ h. ground arith, λ x h. ground (arith, exists-verified x (has_email email) w.users h))

  still : {A : Type 0} (a : A) → Keeps (Carries s k) (pure a)
  still a w = (λ h. h, λ x h. h)

  answers : (r : Response ⊤) → Keeps (Carries s k) (pure r)
  answers r = still r

  send_token-Carries : (email : Text) → Keeps (Carries s k) (AuthHandlers.send_token s email)
  unfolding AuthHandlers.send_token
  send_token-Carries email =
      bind s k (generate_token s email)
        (λ token. attempt (set_email_token s email token) >>= λ _. mailed token)
        (same s k (generate_token s email) (generate_token-IsSame s email))
        λ token.
          bind s k (attempt (set_email_token s email token)) (λ _. mailed token)
            (attempt-Carries s k (set_email_token s email token)
              (same s k (set_email_token s email token) (set_email_token-IsSame s email token)))
            λ _.
              bind s k (attempt (command s (mail_sent email token))) (λ _. pure tt)
                (attempt-Carries s k (command s (mail_sent email token)) (
                  same s k (command s (mail_sent email token))
                    (command-IsSame s (mail_sent email token) refl)))
                λ _. still tt
    where
      mailed : Text → M s.Memory ⊤
      mailed token = attempt (command s (mail_sent email token)) >>= λ _. pure tt

  pub create_user_handler-Carries :
      (session : Session) (u : User) → Keeps (Carries s k) (AuthHandlers.create_user s session u)
  unfolding AuthHandlers.create_user AuthHandlers.register
  create_user_handler-Carries session u w = authorized session.is_authorized
    where
      registered : Result ⊤ → M s.Memory (Response ⊤)
      registered r = AuthHandlers.answer_register s u r

      by_result : (r : Result ⊤) → Keeps (Carries s k) (registered r)
      by_result (err e) = answers (refused internal_server_error)
      by_result (ok _) =
          bind s k (AuthHandlers.send_token s u.email) (λ _. pure (redirected signin))
            (send_token-Carries u.email) λ _. answers (redirected signin)

      valid :
          (b : Bool)
          → Carries s k w
              (if◌then◌else◌ {A = M s.Memory (Response ⊤)} b
                (AuthHandlers.register s u)
                (pure (refused bad_request))
                w).1
      valid true =
          bind s k (attempt (Auth.create_user s u)) registered
            (attempt-Carries s k (Auth.create_user s u) (create_user-Carries u)) by_result w
      valid false = (λ h. h, λ x h. h)

      authorized :
          (b : Bool)
          → Carries s k w
              (if◌then◌else◌ {A = M s.Memory (Response ⊤)} b
                (pure (redirected home))
                (if AuthHandlers.is_valid u
                  then AuthHandlers.register s u
                  else pure (refused bad_request))
                w).1
      authorized true = (λ h. h, λ x h. h)
      authorized false = valid (AuthHandlers.is_valid u)

  pub verify_user_handler-Carries :
      (token : Text) → Keeps (Carries s k) (AuthHandlers.verify_user s token)
  unfolding AuthHandlers.verify_user
  verify_user_handler-Carries token =
      bind s k (get_email_from_token s token)
        (λ value. AuthHandlers.third s (AuthHandlers.split value).1 >>= verify)
        (same s k (get_email_from_token s token) (get_email_from_token-IsSame s token))
        λ value.
          bind s k (AuthHandlers.third s (AuthHandlers.split value).1) verify
            (third_part (AuthHandlers.split value).1) verify-Carries
    where
      verify : Text → M s.Memory (Response ⊤)
      verify email = attempt (delete_email_token s token) >>= AuthHandlers.verify_deleted s email

      third_part : (parts : List Text) → Keeps (Carries s k) (AuthHandlers.third s parts)
      third_part [] w = (λ h. h, λ x h. h)
      third_part (p ∷ []) w = (λ h. h, λ x h. h)
      third_part (p ∷ q ∷ parts) w = (λ h. h, λ x h. h)

      by_verified : (r : Result ⊤) → Keeps (Carries s k) (AuthHandlers.answer_verify s r)
      by_verified (err e) = answers (refused internal_server_error)
      by_verified (ok _) = answers (redirected signin)

      by_deleted :
          (email : Text) (r : Result ⊤)
          → Keeps (Carries s k) (AuthHandlers.verify_deleted s email r)
      by_deleted email (err e) = answers (refused gone)
      by_deleted email (ok _) =
          bind s k (attempt (Auth.verify_user s email)) (AuthHandlers.answer_verify s)
            (attempt-Carries s k (Auth.verify_user s email) (verify_user-Carries email)) by_verified

      verify-Carries : (email : Text) → Keeps (Carries s k) (verify email)
      verify-Carries email =
          bind s k (attempt (delete_email_token s token)) (AuthHandlers.verify_deleted s email)
            (attempt-Carries s k (delete_email_token s token)
              (same s k (delete_email_token s token) (delete_email_token-IsSame s token)))
            (by_deleted email)
