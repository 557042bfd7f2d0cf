-- ===== src/Auth/Handlers/Journey.antt =====
-- A user's way from the registration over the mail to the login.
use kws.Prelude.{
  ℕ, ◌+◌, ◌≡◌, refl, ap, ◌∙◌, true, false, Text, text_eq_refl, codes, List, [], ◌∷◌, ◌++◌, none,
  some, ◌||◌, select, exists, update, arith,
}
use kws.World.{World, UserRow, mail_sent, ok, Services, LoginLaws, colon_free, call}
use kws.Users.{User, validate_email}
use kws.Users.Emails.{email_colon_free}
use kws.Auth
use kws.Auth.{
  is_named, has_email, first_user, user_row, email_value, token_text, login_user,
  get_email_from_token, delete_email_token,
}
use kws.Auth.Handlers.{
  new_session, session_of, split, is_valid, home, signin, create_user, verify_user, login, register,
}
use kws.Http.{refused, redirected, bad_request}

split_end : (t : Text) → colon_free t ≡ true → split t ≡ (t, [])
unfolding split
split_end [] h = refl
split_end (c ∷ cs) h = ground (arith, split_end cs)

split-append :
    (t rest : Text)
    → colon_free t ≡ true
    → split (t ++ b':' ∷ rest) ≡ (t, (split rest).0 ∷ (split rest).1)
unfolding split
split-append [] rest h = refl
split-append (c ∷ cs) rest h = ground (arith, split-append cs rest)

module _ (s : Services) (laws : LoginLaws s) where
  -- What the handler reads of the print of GET with an address.
  third_part :
      (token email : Text)
      → colon_free token ≡ true
      → colon_free email ≡ true
      → split (s.show_get token (some (email_value email)))
        ≡ (codes "get " ++ token, codes " email" ∷ email ∷ [])
  third_part token email h k =
      ap split (laws.show_get-some token (email_value email))
      ∙ split-append (codes "get " ++ token) (codes " email:" ++ email) h
      ∙ ap (λ q. (codes "get " ++ token, q.0 ∷ q.1))
          (split-append (codes " email") email refl
            ∙ ap (λ q. (codes " email", q.0 ∷ q.1)) (split_end email k))

module _ (s : Services) (calm : (n : ℕ) → s.fault n ≡ none) (u : User) where
  -- The row and the token that a registration makes.
  abbrev pub new_row : Text → World s.Memory → UserRow
  new_row h w = user_row u h w.next_user_id

  abbrev pub token : World s.Memory → Text
  token w = s.sha256 (token_text s u.email (w.tick + 1))

  abbrev pub registered : Text → World s.Memory → World s.Memory
  registered h w = record w {
    tick = w.tick + 1 + 1 + 1 + 1;
    users = w.users ++ new_row h w ∷ [];
    next_user_id = w.next_user_id + 1;
    redis = s.set w.redis (token w) (email_value u.email);
    log = mail_sent u.email (token w) ∷ w.log;
  }

  create_user_runs :
      (h : Text) (w : World s.Memory)
      → is_valid u ≡ true
      → s.hash w.tick u.password ≡ some h
      → exists (λ r. has_email u.email r || is_named u.user_name r) w.users ≡ false
      → create_user s new_session u w ≡ (ok (redirected signin), registered h w)
  unfolding create_user register Auth.create_user
  create_user_runs h w valid hashed absent =
      grind
        (arith, calm w.tick, calm (w.tick + 1), calm (w.tick + 1 + 1), calm (w.tick + 1 + 1 + 1))

  -- The state when the link of the mail has been opened.
  abbrev pub verified : Text → World s.Memory → World s.Memory
  verified h w = record (registered h w) {
    tick = w.tick + 1 + 1 + 1 + 1 + 1 + 1 + 1;
    users = update (has_email u.email) (λ r. record r { verified = true }) (registered h w).users;
    redis = (s.del (s.set w.redis (token w) (email_value u.email)) (token w)).1;
  }

  verify_user_runs :
      (laws : LoginLaws s) (h : Text) (w : World s.Memory)
      → validate_email u.email ≡ true
      → verify_user s (token w) (registered h w) ≡ (ok (redirected signin), verified h w)
  unfolding verify_user get_email_from_token delete_email_token Auth.verify_user call
  verify_user_runs laws h w valid = grind (
    arith,
    calm (w.tick + 1 + 1 + 1 + 1),
    calm (w.tick + 1 + 1 + 1 + 1 + 1),
    calm (w.tick + 1 + 1 + 1 + 1 + 1 + 1),
    laws.get-set w.redis (token w) (email_value u.email),
    laws.del_present (s.set w.redis (token w) (email_value u.email)) (token w) (email_value u.email)
        (laws.get-set w.redis (token w) (email_value u.email)),
    third_part s laws (token w) u.email (laws.sha256_letters (token_text s u.email (w.tick + 1)))
        (email_colon_free u.email valid),
  )

  -- The registered row is the only one of the name, before and after its verification.
  find_registered :
      (r : UserRow) (rows : List UserRow)
      → is_named u.user_name r ≡ true
      → exists (λ q. has_email u.email q || is_named u.user_name q) rows ≡ false
      → select (is_named u.user_name) (rows ++ r ∷ []) ≡ r ∷ []
  find_registered r [] e h = ground arith
  find_registered r (q ∷ rows) e h = ground (arith, find_registered r rows e)

  find_verified :
      (r : UserRow) (rows : List UserRow)
      → is_named u.user_name r ≡ true
      → has_email u.email r ≡ true
      → exists (λ q. has_email u.email q || is_named u.user_name q) rows ≡ false
      → select
          (is_named u.user_name)
          (update (has_email u.email) (λ q. record q { verified = true }) (rows ++ r ∷ []))
        ≡ record r { verified = true } ∷ []
  find_verified r [] e m h = ground arith
  find_verified r (q ∷ rows) e m h = ground (arith, find_verified r rows e m)

  login_unverified :
      (r : UserRow) (w : World s.Memory)
      → select (is_named u.user_name) w.users ≡ r ∷ []
      → r.verified ≡ false
      → (login s new_session u.user_name u.password w).0 ≡ ok (refused bad_request, new_session)
  unfolding login login_user call
  login_unverified r w e f = grind (arith, calm w.tick)

  login_verified :
      (r : UserRow) (w : World s.Memory)
      → select (is_named u.user_name) w.users ≡ r ∷ []
      → r.verified ≡ true
      → s.compares r.password_hash u.password ≡ true
      → (login s new_session u.user_name u.password w).0 ≡ ok (redirected home, session_of r)
  unfolding login login_user call
  login_verified r w e f c = grind (arith, calm w.tick, calm (w.tick + 1))

  is_valid_email : is_valid u ≡ true → validate_email u.email ≡ true
  unfolding is_valid
  is_valid_email h = ground arith

  -- If no call of a service fails, bcrypt makes a hash of the password, the form is valid, and no
  -- user has its address or user name, then the registration mails a token; a login before the
  -- token comes back is refused, and after it the login gives an authorized session of the new
  -- user's id.
  pub create_user-login :
      (laws : LoginLaws s) (h : Text) (w : World s.Memory)
      → is_valid u ≡ true
      → s.hash w.tick u.password ≡ some h
      → exists (λ r. has_email u.email r || is_named u.user_name r) w.users ≡ false
      → ((create_user s new_session u w).1.log ≡ mail_sent u.email (token w) ∷ w.log)
        × ((login s new_session u.user_name u.password (create_user s new_session u w).1).0
            ≡ ok (refused bad_request, new_session))
        × ((login s new_session u.user_name u.password
              (verify_user s (token w) (create_user s new_session u w).1).1).0
            ≡ ok (
              redirected home,
              record { id = w.next_user_id; user_name = u.user_name; is_authorized = true },
            ))
  create_user-login laws h w valid hashed absent =
      rw
        (create_user_runs h w valid hashed absent, verify_user_runs laws h w (is_valid_email valid))
        (
          refl,
          login_unverified (new_row h w) (registered h w)
              (find_registered (new_row h w) w.users (text_eq_refl u.user_name) absent) refl,
          login_verified (record (new_row h w) { verified = true }) (verified h w)
              (find_verified (new_row h w) w.users (text_eq_refl u.user_name) (text_eq_refl u.email)
                absent)
              refl (laws.compares-hash w.tick u.password h hashed),
        )
