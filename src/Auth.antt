-- ===== src/Auth.antt =====
-- `AuthStore`, src/internal/store/auth.go: the table users; and the tokens of mail and of tunnels in
-- Redis, src/internal/store/redis.go.
pub mod Handlers
pub mod Tunnels
use kws.Prelude.{
  ℕ, zero, suc, ◌+◌, ◌*◌, ◌^◌, Bool, true, false, Text, text_eq, codes, List, [], ◌∷◌, ◌++◌, Option,
  none, some, not, ◌&&◌, ◌||◌, ◌==◌, leb, ltb, select, exists, update, is_digit, itoa, scan,
  if◌then◌else◌,
}
use kws.Prelude.Int.{ℤ, pos, neg}
use kws.World.{
  World, UserRow, Error, user_name_invalid, user_not_verified, wrong_credentials, key_expired,
  user_already_exists, unique_violation, null_violation, not_a_number, no_rows, exited, M, Result,
  ok, err, pure, raise, gets, modify, raise_if, try, ⊤, ◌>>=◌, ◌>>◌, Services, call, now,
}
use kws.Users.{User}

abbrev pub is_named : Text → UserRow → Bool
is_named user_name r = text_eq r.user_name user_name

abbrev pub has_email : Text → UserRow → Bool
has_email email r = text_eq r.email email

abbrev pub first_user : List UserRow → Option UserRow
first_user [] = none
first_user (r ∷ rs) = some r

abbrev pub user_row : User → Text → ℕ → UserRow
user_row u password_hash id = record {
  id = id;
  first_name = u.first_name;
  last_name = u.last_name;
  email = u.email;
  password_hash = password_hash;
  verified = false;
  user_name = u.user_name;
}

-- `strings.Contains(err.Error(), "23505")`.
abbrev is_duplicate : Error → Bool
is_duplicate unique_violation = true
is_duplicate _ = false

-- "email:" before the address, under the token.
abbrev pub email_value : Text → Text
email_value email = codes "email:" ++ email

-- strconv.Atoi of digits: a number below the limit.
abbrev pub within : ℕ → ℕ × Text → Option ℕ
within limit (n, []) = if ltb n limit then some n else none
within limit (n, c ∷ rest) = none

abbrev digits : ℕ → Text → Option ℕ
digits limit [] = none
digits limit (c ∷ cs) = within limit (scan 0 (c ∷ cs))

abbrev signed : (ℕ → ℤ) → Option ℕ → Option ℤ
signed sign none = none
signed sign (some n) = some (sign n)

-- An optional sign, and at least one digit; the number fits into 64 bits.
unfoldable pub atoi : Text → Option ℤ
atoi [] = none
atoi (c ∷ cs) =
    if c == b'-'
    then signed neg (digits (2 ^ 63 + 1) cs)
    else if c == b'+'
    then signed pos (digits (2 ^ 63) cs)
    else signed pos (digits (2 ^ 63) (c ∷ cs))

module _ (s : Services) where
  -- The text that is hashed; a failure of uuidgen ends the process.
  abbrev token_text : Text → ℕ → Text
  token_text email n = email ++ s.time n ++ s.uuid n

  abbrev or_exit : {A : Type 0} → Result ⊤ → M s.Memory A → M s.Memory A
  or_exit (ok _) go = go
  or_exit (err e) go = raise exited

  unfoldable pub generate_token : Text → M s.Memory Text
  unfolding call
  generate_token email = do
    n ← now s
    ran ← try (call s)
    or_exit ran (pure (s.sha256 (token_text email n)))

  -- `INSERT INTO users`: a hash that bcrypt refused to make is NULL, and the serial id is drawn before
  -- the constraints are looked at.
  insert_user : User → Option Text → M s.Memory ⊤
  unfolding call
  insert_user u none = do
    call s
    modify (λ w. record w { next_user_id = w.next_user_id + 1 })
    raise null_violation
  insert_user u (some password_hash) = do
    call s
    id ← gets (λ w. w.next_user_id)
    taken ← gets (λ w. exists (λ r. has_email u.email r || is_named u.user_name r) w.users)
    modify (λ w. record w { next_user_id = w.next_user_id + 1 })
    raise_if taken unique_violation
    modify (λ w. record w { users = w.users ++ user_row u password_hash id ∷ [] })

  abbrev user_inserted : Result ⊤ → M s.Memory ⊤
  user_inserted (ok _) = pure tt
  user_inserted (err e) = if is_duplicate e then raise user_already_exists else raise e

  unfoldable pub create_user : User → M s.Memory ⊤
  unfolding insert_user
  create_user u = do
    n ← now s
    inserted ← try (insert_user u (s.hash n u.password))
    user_inserted inserted

  unfoldable pub verify_user : Text → M s.Memory ⊤
  unfolding call
  verify_user email = do
    call s
    modify (λ w. record w {
      users = update (has_email email) (λ r. record r { verified = true }) w.users;
    })

  -- The first row of the name, by QueryRow; a query that fails is answered like a missing row.
  query_user : Text → M s.Memory UserRow
  unfolding call
  query_user user_name = do
    asked ← try (call s)
    found ← gets (λ w. first_user (select (is_named user_name) w.users))
    elim asked [
      | err e ↦ raise user_name_invalid
      | ok _ ↦ elim found [ none ↦ raise user_name_invalid | some r ↦ pure r ]
    ]

  unfoldable pub login_user : Text → Text → M s.Memory UserRow
  unfolding query_user
  login_user user_name password = do
    asked ← query_user user_name
    raise_if (not asked.verified) user_not_verified
    user ← query_user user_name
    raise_if (not (s.compares user.password_hash password)) wrong_credentials
    pure user

  unfoldable pub set_email_token : Text → Text → M s.Memory ⊤
  unfolding call
  set_email_token email token = do
    call s
    modify (λ w. record w { redis = s.set w.redis token (email_value email) })

  -- DEL; a failure counts like no key.
  unfoldable pub delete_email_token : Text → M s.Memory ⊤
  unfolding call
  delete_email_token token = do
    asked ← try (call s)
    elim asked [
      | err e ↦ raise key_expired
      | ok _ ↦ do
        deleted ← gets (λ w. (s.del w.redis token).0)
        modify (λ w. record w { redis = (s.del w.redis token).1 })
        raise_if (deleted == 0) key_expired
    ]

  -- The print of the command with its answer, not the answer.
  unfoldable pub get_email_from_token : Text → M s.Memory Text
  unfolding call
  get_email_from_token token = do
    n ← now s
    asked ← try (call s)
    value ← gets (λ w. s.get w.redis token)
    elim asked [ err e ↦ pure (s.show_failure n token) | ok _ ↦ pure (s.show_get token value) ]

  unfoldable pub set_tunnel_login : Text → ℕ → M s.Memory ⊤
  unfolding call
  set_tunnel_login secret uid = do
    call s
    modify (λ w. record w { redis = s.set w.redis secret (itoa uid) })

  abbrev read_uid : Option Text → M s.Memory ℤ
  read_uid none = raise no_rows
  read_uid (some value) = elim (atoi value) [ none ↦ raise not_a_number | some uid ↦ pure uid ]

  -- A missing key is `redis.Nil`.
  unfoldable pub get_uid_from_tunnel_secret : Text → M s.Memory ℤ
  unfolding call atoi
  get_uid_from_tunnel_secret secret = do
    call s
    value ← gets (λ w. s.get w.redis secret)
    read_uid value
