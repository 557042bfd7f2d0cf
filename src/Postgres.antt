-- ===== src/Postgres.antt =====
-- `PgServiceStore`, src/internal/store/pg_service.go: the tables pg_service_user and pg_service_db.
pub mod Service
pub mod Handlers
pub mod Limits
pub mod Ownership
pub mod Rollback
use kws.Prelude.{
  ℕ, ◌+◌, Bool, true, false, Text, text_eq, codes, List, [], ◌∷◌, ◌++◌, Option, none, some, map,
  not, ◌&&◌, ◌||◌, ◌==◌, leb, select, count, exists, length, if◌then◌else◌,
}
use kws.World.{
  World, PgUserRow, PgDbRow, Error, no_rows, unique_violation, pg_max_user_limit, pg_max_db_limit,
  pg_user_already_exists, pg_db_already_exists, pg_user_not_found, pg_db_not_found,
  max_service_db_users, max_service_db_db, M, Result, ok, err, pure, raise, gets, modify, raise_if,
  try, ⊤, ◌>>=◌, ◌>>◌, Services, call,
}

-- `models.PGServiceUser`, src/models/pg_service.go.
pub record PgServiceUser : Type 0 where
  pub uid : ℕ
  pub user_name : Text
  pub password : Text

abbrev pub of_user : ℕ → PgUserRow → Bool
of_user uid r = r.user_id == uid

abbrev pub is_user : PgServiceUser → PgUserRow → Bool
is_user u r =
    text_eq r.pg_user_name u.user_name
    && (text_eq r.pg_user_password u.password && r.user_id == u.uid)

abbrev pub of_pid : ℕ → PgDbRow → Bool
of_pid pid d = d.pid == pid

abbrev pub is_database : ℕ → Text → PgDbRow → Bool
is_database pid name d = d.pid == pid && text_eq d.db_name name

abbrev pub first_id : List PgUserRow → Option ℕ
first_id [] = none
first_id (r ∷ rs) = some r.id

abbrev first_password : List PgUserRow → Option Text
first_password [] = none
first_password (r ∷ rs) = some r.pg_user_password

-- `strings.Contains(err.Error(), "23505")`.
abbrev is_duplicate : Error → Bool
is_duplicate unique_violation = true
is_duplicate _ = false

-- `web.Database`, without the page's other fields.
pub record Database : Type 0 where
  pub owner : Text
  pub name : Text

-- The rows of the join of the two tables.
abbrev databases_of : PgUserRow → List PgDbRow → List Database
databases_of u [] = []
databases_of u (d ∷ ds) =
    let rest = databases_of u ds in
    if d.pid == u.id then record { owner = u.pg_user_name; name = d.db_name } ∷ rest else rest

abbrev joined : List PgUserRow → List PgDbRow → List Database
joined [] ds = []
joined (u ∷ us) ds = databases_of u ds ++ joined us ds

module _ (s : Services) where
  -- `QueryRow(...).Scan`, with no row an error.
  abbrev scan_row : {A : Type 0} → Option A → M s.Memory A
  scan_row none = raise no_rows
  scan_row (some a) = pure a

  unfoldable pub find_pid : PgServiceUser → M s.Memory ℕ
  unfolding call
  find_pid u = do
    call s
    found ← gets (λ w. first_id (select (is_user u) w.pg_users))
    scan_row found

  -- `INSERT INTO pg_service_user`: the serial id is drawn before the names are compared.
  insert_user : PgServiceUser → M s.Memory ℕ
  unfolding call
  insert_user u = do
    call s
    id ← gets (λ w. w.next_id)
    taken ← gets (λ w. exists (λ r. text_eq r.pg_user_name u.user_name) w.pg_users)
    modify (λ w. record w { next_id = w.next_id + 1 })
    raise_if taken unique_violation
    modify (λ w. record w {
      pg_users =
          w.pg_users
          ++ record {
            id = id;
            user_id = u.uid;
            pg_user_name = u.user_name;
            pg_user_password = u.password;
          }
            ∷ [];
    })
    pure id

  abbrev user_inserted : Result ℕ → M s.Memory ℕ
  user_inserted (ok id) = pure id
  user_inserted (err e) = if is_duplicate e then raise pg_user_already_exists else raise e

  unfoldable pub add_user : PgServiceUser → M s.Memory ℕ
  unfolding call insert_user
  add_user u = do
    call s
    users ← gets (λ w. count (of_user u.uid) w.pg_users)
    raise_if (leb max_service_db_users users) pg_max_user_limit
    inserted ← try (insert_user u)
    user_inserted inserted

  insert_database : ℕ → Text → M s.Memory ⊤
  unfolding call
  insert_database pid name = do
    call s
    taken ← gets (λ w. exists (is_database pid name) w.pg_dbs)
    raise_if taken unique_violation
    modify (λ w. record w { pg_dbs = w.pg_dbs ++ record { pid = pid; db_name = name } ∷ [] })

  abbrev database_inserted : Result ⊤ → M s.Memory ⊤
  database_inserted (ok _) = pure tt
  database_inserted (err e) = if is_duplicate e then raise pg_db_already_exists else raise e

  unfoldable pub add_database : PgServiceUser → Text → M s.Memory ⊤
  unfolding find_pid call insert_database
  add_database u name = do
    pid ← find_pid u
    call s
    databases ← gets (λ w. count (of_pid pid) w.pg_dbs)
    raise_if (leb max_service_db_db databases) pg_max_db_limit
    inserted ← try (insert_database pid name)
    database_inserted inserted

  abbrev identified : Result ℕ → M s.Memory ℕ
  identified (ok pid) = pure pid
  identified (err e) = raise pg_user_not_found

  unfoldable pub remove_database : PgServiceUser → Text → M s.Memory ⊤
  unfolding find_pid call
  remove_database u name = do
    found ← try (find_pid u)
    pid ← identified found
    call s
    rows ← gets (λ w. count (is_database pid name) w.pg_dbs)
    modify (λ w. record w { pg_dbs = select (λ d. not (is_database pid name d)) w.pg_dbs })
    raise_if (rows == 0) pg_db_not_found

  -- The databases' rows go with their owner's (ON DELETE CASCADE).
  unfoldable pub remove_user : PgServiceUser → M s.Memory ⊤
  unfolding call
  remove_user u = do
    call s
    gone ← gets (λ w. select (is_user u) w.pg_users)
    modify (λ w. record w {
      pg_users = select (λ r. not (is_user u r)) w.pg_users;
      pg_dbs = select (λ d. not (exists (λ r. r.id == d.pid) gone)) w.pg_dbs;
    })
    raise_if (length gone == 0) pg_user_not_found

  unfoldable pub get_user_databases : PgServiceUser → M s.Memory (List Text)
  unfolding find_pid call
  get_user_databases u = do
    pid ← find_pid u
    call s
    gets (λ w. map (λ d. d.db_name) (select (of_pid pid) w.pg_dbs))

  unfoldable pub get_users : ℕ → M s.Memory (List PgUserRow)
  unfolding call
  get_users uid = do call s; gets (λ w. select (of_user uid) w.pg_users)

  unfoldable pub get_databases : ℕ → ℕ → M s.Memory (ℕ × List Database)
  unfolding call
  get_databases pid uid = do
    call s
    dbs ← gets (λ w. joined (select (λ r. r.user_id == uid && r.id == pid) w.pg_users) w.pg_dbs)
    pure (length dbs, dbs)

  unfoldable pub get_password : ℕ → M s.Memory Text
  unfolding call
  get_password pid = do
    call s
    found ← gets (λ w. first_password (select (λ r. r.id == pid) w.pg_users))
    scan_row found
