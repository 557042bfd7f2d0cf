-- ===== src/Postgres/Handlers.antt =====
-- The handlers of src/cmd/pg_service_handler.go, from the session's user and the form.
use kws.Prelude.{ℕ, Bool, Text, codes, if◌then◌else◌}
use kws.World.{
  Error, pg_max_user_limit, pg_user_already_exists, pg_max_db_limit, pg_db_already_exists,
  max_service_db_users, M, Result, ok, err, pure, try, ⊤, ◌>>=◌, Services,
}
use kws.Http.{Response, refused, answered, bad_request, status_conflict, internal_server_error}
use kws.Postgres.{PgServiceUser, add_user, remove_user, add_database, remove_database}
use kws.Postgres.Service.{create_postgres_user, create_database, drop_database, drop_postgres_user}

pub record ResponseCreateUser : Type 0 where
  pub id : ℕ
  pub username : Text
  pub password : Text
  pub permissions : Text
  pub user_limit : ℕ

abbrev user_refusal : Error → ℕ
user_refusal pg_max_user_limit = bad_request
user_refusal pg_user_already_exists = status_conflict
user_refusal _ = internal_server_error

abbrev database_refusal : Error → ℕ
database_refusal pg_max_db_limit = bad_request
database_refusal pg_db_already_exists = status_conflict
database_refusal _ = internal_server_error

module _ (s : Services) where
  abbrev Handled : Type 0 → Type 0
  Handled A = M s.Memory (Response A)

  -- By what `r.ParseForm` gave.
  abbrev with_form : {A : Type 0} → Bool → Handled A → Handled A
  with_form parsed handle = if parsed then handle else pure (refused bad_request)

  -- By the result of a step whose failure is a 500.
  abbrev pub or_fail : {A : Type 0} → Result ⊤ → Handled A → Handled A
  or_fail (ok _) go = go
  or_fail (err e) go = pure (refused internal_server_error)

  -- The row is taken back when the role could not be made.
  unfoldable pub finish_user : PgServiceUser → ℕ → Result ⊤ → Handled ResponseCreateUser
  finish_user u id (ok _) = pure (
      answered (record {
        id = id;
        username = u.user_name;
        password = u.password;
        permissions = codes "Limited";
        user_limit = max_service_db_users;
      }))
  finish_user u id (err e) = do _ ← try (remove_user s u); pure (refused internal_server_error)

  unfoldable pub after_row : PgServiceUser → Result ℕ → Handled ResponseCreateUser
  unfolding finish_user
  after_row u (err e) = pure (refused (user_refusal e))
  after_row u (ok id) = do made ← try (create_postgres_user s u.user_name); finish_user u id made

  unfoldable pub create_pg_user : Bool → PgServiceUser → Handled ResponseCreateUser
  unfolding after_row
  create_pg_user parsed u = with_form parsed do added ← try (add_user s u); after_row u added

  finish_database : PgServiceUser → Text → Result ⊤ → Handled ⊤
  finish_database u name (ok _) = pure (answered tt)
  finish_database u name (err e) = do
    _ ← try (remove_database s u name)
    pure (refused internal_server_error)

  after_database : PgServiceUser → Text → Result ⊤ → Handled ⊤
  unfolding finish_database
  after_database u name (err e) = pure (refused (database_refusal e))
  after_database u name (ok _) = do
    made ← try (create_database s name u.user_name)
    finish_database u name made

  unfoldable pub create_pg_database : Bool → PgServiceUser → Text → Handled ⊤
  unfolding after_database
  create_pg_database parsed u name =
      with_form parsed do added ← try (add_database s u name); after_database u name added

  unfoldable pub remove_pg_user : Bool → PgServiceUser → Handled ⊤
  remove_pg_user parsed u = with_form parsed do
    dropped ← try (drop_postgres_user s u)
    or_fail dropped do removed ← try (remove_user s u); or_fail removed (pure (answered tt))

  -- The database is dropped before the user is identified.
  unfoldable pub remove_pg_database : Bool → PgServiceUser → Text → Handled ⊤
  remove_pg_database parsed u name = with_form parsed do
    dropped ← try (drop_database s name)
    or_fail dropped
        do removed ← try (remove_database s u name); or_fail removed (pure (answered tt))
