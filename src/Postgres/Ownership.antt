-- ===== src/Postgres/Ownership.antt =====
-- Whose database a request removes.
use kws.Prelude.{◌≡◌, true, Text, ◌∷◌, none, select, arith, ◌+◌}
use kws.World.{World, database_dropped, pg_user_not_found, ok, err, Services}
use kws.Http.{refused}
use kws.Postgres.{PgServiceUser, is_user, first_id, remove_database}
use kws.Postgres.Service.{drop_database}
use kws.Postgres.Handlers.{remove_pg_database}

module _ (s : Services) where
  remove_database_unknown :
      (u : PgServiceUser) (name : Text) (w : World s.Memory)
      → first_id (select (is_user u) w.pg_users) ≡ none
      → remove_database s u name w ≡ (err pg_user_not_found, record w { tick = w.tick + 1 })
  unfolding remove_database
  remove_database_unknown u name w h = ground arith

  drop_goes :
      (name : Text) (w : World s.Memory)
      → s.fault w.tick ≡ none
      → drop_database s name w
        ≡ (ok tt, record w { tick = w.tick + 1; log = database_dropped name ∷ w.log })
  unfolding drop_database
  drop_goes name w f = ground arith

  -- When the form parses, no role has the given user, name and password, and the first call goes
  -- through, RemovePgDatabase drops the database of the form's name on the server all the same,
  -- answers 500, and leaves the rows of databases.
  pub remove_pg_database_unowned :
      (u : PgServiceUser) (name : Text) (w : World s.Memory)
      → s.fault w.tick ≡ none
      → first_id (select (is_user u) w.pg_users) ≡ none
      → let (r, v) = remove_pg_database s true u name w in
        (r ≡ ok (refused 500)) × (v.log ≡ database_dropped name ∷ w.log) × (v.pg_dbs ≡ w.pg_dbs)
  unfolding remove_pg_database
  remove_pg_database_unowned u name w f h = grind (
    arith,
    drop_goes name w f,
    remove_database_unknown u name
        (record w { tick = w.tick + 1; log = database_dropped name ∷ w.log }) h,
  )
