-- ===== src/Postgres/Service.antt =====
-- `PGService`, src/internal/docker/services/pg.go: the roles and databases of the users' server.
use kws.Prelude.{Text, List, [], ◌∷◌}
use kws.World.{
  role_created, role_dropped, database_created, database_dropped, connect_revoked, M, pure, ⊤,
  ◌>>=◌, ◌>>◌, Services, command,
}
use kws.Postgres.{PgServiceUser, get_user_databases}

module _ (s : Services) where
  unfoldable pub create_postgres_user : Text → M s.Memory ⊤
  unfolding command
  create_postgres_user user_name = command s (role_created user_name)

  unfoldable pub create_database : Text → Text → M s.Memory ⊤
  unfolding command
  create_database name owner = do
    command s (database_created name owner)
    command s (connect_revoked name)

  unfoldable pub drop_database : Text → M s.Memory ⊤
  unfolding command
  drop_database name = command s (database_dropped name)

  unfoldable pub drop_databases : List Text → M s.Memory ⊤
  unfolding drop_database
  drop_databases [] = pure tt
  drop_databases (name ∷ names) = do drop_database name; drop_databases names

  -- The databases of the role go first.
  unfoldable pub drop_postgres_user : PgServiceUser → M s.Memory ⊤
  unfolding drop_databases command
  drop_postgres_user u = do
    dbs ← get_user_databases s u
    drop_databases dbs
    command s (role_dropped u.user_name)
