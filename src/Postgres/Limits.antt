-- ===== src/Postgres/Limits.antt =====
-- The limits on roles and databases, and the names of roles.
use kws.Prelude.{
  count-append, ℕ, ◌+◌, ◌≤◌, ◌≡◌, false, text_eq, [], ◌∷◌, ◌++◌, arith, count, exists, leb,
}
use kws.World.{World, PgUserRow, Result, ok, err, Services}
use kws.Postgres.{PgServiceUser, of_user, add_user}

abbrev pub user_row : PgServiceUser → ℕ → PgUserRow
user_row u id = record {
  id = id;
  user_id = u.uid;
  pg_user_name = u.user_name;
  pg_user_password = u.password;
}

module _ (s : Services) where
  -- The outcomes of AddUser: one row more, with what allowed it, or both tables as they were.
  abbrev pub RoleAdded : PgServiceUser → World s.Memory → Result ℕ × World s.Memory → Type 0
  RoleAdded u w (ok id, v) =
      (id ≡ w.next_id)
      × (v.next_id ≡ w.next_id + 1)
      × (v.pg_users ≡ w.pg_users ++ user_row u id ∷ [])
      × (v.pg_dbs ≡ w.pg_dbs)
      × (leb 5 (count (of_user u.uid) w.pg_users) ≡ false)
      × (exists (λ r. text_eq r.pg_user_name u.user_name) w.pg_users ≡ false)
  RoleAdded u w (err e, v) = (v.pg_users ≡ w.pg_users) × (v.pg_dbs ≡ w.pg_dbs)

  -- AddUser succeeds only for a user who has less than five roles and only if no role of any user
  -- has the name; it then adds the row under the next id, which it returns. With an error neither
  -- table has changed.
  pub add_user-RoleAdded : (u : PgServiceUser) (w : World s.Memory) → RoleAdded u w (add_user s u w)
  unfolding add_user
  add_user-RoleAdded u w = grind arith

  added_limit :
      (u : PgServiceUser) (k : ℕ) (w : World s.Memory) (r : Result ℕ × World s.Memory)
      → RoleAdded u w r
      → count (of_user k) w.pg_users ≤ 5
      → count (of_user k) r.1.pg_users ≤ 5
  added_limit u k w (ok id, v) (e, n, grown, same, few, new) h =
      rw grown (ground (arith, few, count-append (of_user k) w.pg_users (user_row u id ∷ [])))
  added_limit u k w (err e, v) (same, d) h = rw same h

  -- If a user has at most five roles, so it is after AddUser for that or any other user.
  pub add_user-limit :
      (u : PgServiceUser) (k : ℕ) (w : World s.Memory)
      → count (of_user k) w.pg_users ≤ 5
      → count (of_user k) (add_user s u w).1.pg_users ≤ 5
  add_user-limit u k w h = added_limit u k w (add_user s u w) (add_user-RoleAdded u w) h
