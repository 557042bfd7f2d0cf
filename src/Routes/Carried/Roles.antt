-- ===== src/Routes/Carried/Roles.antt =====
-- The creation and the removal of a role.
use kws.Prelude.{count-select-le, ℕ, ◌≤◌, ◌≡◌, Bool, true, false, not, count, arith}
use kws.World.{World, Result, ok, err, pure, try, ⊤, ◌>>=◌, Services}
use kws.World.Frame.{Keeps}
use kws.Postgres
use kws.Postgres.{PgServiceUser, add_user, remove_user, is_user}
use kws.Postgres.Limits.{add_user-limit}
use kws.Postgres.Handlers as PgHandlers
use kws.Postgres.Service.{create_postgres_user, drop_postgres_user}
use kws.Http.{answered}
use kws.Untouched.{create_postgres_user-IsSame, drop_postgres_user-IsSame}
use kws.Routes.Carried.Base.{Carries, bind, same}

module _ (s : Services) (k : ℕ) where
  -- All of these tables but the roles' own are as before.
  abbrev Rest : World s.Memory → World s.Memory → Type 0
  Rest w v = (v.users ≡ w.users) × (v.peers ≡ w.peers) × (v.instances ≡ w.instances)

  add_user-Rest : (u : PgServiceUser) → Keeps Rest (add_user s u)
  unfolding add_user
  add_user-Rest u w = ground arith

  remove_user-Rest : (u : PgServiceUser) → Keeps Rest (remove_user s u)
  unfolding remove_user
  remove_user-Rest u w = ground arith

  remove_user-limit :
      (u : PgServiceUser) (w : World s.Memory)
      → count (Postgres.of_user k) (remove_user s u w).1.pg_users
        ≤ count (Postgres.of_user k) w.pg_users
  unfolding remove_user
  remove_user-limit u w =
      ground (arith, count-select-le (Postgres.of_user k) (λ r. not (is_user u r)) w.pg_users)

  add_user-Carries : (u : PgServiceUser) → Keeps (Carries s k) (add_user s u)
  add_user-Carries u w =
      let (users, peers, instances) = add_user-Rest u w in
      (λ h. (rw peers h.0, add_user-limit s u k w h.1, rw instances h.2), λ x h. rw users h)

  remove_user-Carries : (u : PgServiceUser) → Keeps (Carries s k) (remove_user s u)
  remove_user-Carries u w =
      let (users, peers, instances) = remove_user-Rest u w in
      (
        λ h. (rw peers h.0, omega (arith, remove_user-limit u w, h.1), rw instances h.2),
        λ x h. rw users h,
      )

  finish_user-Carries :
      (u : PgServiceUser) (id : ℕ) (r : Result ⊤)
      → Keeps (Carries s k) (PgHandlers.finish_user s u id r)
  unfolding PgHandlers.finish_user
  finish_user-Carries u id (ok _) w = (λ h. h, λ x h. h)
  finish_user-Carries u id (err e) w = remove_user-Carries u w

  after_row-Carries :
      (u : PgServiceUser) (r : Result ℕ) → Keeps (Carries s k) (PgHandlers.after_row s u r)
  unfolding PgHandlers.after_row
  after_row-Carries u (err e) w = (λ h. h, λ x h. h)
  after_row-Carries u (ok id) w =
      bind s k (try (create_postgres_user s u.user_name)) (PgHandlers.finish_user s u id)
        (same s k (try (create_postgres_user s u.user_name))
          (create_postgres_user-IsSame s u.user_name))
        (finish_user-Carries u id) w

  pub create_pg_user-Carries :
      (b : Bool) (u : PgServiceUser) → Keeps (Carries s k) (PgHandlers.create_pg_user s b u)
  unfolding PgHandlers.create_pg_user
  create_pg_user-Carries false u w = (λ h. h, λ x h. h)
  create_pg_user-Carries true u w =
      bind s k (try (add_user s u)) (PgHandlers.after_row s u) (add_user-Carries u)
        (after_row-Carries u) w

  removed-Carries :
      (r : Result ⊤) → Keeps (Carries s k) (PgHandlers.or_fail s r (pure (answered tt)))
  removed-Carries (ok _) w = (λ h. h, λ x h. h)
  removed-Carries (err e) w = (λ h. h, λ x h. h)

  after_drop-Carries :
      (u : PgServiceUser) (r : Result ⊤)
      → Keeps (Carries s k) (
          PgHandlers.or_fail s r
            (try (remove_user s u) >>= λ gone. PgHandlers.or_fail s gone (pure (answered tt))))
  after_drop-Carries u (err e) w = (λ h. h, λ x h. h)
  after_drop-Carries u (ok _) w =
      bind s k (try (remove_user s u)) (λ gone. PgHandlers.or_fail s gone (pure (answered tt)))
        (remove_user-Carries u) removed-Carries w

  pub remove_pg_user-Carries :
      (b : Bool) (u : PgServiceUser) → Keeps (Carries s k) (PgHandlers.remove_pg_user s b u)
  unfolding PgHandlers.remove_pg_user
  remove_pg_user-Carries false u w = (λ h. h, λ x h. h)
  remove_pg_user-Carries true u w =
      bind s k (try (drop_postgres_user s u))
        (λ dropped.
          PgHandlers.or_fail s dropped
            (try (remove_user s u) >>= λ gone. PgHandlers.or_fail s gone (pure (answered tt))))
        (same s k (try (drop_postgres_user s u)) (drop_postgres_user-IsSame s u))
        (after_drop-Carries u) w
