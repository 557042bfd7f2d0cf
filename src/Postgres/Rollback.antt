-- ===== src/Postgres/Rollback.antt =====
-- The creation of a role, src/cmd/pg_service_handler.go, CreatePGUser: the row, the role on
-- the server, and what becomes of the row when there is no role.
use kws.Prelude.{
  ℕ, ◌+◌, ◌≤◌, leb, count, Bool-cases, ◌≡◌, refl, ap, ◌∙◌, ◌⊎◌, inl, inr, true, false, not, Text,
  text_eq, text_eq_refl, List, [], ◌∷◌, ◌++◌, some, none, Option-cases, select, exists, arith, ◌==◌,
}
use kws.World.{
  World, PgUserRow, PgDbRow, Error, Fault, role_created, to_error, Result, ok, err, Services,
}
use kws.Http.{Response, refused, redirected, answered}
use kws.Postgres.{PgServiceUser, of_user, is_user, add_user, remove_user}
use kws.Postgres.Limits.{user_row, RoleAdded, add_user-RoleAdded}
use kws.Postgres.Service.{create_postgres_user}
use kws.Postgres.Handlers.{ResponseCreateUser, finish_user, after_row, create_pg_user}

-- A row whose name no other row has, and nothing else, is taken away again.
select-added :
    (u : PgServiceUser) (id : ℕ) (rs : List PgUserRow)
    → exists (λ r. text_eq r.pg_user_name u.user_name) rs ≡ false
    → select (λ r. not (is_user u r)) (rs ++ user_row u id ∷ []) ≡ rs
select-added u id [] h = ground (arith, text_eq_refl u.user_name, text_eq_refl u.password)
select-added u id (r ∷ rs) h = ground (arith, select-added u id rs)

gone-added :
    (u : PgServiceUser) (id : ℕ) (rs : List PgUserRow)
    → exists (λ r. text_eq r.pg_user_name u.user_name) rs ≡ false
    → select (is_user u) (rs ++ user_row u id ∷ []) ≡ user_row u id ∷ []
gone-added u id [] h = ground (arith, text_eq_refl u.user_name, text_eq_refl u.password)
gone-added u id (r ∷ rs) h = ground (arith, gone-added u id rs)

databases_kept :
    (u : PgServiceUser) (id : ℕ) (ds : List PgDbRow)
    → exists (λ d. d.pid == id) ds ≡ false
    → select (λ d. not (exists (λ r. r.id == d.pid) (user_row u id ∷ []))) ds ≡ ds
databases_kept u id [] h = cc
databases_kept u id (d ∷ ds) h = ground (arith, databases_kept u id ds)

module _ (s : Services) where
  -- What AddUser does but for the rows: two calls, and no command.
  abbrev Counted : World s.Memory → Result ℕ × World s.Memory → Type 0
  Counted w (ok id, v) = (v.tick ≡ w.tick + 2) × (v.log ≡ w.log)
  Counted w (err e, v) = v.log ≡ w.log

  add_user-Counted : (u : PgServiceUser) (w : World s.Memory) → Counted w (add_user s u w)
  unfolding add_user
  add_user-Counted u w = grind arith

  -- Why there is no role: five roles of the user, a role of the name, or a call that failed, one of
  -- the two for the row and the one for the role.
  abbrev pub Reason : PgServiceUser → World s.Memory → Type 0
  Reason u w =
      (leb 5 (count (of_user u.uid) w.pg_users) ≡ true)
      ⊎ ((exists (λ r. text_eq r.pg_user_name u.user_name) w.pg_users ≡ true)
          ⊎ ((n : ℕ) × (n ≤ 2) × ((f : Fault) × (s.fault (w.tick + n) ≡ some f))))

  adds :
      (u : PgServiceUser) (w : World s.Memory)
      → s.fault w.tick ≡ none
      → leb 5 (count (of_user u.uid) w.pg_users) ≡ false
      → s.fault (w.tick + 1) ≡ none
      → exists (λ r. text_eq r.pg_user_name u.user_name) w.pg_users ≡ false
      → (add_user s u w).0 ≡ ok w.next_id
  unfolding add_user
  adds u w up few still new = ground arith

  add_user-Reason :
      (u : PgServiceUser) (w : World s.Memory) → Reason u w ⊎ ((add_user s u w).0 ≡ ok w.next_id)
  add_user-Reason u w = elim (Option-cases (s.fault w.tick)) [
    | inr (f, down) ↦ inl (inr (inr (0, omega arith, (f, ground (arith, down)))))
    | inl up ↦ elim (Bool-cases (leb 5 (count (of_user u.uid) w.pg_users))) [
      | inl full ↦ inl (inl full)
      | inr few ↦ elim (Option-cases (s.fault (w.tick + 1))) [
        | inr (f, down) ↦ inl (inr (inr (1, omega arith, (f, down))))
        | inl still ↦
            elim (Bool-cases (exists (λ r. text_eq r.pg_user_name u.user_name) w.pg_users)) [
              | inl taken ↦ inl (inr (inl taken))
              | inr new ↦ inr (adds u w up few still new)
            ]
      ]
    ]
  ]

  -- The outcomes: the row and the role; neither; or the row alone, when the call that takes it back
  -- fails.
  abbrev pub Created :
      PgServiceUser
      → World s.Memory
      → Result (Response ResponseCreateUser) × World s.Memory
      → Type 0
  Created u w (ok (answered x), v) =
      (x.id ≡ w.next_id)
      × (v.pg_users ≡ w.pg_users ++ user_row u w.next_id ∷ [])
      × (v.pg_dbs ≡ w.pg_dbs)
      × (v.log ≡ role_created u.user_name ∷ w.log)
  Created u w (ok (refused c), v) =
      Reason u w
      × (v.log ≡ w.log)
      × (v.pg_dbs ≡ w.pg_dbs)
      × ((v.pg_users ≡ w.pg_users)
          ⊎ ((c ≡ 500)
              × (v.pg_users ≡ w.pg_users ++ user_row u w.next_id ∷ [])
              × ((f : Fault) × (s.fault (w.tick + 3) ≡ some f))))
  Created u w (ok (redirected t), v) = ⊥
  Created u w (err e, v) = ⊥

  -- After AddUser.
  abbrev HasRow : PgServiceUser → World s.Memory → World s.Memory → Type 0
  HasRow u w v =
      (v.pg_users ≡ w.pg_users ++ user_row u w.next_id ∷ [])
      × (v.pg_dbs ≡ w.pg_dbs)
      × (v.log ≡ w.log)

  abbrev IsNew : PgServiceUser → World s.Memory → Type 0
  IsNew u w =
      (exists (λ r. text_eq r.pg_user_name u.user_name) w.pg_users ≡ false)
      × (exists (λ d. d.pid == w.next_id) w.pg_dbs ≡ false)

  -- A removal that goes through, and one that does not.
  removed :
      (u : PgServiceUser) (v : World s.Memory)
      → s.fault v.tick ≡ none
      → let x = (remove_user s u v).1 in
        (x.log ≡ v.log)
        × (x.pg_dbs
            ≡ select
                (λ d. not (exists (λ r. r.id == d.pid) (select (is_user u) v.pg_users)))
                v.pg_dbs)
        × (x.pg_users ≡ select (λ r. not (is_user u r)) v.pg_users)
  unfolding remove_user
  removed u v up = ground arith

  not_removed :
      (u : PgServiceUser) (v : World s.Memory) (f : Fault)
      → s.fault v.tick ≡ some f
      → let x = (remove_user s u v).1 in
        (x.log ≡ v.log) × (x.pg_dbs ≡ v.pg_dbs) × (x.pg_users ≡ v.pg_users)
  unfolding remove_user
  not_removed u v f down = ground arith

  finish_user-Created :
      (u : PgServiceUser) (id : ℕ) (w v : World s.Memory) (e : Error)
      → IsNew u w
      → HasRow u w v
      → Reason u w
      → v.tick ≡ w.tick + 3
      → Created u w (finish_user s u id (err e) v)
  unfolding finish_user
  finish_user-Created u id w v e (new, free) (users, dbs, log) why t =
      elim (Option-cases (s.fault v.tick)) [
        | inl up ↦
            let (logged, rows, roles) = removed u v up in
            (
              why,
              logged ∙ log,
              rows
                  ∙ (rw (users, dbs, gone-added u w.next_id w.pg_users new)
                      (databases_kept u w.next_id w.pg_dbs free)),
              inl (roles ∙ (rw users (select-added u w.next_id w.pg_users new))),
            )
        | inr (f, down) ↦
            let (logged, rows, roles) = not_removed u v f down in
            (why, logged ∙ log, rows ∙ dbs, inr (refl, roles ∙ users, (f, rw⁻¹ t down)))
      ]

  role_made :
      (name : Text) (v : World s.Memory)
      → s.fault v.tick ≡ none
      → create_postgres_user s name v
        ≡ (ok tt, record v { tick = v.tick + 1; log = role_created name ∷ v.log })
  unfolding create_postgres_user
  role_made name v up = ground arith

  role_not_made :
      (name : Text) (v : World s.Memory) (f : Fault)
      → s.fault v.tick ≡ some f
      → create_postgres_user s name v ≡ (err (to_error f), record v { tick = v.tick + 1 })
  unfolding create_postgres_user
  role_not_made name v f down = ground arith

  -- The role, after the row.
  after_row-Created :
      (u : PgServiceUser) (w v : World s.Memory)
      → IsNew u w
      → HasRow u w v
      → v.tick ≡ w.tick + 2
      → Created u w (after_row s u (ok w.next_id) v)
  unfolding after_row finish_user
  after_row-Created u w v new (users, dbs, log) t = elim (Option-cases (s.fault v.tick)) [
    | inl up ↦
        rw (after_row, role_made u.user_name v up)
          (refl, users, dbs, ap (◌∷◌ (role_created u.user_name)) log)
    | inr (f, down) ↦
        rw (after_row, role_not_made u.user_name v f down)
          (finish_user-Created u w.next_id w (record v { tick = v.tick + 1 }) (to_error f) new
            (users, dbs, log) (inr (inr (2, omega arith, (f, rw⁻¹ t down)))) (omega (arith, t)))
  ]

  -- If the form parses and no row of databases carries the next id, CreatePgUser ends in one of
  -- three ways. It answers with the next id: then the table has one row more, under that id, and
  -- the role is made on the server. It refuses: then no role is made, and the rows are as before.
  -- Or it refuses with 500, with no role made but the row added: then the call that was to take
  -- the row back has failed. It refuses only a user who has five roles, a name that a role has,
  -- or if one of the two calls for the row or the one for the role fails. The rows of databases
  -- stay.
  pub create_pg_user-Created :
      (u : PgServiceUser) (w : World s.Memory)
      → exists (λ d. d.pid == w.next_id) w.pg_dbs ≡ false
      → Created u w (create_pg_user s true u w)
  unfolding create_pg_user
  create_pg_user-Created u w free =
      by_result (add_user s u w) (add_user-RoleAdded s u w) (add_user-Counted u w)
        (add_user-Reason u w)
    where
      by_result :
          (q : Result ℕ × World s.Memory)
          → RoleAdded s u w q
          → Counted w q
          → Reason u w ⊎ (q.0 ≡ ok w.next_id)
          → Created u w (after_row s u q.0 q.1)
      by_result (ok id, v) (e, n, users, dbs, few, new) (t, log) why =
          rw e (after_row-Created u w v (new, free) (rw⁻¹ e users, dbs, log) t)
      by_result (err e, v) (users, dbs) log (inl why) = (why, log, dbs, inl users)
      by_result (err e, v) (users, dbs) log (inr added) = cc
