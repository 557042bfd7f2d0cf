-- ===== src/Pages/Leaks.antt =====
-- What a user sees of another user's role.
use kws.Prelude.{
  ◌+◌, ◌≡◌, refl, Bool, false, Text, List, [], ◌∷◌, some, none, ◌&&◌, ◌==◌, ℕ, select, arith,
}
use kws.Prelude.Int.{pos}
use kws.World.{World, PgUserRow, ok, Services, call}
use kws.Auth.{atoi}
use kws.Auth.Handlers.{Session}
use kws.Postgres.{of_user, get_databases, get_password}
use kws.Pages.{pg_database, render, render_pg_databases_page}
use kws.Http.{answered}

select-select :
    (p q : PgUserRow → Bool) (rs : List PgUserRow)
    → select (λ r. p r && q r) rs ≡ select p (select q rs)
select-select p q [] = refl
select-select p q (r ∷ rs) = ground (arith, select-select p q rs)

none_of_another :
    (uid pid : ℕ) (r : PgUserRow) (rs : List PgUserRow)
    → select (λ q. q.id == pid) rs ≡ r ∷ []
    → (r.user_id == uid) ≡ false
    → select (λ q. q.user_id == uid && q.id == pid) rs ≡ []
none_of_another uid pid r rs h e =
    rw (select-select (of_user uid) (λ q. q.id == pid) rs, h) (ground arith)

module _ (s : Services) (calm : (n : ℕ) → s.fault n ≡ none) where
  -- If no call of a service fails and the query's pid is that of exactly one role, which is
  -- another user's, the page of databases is answered with that role's password and no databases.
  pub render_pg_databases_page_leaks :
      (session : Session) (pid_text owner : Text) (pid : ℕ) (r : PgUserRow) (w : World s.Memory)
      → atoi pid_text ≡ some (pos pid)
      → select (λ q. q.id == pid) w.pg_users ≡ r ∷ []
      → (r.user_id == session.id) ≡ false
      → (render_pg_databases_page s session pid_text owner w).0
        ≡ ok (answered (pg_database s session owner (0, []) r.pg_user_password))
  unfolding render_pg_databases_page get_databases get_password render call
  render_pg_databases_page_leaks session pid_text owner pid r w h k e = grind (
    arith,
    h,
    calm w.tick,
    calm (w.tick + 1),
    calm (w.tick + 1 + 1),
    none_of_another session.id pid r w.pg_users k e,
  )
