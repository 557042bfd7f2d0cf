-- ===== src/Routes/Tables/Pages.antt =====
-- The pages leave these tables alone.
use kws.Prelude.{ℕ, Text, List, [], ◌∷◌, Option-cases, inl, inr, arith}
use kws.Prelude.Int.{ℤ, pos, negsuc}
use kws.World.{Peer, M, Result, ok, err, attempt, ◌>>=◌, Services, call}
use kws.Auth.Handlers.{Session}
use kws.Postgres.{Database}
use kws.Pages
use kws.Pages.{PgDatabase}
use kws.Auth.{atoi}
use kws.Http.{Response}
use kws.Untouched.{IsSame, answer-IsSame}
use kws.Untouched.{
  get_user_domains-IsSame, get_ip_from_uid-IsSame, get_data-IsSame, get_devices-IsSame,
  get_users-IsSame, get_databases-IsSame, get_password-IsSame,
}
use kws.Routes.Tables.Handlers.{is_online-IsSame}

module _ (s : Services) where
  pub render-IsSame : {A : Type 0} (page : A) → IsSame s (Pages.render s page)
  unfolding Pages.render
  render-IsSame page w = ground arith

  pub render_public_page-IsSame : (u : Session) → IsSame s (Pages.render_public_page s u)
  unfolding Pages.render_public_page
  render_public_page-IsSame u w = ground arith

  pub home_handler-IsSame : (u : Session) → IsSame s (Pages.home_handler s u)
  unfolding Pages.home_handler
  home_handler-IsSame u w = ground arith

  pub devices_of-IsSame : (ps : List Peer) → IsSame s (Pages.devices_of s ps)
  unfolding Pages.devices_of
  devices_of-IsSame [] w = ground arith
  devices_of-IsSame (p ∷ ps) w = grind (arith, is_online-IsSame, devices_of-IsSame ps)

  pub render_devices_page-IsSame : (u : Session) → IsSame s (Pages.render_devices_page s u)
  unfolding Pages.render_devices_page
  render_devices_page-IsSame u w = grind (arith, get_devices-IsSame, devices_of-IsSame)

  pub render_services_page-IsSame : (u : Session) → IsSame s (Pages.render_services_page s u)
  unfolding Pages.render_services_page
  render_services_page-IsSame u w = ground arith

  pub render_pg_users_page-IsSame : (u : Session) → IsSame s (Pages.render_pg_users_page s u)
  unfolding Pages.render_pg_users_page
  render_pg_users_page-IsSame u w = grind (arith, get_users-IsSame)

  databases_at-IsSame : (pid : ℤ) (uid : ℕ) → IsSame s (Pages.databases_at s pid uid)
  unfolding call
  databases_at-IsSame (pos pid) uid w = get_databases-IsSame s pid uid w
  databases_at-IsSame (negsuc n) uid w = ground arith

  password_at-IsSame : (pid : ℤ) → IsSame s (Pages.password_at s pid)
  unfolding call
  password_at-IsSame (pos pid) w = get_password-IsSame s pid w
  password_at-IsSame (negsuc n) w = ground arith

  or_fail-IsSame :
      {A B : Type 0} (f : A → M s.Memory (Response B))
      → ((a : A) → IsSame s (f a))
      → (r : Result A) → IsSame s (Pages.or_fail s r f)
  or_fail-IsSame f h (ok a) w = h a w
  or_fail-IsSame f h (err e) w = ground arith

  page_at :
      (u : Session) (o : Text) (pid : ℤ)
      → IsSame s (
          attempt (Pages.databases_at s pid u.id) >>= λ asked. Pages.or_fail s asked (λ counted.
            attempt (Pages.password_at s pid) >>= λ found.
            Pages.or_fail s found
              (λ password. Pages.render s (Pages.pg_database s u o counted password))))
  page_at u o pid =
      answer-IsSame s (Pages.databases_at s pid u.id) (λ asked. Pages.or_fail s asked with_count)
        (databases_at-IsSame pid u.id)
        (or_fail-IsSame with_count λ counted.
          answer-IsSame s (Pages.password_at s pid) (λ found. Pages.or_fail s found (page counted))
            (password_at-IsSame pid)
            (or_fail-IsSame (page counted)
              λ password. render-IsSame (Pages.pg_database s u o counted password)))
    where
      page : ℕ × List Database → Text → M s.Memory (Response PgDatabase)
      page counted password = Pages.render s (Pages.pg_database s u o counted password)

      with_count : ℕ × List Database → M s.Memory (Response PgDatabase)
      with_count counted =
          attempt (Pages.password_at s pid) >>= λ found. Pages.or_fail s found (page counted)

  pub render_pg_databases_page-IsSame :
      (u : Session) (p o : Text) → IsSame s (Pages.render_pg_databases_page s u p o)
  unfolding Pages.render_pg_databases_page
  render_pg_databases_page-IsSame u p o w = elim (Option-cases (atoi p)) [
    | inl e ↦ rw (e, Pages.render_pg_databases_page) (ground arith)
    | inr (pid, read) ↦ rw (read, Pages.render_pg_databases_page) (page_at u o pid w)
  ]

  pub render_instance_page-IsSame : (u : Session) → IsSame s (Pages.render_instance_page s u)
  unfolding Pages.render_instance_page
  render_instance_page-IsSame u w = grind (arith, get_data-IsSame, get_ip_from_uid-IsSame)

  pub render_publish_page-IsSame : (u : Session) → IsSame s (Pages.render_publish_page s u)
  unfolding Pages.render_publish_page
  render_publish_page-IsSame u w = grind (arith, get_user_domains-IsSame)
