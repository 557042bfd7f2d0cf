-- ===== src/Pages.antt =====
-- The data of the web pages, src/cmd/web_handler.go, src/models/web/web.go and
-- src/consts/services/services.go.
pub mod Leaks
mod Models
unfoldable pub use Models.*
use kws.Prelude.{
  ℕ, suc, ◌-◌, ◌*◌, Bool, true, false, Text, codes, List, [], ◌∷◌, Option, none, some, map, leb,
  length, ◌==◌, not, if◌then◌else◌,
}
use kws.Prelude.Int.{ℤ, pos, negsuc, neg}
use kws.World.{
  Peer, DomainRow, PgUserRow, no_rows, nil_dereference, max_service_db_users, max_service_db_db, M,
  Result, ok, err, pure, raise, try, attempt, ⊤, ◌>>=◌, ◌>>◌, Services, call,
}
use kws.Address.{generate_ip, generate_ip_lxc}
use kws.Auth.{atoi}
use kws.Auth.Handlers.{Session, home}
use kws.Peers.{get_devices}
use kws.Wireguard.{is_online}
use kws.Postgres.{Database, get_users, get_databases, get_password}
use kws.Instances.{InsData, get_data, get_ip_from_uid}
use kws.Domains.{get_user_domains}
use kws.Http.{Response, refused, redirected, answered, bad_request, internal_server_error}

module _ (s : Services) where
  -- templates.ExecuteTemplate.
  unfoldable pub render : {A : Type 0} → A → M s.Memory (Response A)
  unfolding call
  render page = do
    executed ← try (call s)
    elim executed [ err e ↦ pure (refused internal_server_error) | ok _ ↦ pure (answered page) ]

  -- Go's `if err != nil { http.Error(w, ..., 500); return }`.
  abbrev pub or_fail :
      {A B : Type 0} → Result A → (A → M s.Memory (Response B)) → M s.Memory (Response B)
  or_fail (ok a) f = f a
  or_fail (err e) f = pure (refused internal_server_error)

  -- RenderRegisterPage and RenderSignInPage.
  unfoldable pub render_public_page : Session → M s.Memory (Response ⊤)
  unfolding render
  render_public_page session = if session.is_authorized then pure (redirected home) else render tt

  unfoldable pub home_handler : Session → M s.Memory (Response Text)
  unfolding render
  home_handler session = render session.user_name

  unfoldable pub devices_of : List Peer → M s.Memory (List Device)
  unfolding is_online
  devices_of [] = pure []
  devices_of (p ∷ ps) = do
    active ← is_online s p.public_key
    rest ← devices_of ps
    pure (
        record { public_key = p.public_key; ip = generate_ip (pos p.ip_address); active = active }
        ∷ rest)

  -- A query that fails has no return: its 500 stands in front of the page without devices.
  unfoldable pub render_devices_page : Session → M s.Memory (Response Data)
  unfolding devices_of render
  render_devices_page session = do
    asked ← attempt (get_devices s session.id)
    elim asked [
      | err e ↦ do
        _ ← render {A = Data} (record { username = session.user_name; devices = [] })
        pure (refused internal_server_error)
      | ok peers ↦ do
        devices ← attempt (devices_of peers)
        or_fail devices (λ ds. render (record { username = session.user_name; devices = ds }))
    ]

  unfoldable pub render_services_page : Session → M s.Memory (Response ServicesData)
  unfolding render
  render_services_page session =
      render (record {
        username = session.user_name;
        services = get_service_list;
        adminer_data = adminer;
      })

  unfoldable pub render_pg_users_page : Session → M s.Memory (Response PgUserPageData)
  unfolding render
  render_pg_users_page session = do
    asked ← attempt (get_users s session.id)
    or_fail asked (λ users. render (record {
      host_name = get_pg_service_data.hostname;
      service_ip = get_pg_service_data.ip;
      port = codes "5432";
      logged_in_user = session.user_name;
      user_limit = max_service_db_users;
      users = map web_user users;
    }))

  -- No role has a negative id.
  abbrev pub databases_at : ℤ → ℕ → M s.Memory (ℕ × List Database)
  databases_at (pos pid) uid = get_databases s pid uid
  databases_at (negsuc n) uid = do call s; pure (0, [])

  abbrev pub password_at : ℤ → M s.Memory Text
  password_at (pos pid) = get_password s pid
  password_at (negsuc n) = do call s; raise no_rows

  abbrev pub pg_database : Session → Text → ℕ × List Database → Text → PgDatabase
  pg_database session owner (count, dbs) password = record {
    password = password;
    host_name = get_pg_service_data.hostname;
    username = session.user_name;
    total_databases = count;
    owner = owner;
    available_slots = difference max_service_db_db count;
    limit = max_service_db_db;
    usage_percent = percent count;
    databases = dbs;
  }

  -- The values `pid` and `owner` of the query.
  unfoldable pub render_pg_databases_page : Session → Text → Text → M s.Memory (Response PgDatabase)
  unfolding render call
  render_pg_databases_page session pid_text owner = elim (atoi pid_text) [
    | none ↦ pure (refused bad_request)
    | some pid ↦ do
      asked ← attempt (databases_at pid session.id)
      or_fail asked (λ counted. do
        found ← attempt (password_at pid)
        or_fail found (λ password. render (pg_database session owner counted password)))
  ]

  -- The query for the address never fails, so that a missing one is printed as -1's.
  unfoldable pub render_instance_page : Session → M s.Memory (Response InstancePage)
  unfolding render
  render_instance_page session = do
    asked ← attempt (get_data s session.id)
    or_fail asked (λ found. do
      ip ← get_ip_from_uid s session.id
      render (record { ins_data = found; username = session.user_name; ip = generate_ip_lxc ip }))

  unfoldable pub render_publish_page : Session → M s.Memory (Response PublishInstancePageData)
  unfolding render
  render_publish_page session = do
    asked ← attempt (get_user_domains s session.id)
    or_fail asked (λ domains. render (record {
      logged_in_user = session.user_name;
      domains = map web_domain domains;
      has_domains = not (length domains == 0);
    }))
