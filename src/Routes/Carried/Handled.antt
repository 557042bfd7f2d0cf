-- ===== src/Routes/Carried/Handled.antt =====
-- Every route: what its handler carries on.
use kws.Prelude.{ℕ, refl, Text, codes, [], ◌∷◌, none}
use kws.Prelude.Int.{ℤ}
use kws.World.{
  World, M, Result, ok, err, attempt, ⊤, Services, RedisLaws, stop_action, kill_action,
  deploy_action,
}
use kws.Address.{IpAllocator}
use kws.Auth.{get_uid_from_tunnel_secret, atoi}
use kws.Auth.Handlers as AuthHandlers
use kws.Auth.Handlers.{Session, is_authorized}
use kws.Auth.Tunnels.{admitted, is_tunnel_user_authorized, login_tunnel_user}
use kws.InstanceHandlers
use kws.InstanceHandlers.{store_mq}
use kws.Wireguard
use kws.Publish
use kws.Postgres.Handlers as PgHandlers
use kws.Pages
use kws.Start.{pool_size, app_mq}
use kws.Http.{Response}
use kws.Routes.{Request, Body, Route, sends, for_tunnel_user, handle, user_of, role_of, form_of}
use kws.Untouched.{IsSame, bind, attempt-IsSame, get_uid_from_tunnel_secret-IsSame}
use kws.Routes.Tables.{
  handle_instance_action-IsSame, handle_deploy_result-IsSame, stop_result-IsSame,
  kill_result-IsSame, handle_is_online-IsSame, publish_domain-IsSame, unpublish_domain-IsSame,
  create_pg_database-IsSame, remove_pg_database-IsSame, login_tunnel_user-IsSame,
  create_tunnel_handler-IsSame, destroy_tunnel_handler-IsSame, render_public_page-IsSame,
  home_handler-IsSame, render_devices_page-IsSame, render_services_page-IsSame,
  render_pg_users_page-IsSame, render_pg_databases_page-IsSame, render_instance_page-IsSame,
  render_publish_page-IsSame,
}
use kws.Routes.Carried.Base.{same}
use kws.Routes.Carried.Devices.{register_device-Carries, remove_device-Carries}
use kws.Routes.Carried.Roles.{create_pg_user-Carries, remove_pg_user-Carries}
use kws.Routes.Carried.Accounts.{create_user_handler-Carries, verify_user_handler-Carries}
use kws.Routes.Carried.Answers.{
  Genuine, Good, sends-Good, worked_on-Good, with_session-Good, login-Good, log_out_user-Good,
}

module _ (s : Services) where
  admitted-IsSame :
      (handler : ℤ → M s.Memory (Response ⊤))
      → ((uid : ℤ) → IsSame s (handler uid))
      → (r : Result ℤ) → IsSame s (admitted s handler r)
  admitted-IsSame handler h (ok uid) w = h uid w
  admitted-IsSame handler h (err e) w = ((refl, refl, refl, refl), (refl, refl))

  for_tunnel-IsSame :
      (secret : Text) (handler : ℤ → M s.Memory (Response ⊤))
      → ((uid : ℤ) → IsSame s (handler uid))
      → IsSame s (is_tunnel_user_authorized s secret handler)
  unfolding is_tunnel_user_authorized
  for_tunnel-IsSame [] handler h w = ((refl, refl, refl, refl), (refl, refl))
  for_tunnel-IsSame (c ∷ cs) handler h w =
      bind s (attempt (get_uid_from_tunnel_secret s (c ∷ cs))) (admitted s handler)
        (attempt-IsSame s (get_uid_from_tunnel_secret s (c ∷ cs))
          (get_uid_from_tunnel_secret-IsSame s (c ∷ cs)))
        (admitted-IsSame handler h) w

module _ (s : Services) (laws : RedisLaws s) (a : IpAllocator) (k : ℕ) where
  -- A handler that leaves the tables alone, and one that carries the limits on.
  plain :
      {A : Type 0} (body : A → Body) (u : Session) (m : M s.Memory (Response A))
      → IsSame s m
      → (w : World s.Memory) → Genuine s k u w
      → Good s k w (sends s a body u m w)
  plain body u m h = sends-Good s k a body u m (same s k m h)

  for_tunnel-Good :
      (u : Session) (r : Request) (handler : ℤ → M s.Memory (Response ⊤))
      → ((uid : ℤ) → IsSame s (handler uid))
      → (w : World s.Memory) → Genuine s k u w
      → Good s k w (for_tunnel_user s a u r handler w)
  for_tunnel-Good u r handler h =
      plain (λ _. Body.empty) u (is_tunnel_user_authorized s r.secret handler)
        (for_tunnel-IsSame s r.secret handler h)

  abbrev pub Kept : Route → Type 0
  Kept route =
      (r : Request) (u : Session) (w : World s.Memory)
      → Genuine s k u w
      → Good s k w (handle s a route r u w)

  pub handle-Good : (route : Route) → Kept route
  unfolding handle
  handle-Good Route.create_tunnel r u =
      for_tunnel-Good u r _
        (λ uid. create_tunnel_handler-IsSame s app_mq pool_size r.parsed uid _ _ _)
  handle-Good Route.destroy_tunnel r u =
      for_tunnel-Good u r _ (λ uid. destroy_tunnel_handler-IsSame s r.parsed uid _)
  handle-Good Route.log_out_user r u =
      λ w g. with_session-Good s k a (AuthHandlers.log_out_user s u) w (log_out_user-Good s k u w g)
  handle-Good Route.deploy r u =
      plain Body.job u (InstanceHandlers.deploy s store_mq pool_size u (form_of r))
        (handle_instance_action-IsSame s store_mq pool_size u deploy_action (form_of r))
  handle-Good Route.stop_instance r u =
      plain Body.job u (InstanceHandlers.stop_instance s store_mq pool_size u)
        (handle_instance_action-IsSame s store_mq pool_size u stop_action none)
  handle-Good Route.delete_instance r u =
      plain Body.job u (InstanceHandlers.delete_instance s store_mq pool_size u)
        (handle_instance_action-IsSame s store_mq pool_size u kill_action none)
  handle-Good Route.register_device r u =
      sends-Good s k a Body.device u
        (Wireguard.register_device s a u.id (r.form_value (codes "public_key")))
        (register_device-Carries s laws k a u.id (r.form_value (codes "public_key")))
  handle-Good Route.remove_device r u =
      sends-Good s k a (λ _. Body.empty) u
        (Wireguard.remove_device s a u.id (r.form_value (codes "public_key")))
        (remove_device-Carries s k a u.id (r.form_value (codes "public_key")))
  handle-Good Route.create_pg_user r u =
      sends-Good s k a Body.role u (PgHandlers.create_pg_user s r.parsed (role_of u r))
        (create_pg_user-Carries s k r.parsed (role_of u r))
  handle-Good Route.create_pg_database r u =
      let name = r.form_value (codes "db_name") in
      plain (λ _. Body.empty) u (PgHandlers.create_pg_database s r.parsed (role_of u r) name)
        (create_pg_database-IsSame s r.parsed (role_of u r) name)
  handle-Good Route.remove_pg_user r u =
      sends-Good s k a (λ _. Body.empty) u (PgHandlers.remove_pg_user s r.parsed (role_of u r))
        (remove_pg_user-Carries s k r.parsed (role_of u r))
  handle-Good Route.remove_pg_database r u =
      let name = r.form_value (codes "db_name") in
      plain (λ _. Body.empty) u (PgHandlers.remove_pg_database s r.parsed (role_of u r) name)
        (remove_pg_database-IsSame s r.parsed (role_of u r) name)
  handle-Good Route.render_devices_page r u =
      plain Body.devices_page u (Pages.render_devices_page s u) (render_devices_page-IsSame s u)
  handle-Good Route.is_online r u =
      let key = r.form_value (codes "public_key") in
      plain Body.active u (Wireguard.handle_is_online s key) (handle_is_online-IsSame s key)
  handle-Good Route.deploy_result r u =
      let job = r.query (codes "jobID") in
      plain Body.deployed u (InstanceHandlers.handle_deploy_result s job)
        (handle_deploy_result-IsSame s job)
  handle-Good Route.stop_result r u =
      let job = r.query (codes "jobID") in
      plain Body.polled u (InstanceHandlers.stop_result s job) (stop_result-IsSame s job)
  handle-Good Route.kill_result r u =
      let job = r.query (codes "jobID") in
      plain Body.polled u (InstanceHandlers.kill_result s job) (kill_result-IsSame s job)
  handle-Good Route.add_user_domain r u =
      let name = r.form_value (codes "domain_name") in
      let port = r.form_value (codes "port") in
      let m = Publish.add_user_domain s u.id name port (atoi port) in
      λ w g.
        worked_on-Good s k a r.parsed (sends s a Body.domain u m) w
          (plain Body.domain u m (publish_domain-IsSame s u.id name port (atoi port)) w g)
  handle-Good Route.remove_user_domain r u =
      let name = r.form_value (codes "domain_name") in
      let m = Publish.remove_user_domain s u.id name in
      λ w g.
        worked_on-Good s k a r.parsed (sends s a (λ _. Body.empty) u m) w
          (plain (λ _. Body.empty) u m (unpublish_domain-IsSame s u.id name) w g)
  handle-Good Route.render_services_page r u =
      plain Body.services_page u (Pages.render_services_page s u) (render_services_page-IsSame s u)
  handle-Good Route.render_pg_users_page r u =
      plain Body.pg_users_page u (Pages.render_pg_users_page s u) (render_pg_users_page-IsSame s u)
  handle-Good Route.render_pg_databases_page r u =
      let pid = r.query (codes "pid") in
      let owner = r.query (codes "owner") in
      plain Body.pg_databases_page u (Pages.render_pg_databases_page s u pid owner)
        (render_pg_databases_page-IsSame s u pid owner)
  handle-Good Route.render_instance_page r u =
      plain Body.instance_page u (Pages.render_instance_page s u) (render_instance_page-IsSame s u)
  handle-Good Route.render_publish_page r u =
      plain Body.publish_page u (Pages.render_publish_page s u) (render_publish_page-IsSame s u)
  handle-Good Route.home_handler r u =
      plain Body.home_page u (Pages.home_handler s u) (home_handler-IsSame s u)
  handle-Good Route.create_user r u =
      sends-Good s k a (λ _. Body.empty) u (AuthHandlers.create_user s u (user_of r))
        (create_user_handler-Carries s k u (user_of r))
  handle-Good Route.verify_user r u =
      sends-Good s k a (λ _. Body.empty) u (AuthHandlers.verify_user s (r.query (codes "token")))
        (verify_user_handler-Carries s k (r.query (codes "token")))
  handle-Good Route.login_user r u =
      let name = r.form_value (codes "user_name") in
      let password = r.form_value (codes "password") in
      λ w g.
        with_session-Good s k a (AuthHandlers.login s u name password) w
          (login-Good s k u name password w g)
  handle-Good Route.render_register_page r u =
      plain (λ _. Body.public_page) u (Pages.render_public_page s u) (render_public_page-IsSame s u)
  handle-Good Route.render_sign_in_page r u =
      plain (λ _. Body.public_page) u (Pages.render_public_page s u) (render_public_page-IsSame s u)
  handle-Good Route.login_tunnel_user r u =
      let name = r.form_value (codes "user_name") in
      let password = r.form_value (codes "password") in
      plain Body.text u (login_tunnel_user s r.parsed name password)
        (login_tunnel_user-IsSame s r.parsed name password)
