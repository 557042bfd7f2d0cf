-- ===== src/Routes.antt =====
-- The router, src/cmd/routes.go, with the handlers that it calls and its middlewares: what the program
-- answers to a request.
mod Table
pub mod Tables
pub mod Carried
pub mod History
pub mod Guarded
mod Requests
unfoldable pub use Table.*
unfoldable pub use Requests.*
use kws.Prelude.{ℕ, Bool, true, false, Text, codes, [], ◌∷◌, Option, none, some, if◌then◌else◌}
use kws.Prelude.Int.{ℤ}
use kws.World.{
  World, Error, nil_dereference, index_out_of_range, WebInstance, M, Result, ok, err, pure, ⊤,
  ◌>>=◌, Services,
}
use kws.Users.{User}
use kws.Auth.{atoi}
use kws.Auth.Handlers as AuthHandlers
use kws.Auth.Handlers.{Session, signin, is_authorized}
use kws.Auth.Tunnels.{login_tunnel_user, is_tunnel_user_authorized}
use kws.Address.{IpAllocator}
use kws.InstanceHandlers
use kws.InstanceHandlers.{
  InstanceResponse, Form, JobResponseDeploy, JobResponseSk, store_mq, handle_deploy_result,
}
use kws.Wireguard
use kws.Publish
use kws.Publish.{DomainResponse}
use kws.Postgres.{PgServiceUser}
use kws.Postgres.Handlers as PgHandlers
use kws.Pages
use kws.Pages.{
  Data, ServicesData, PgUserPageData, PgDatabase, InstancePage, PublishInstancePageData,
}
use kws.TunnelHandlers
use kws.Start.{pool_size, app_mq}
use kws.Http.{Response, refused, redirected, answered, bad_request, internal_server_error}

abbrev pub not_found_code : ℕ
not_found_code = 404

abbrev pub not_allowed_code : ℕ
not_allowed_code = 405

-- A panic, which the middleware Recoverer answers with 500.
abbrev pub is_panic : Error → Bool
is_panic nil_dereference = true
is_panic index_out_of_range = true
is_panic _ = false

module _ (s : Services) (a : IpAllocator) where
  abbrev pub Served : Type 0
  Served = M s.Memory (Response Body × Session)

  abbrev pub sends : {A : Type 0} → (A → Body) → Session → M s.Memory (Response A) → Served
  sends body session m = do r ← m; pure (reply body r, session)

  -- The 400 of a form that does not parse stands in front of what the handler goes on to answer.
  abbrev pub parsed_or : Bool → Response Body × Session → Response Body × Session
  parsed_or true answer = answer
  parsed_or false (r, session) = (refused bad_request, session)

  abbrev pub worked_on : Bool → Served → Served
  worked_on parsed m = do answer ← m; pure (parsed_or parsed answer)

  -- The uid that the middleware has put into the request's context.
  abbrev pub for_tunnel_user : Session → Request → (ℤ → M s.Memory (Response ⊤)) → Served
  for_tunnel_user session r handler =
      sends (λ _. empty) session (is_tunnel_user_authorized s r.secret handler)

  abbrev pub with_session : M s.Memory (Response ⊤ × Session) → Served
  with_session m = do (r, session) ← m; pure (reply (λ _. empty) r, session)

  unfoldable pub handle : Route → Request → Session → Served
  handle Route.create_tunnel r u = for_tunnel_user u r (λ uid.
      TunnelHandlers.create_tunnel s app_mq pool_size r.parsed uid (r.form_value (codes "domain"))
        (r.form_value (codes "is_custom")) (r.form_value (codes "name")))
  handle Route.destroy_tunnel r u =
      for_tunnel_user u r
        (λ uid. TunnelHandlers.destroy_tunnel s r.parsed uid (r.form_value (codes "name")))
  handle Route.log_out_user r u = with_session (AuthHandlers.log_out_user s u)
  handle Route.deploy r u = sends job u (InstanceHandlers.deploy s store_mq pool_size u (form_of r))
  handle Route.stop_instance r u =
      sends job u (InstanceHandlers.stop_instance s store_mq pool_size u)
  handle Route.delete_instance r u =
      sends job u (InstanceHandlers.delete_instance s store_mq pool_size u)
  handle Route.register_device r u =
      sends device u (Wireguard.register_device s a u.id (r.form_value (codes "public_key")))
  handle Route.remove_device r u =
      sends (λ _. empty) u (Wireguard.remove_device s a u.id (r.form_value (codes "public_key")))
  handle Route.create_pg_user r u =
      sends role u (PgHandlers.create_pg_user s r.parsed (role_of u r))
  handle Route.create_pg_database r u =
      sends (λ _. empty) u
        (PgHandlers.create_pg_database s r.parsed (role_of u r) (r.form_value (codes "db_name")))
  handle Route.remove_pg_user r u =
      sends (λ _. empty) u (PgHandlers.remove_pg_user s r.parsed (role_of u r))
  handle Route.remove_pg_database r u =
      sends (λ _. empty) u
        (PgHandlers.remove_pg_database s r.parsed (role_of u r) (r.form_value (codes "db_name")))
  handle Route.render_devices_page r u = sends devices_page u (Pages.render_devices_page s u)
  handle Route.is_online r u =
      sends active u (Wireguard.handle_is_online s (r.form_value (codes "public_key")))
  handle Route.deploy_result r u =
      sends deployed u (handle_deploy_result s (r.query (codes "jobID")))
  handle Route.stop_result r u =
      sends polled u (InstanceHandlers.stop_result s (r.query (codes "jobID")))
  handle Route.kill_result r u =
      sends polled u (InstanceHandlers.kill_result s (r.query (codes "jobID")))
  handle Route.add_user_domain r u = worked_on r.parsed (
      sends domain u (
        Publish.add_user_domain s u.id (r.form_value (codes "domain_name"))
          (r.form_value (codes "port")) (atoi (r.form_value (codes "port")))))
  handle Route.remove_user_domain r u = worked_on r.parsed (
      sends (λ _. empty) u (Publish.remove_user_domain s u.id (r.form_value (codes "domain_name"))))
  handle Route.render_services_page r u = sends services_page u (Pages.render_services_page s u)
  handle Route.render_pg_users_page r u = sends pg_users_page u (Pages.render_pg_users_page s u)
  handle Route.render_pg_databases_page r u =
      sends pg_databases_page u
        (Pages.render_pg_databases_page s u (r.query (codes "pid")) (r.query (codes "owner")))
  handle Route.render_instance_page r u = sends instance_page u (Pages.render_instance_page s u)
  handle Route.render_publish_page r u = sends publish_page u (Pages.render_publish_page s u)
  handle Route.home_handler r u = sends home_page u (Pages.home_handler s u)
  handle Route.create_user r u = sends (λ _. empty) u (AuthHandlers.create_user s u (user_of r))
  handle Route.verify_user r u =
      sends (λ _. empty) u (AuthHandlers.verify_user s (r.query (codes "token")))
  handle Route.login_user r u =
      with_session (
        AuthHandlers.login s u (r.form_value (codes "user_name")) (r.form_value (codes "password")))
  handle Route.render_register_page r u = sends (λ _. public_page) u (Pages.render_public_page s u)
  handle Route.render_sign_in_page r u = sends (λ _. public_page) u (Pages.render_public_page s u)
  handle Route.login_tunnel_user r u = sends text u (
      login_tunnel_user s r.parsed (r.form_value (codes "user_name"))
        (r.form_value (codes "password")))

  -- What the middleware IsAuthorized lets through.
  abbrev pub admitted : Session → Served → Response ⊤ → Served
  admitted u next (answered _) = next
  admitted u next (refused code) = pure (refused code, u)
  admitted u next (redirected place) = pure (redirected place, u)

  abbrev pub guarded : Session → Served → Served
  unfolding is_authorized
  guarded u next = do
    answer ← is_authorized s {A = ⊤} u (pure (answered tt))
    admitted u next answer

  abbrev pub missing : Session → Bool → Served
  missing u true = pure (refused not_allowed_code, u)
  missing u false = pure (refused not_found_code, u)

  unfoldable pub dispatch : Target → Request → Session → Served
  unfolding handle
  dispatch (found protected route) r u = guarded u (handle route r u)
  dispatch (found tunnel route) r u = handle route r u
  dispatch (found public route) r u = handle route r u
  dispatch (nothing_mounted other_method) r u = guarded u (missing u other_method)
  dispatch file r u = pure (answered (file_at r.path), u)
  dispatch not_found r u = missing u false
  dispatch not_allowed r u = missing u true

  abbrev pub recovered :
      Session
      → Result (Response Body × Session) × World s.Memory
      → Result (Response Body × Session) × World s.Memory
  recovered u (ok answer, w) = (ok answer, w)
  recovered u (err e, w) =
      if is_panic e then (ok (refused internal_server_error, u), w) else (err e, w)

  -- The answer to a request with the session that LoadAndSave has loaded, and the session that it saves.
  unfoldable pub serve : Request → Session → Served
  unfolding target dispatch
  serve r u w = recovered u (dispatch (target r.method r.path) r u w)
