-- ===== src/Routes/Tables/Handlers.antt =====
-- The handlers that leave the tables of users, devices, roles and instances alone.
use kws.Prelude.{ℕ, Bool, true, false, Text, Option, Option-cases, inl, inr, arith}
use kws.Prelude.Int.{ℤ, pos, negsuc}
use kws.World.{WebInstance, Result, ok, err, attempt, ⊤, ◌>>=◌, Services, call}
use kws.Auth.Handlers as AuthHandlers
use kws.Auth.Handlers.{Session}
use kws.Auth.Tunnels.{login_tunnel_user}
use kws.InstanceHandlers
use kws.InstanceHandlers.{Form}
use kws.Queue.{Mq}
use kws.Wireguard.{is_online, handle_is_online}
use kws.Publish
use kws.Postgres.{PgServiceUser}
use kws.Postgres.Handlers as PgHandlers
use kws.TunnelHandlers
use kws.Tunnels
use kws.Nginx.{remove_conf, reload_nginx_conf}
use kws.Queue.{instance_message, tunnel_message, push_message_instance}
use kws.Results.{get_deploy_result}
use kws.Untouched.{IsSame, answer-IsSame}
use kws.Untouched.{
  add_user_domain-IsSame, remove_domain-IsSame, add_new_conf-IsSame, remove_conf-IsSame,
  reload_nginx_conf-IsSame, get_ip_from_uid-IsSame, get_deploy_result-IsSame,
  get_stop_result-IsSame, get_kill_result-IsSame, add_database-IsSame, remove_database-IsSame,
  create_database-IsSame, drop_database-IsSame, push_message_instance-IsSame, destroy_tunnel-IsSame,
  get_domain_from_tunnel-IsSame, login_user-IsSame, set_tunnel_login-IsSame,
}

module _ (s : Services) where
  pub log_out_user-IsSame : (u : Session) → IsSame s (AuthHandlers.log_out_user s u)
  unfolding AuthHandlers.log_out_user
  log_out_user-IsSame u w = ground arith

  pub login-IsSame : (u : Session) (n p : Text) → IsSame s (AuthHandlers.login s u n p)
  unfolding AuthHandlers.login
  login-IsSame u n p w = grind (arith, login_user-IsSame)

  push-IsSame :
      (mq : Mq) (size : ℕ) (u : Session) (a : Text) (f : Form)
      → IsSame s (InstanceHandlers.push s mq size u a f)
  unfolding InstanceHandlers.push InstanceHandlers.generate_hashed_job_id
  push-IsSame mq size u a f w =
      let job = InstanceHandlers.generate_hashed_job_id s u.id u.user_name w.tick in
      let m = instance_message (InstanceHandlers.job_message u a f job) in
      answer-IsSame s (push_message_instance s mq size m) (InstanceHandlers.pushed s job a)
        (push_message_instance-IsSame s mq size m) (by_result job) w
    where
      by_result : (job : Text) (r : Result ⊤) → IsSame s (InstanceHandlers.pushed s job a r)
      by_result job (ok _) v = ground arith
      by_result job (err e) v = ground arith

  pub handle_instance_action-IsSame :
      (mq : Mq) (size : ℕ) (u : Session) (a : Text) (f : Option Form)
      → IsSame s (InstanceHandlers.handle_instance_action s mq size u a f)
  unfolding InstanceHandlers.handle_instance_action
  handle_instance_action-IsSame mq size u a f w =
      elim (Option-cases (InstanceHandlers.collect a f)) [
        | inl e ↦ rw (e, InstanceHandlers.handle_instance_action) (ground arith)
        | inr (g, collected) ↦
            rw (collected, InstanceHandlers.handle_instance_action) (push-IsSame mq size u a g w)
      ]

  pub handle_deploy_result-IsSame :
      (j : Text) → IsSame s (InstanceHandlers.handle_deploy_result s j)
  unfolding InstanceHandlers.handle_deploy_result
  handle_deploy_result-IsSame j =
      answer-IsSame s (get_deploy_result s j) (InstanceHandlers.polled_deploy s)
        (get_deploy_result-IsSame s j) by_result
    where
      by_result :
          (r : Result (Bool × Option WebInstance)) → IsSame s (InstanceHandlers.polled_deploy s r)
      by_result (ok (b, i)) v = ground arith
      by_result (err e) v = ground arith

  pub stop_result-IsSame : (j : Text) → IsSame s (InstanceHandlers.stop_result s j)
  unfolding InstanceHandlers.handle_sk_result
  stop_result-IsSame j w = grind (arith, get_stop_result-IsSame)

  pub kill_result-IsSame : (j : Text) → IsSame s (InstanceHandlers.kill_result s j)
  unfolding InstanceHandlers.handle_sk_result
  kill_result-IsSame j w = grind (arith, get_kill_result-IsSame)

  pub is_online-IsSame : (k : Text) → IsSame s (is_online s k)
  unfolding is_online
  is_online-IsSame k w = ground arith

  pub handle_is_online-IsSame : (k : Text) → IsSame s (handle_is_online s k)
  unfolding handle_is_online
  handle_is_online-IsSame k w = grind (arith, is_online-IsSame)

  pub publish_domain-IsSame :
      (uid : ℕ) (d t : Text) (p : Option ℤ) → IsSame s (Publish.add_user_domain s uid d t p)
  unfolding Publish.add_user_domain
  publish_domain-IsSame uid d t p w = grind (
    arith, add_user_domain-IsSame, add_new_conf-IsSame, reload_nginx_conf-IsSame,
    get_ip_from_uid-IsSame,
  )

  pub unpublish_domain-IsSame : (uid : ℕ) (d : Text) → IsSame s (Publish.remove_user_domain s uid d)
  unfolding Publish.remove_user_domain
  unpublish_domain-IsSame uid d w =
      grind (arith, remove_domain-IsSame, remove_conf-IsSame, reload_nginx_conf-IsSame)

  pub create_pg_database-IsSame :
      (b : Bool) (u : PgServiceUser) (n : Text) → IsSame s (PgHandlers.create_pg_database s b u n)
  unfolding PgHandlers.create_pg_database
  create_pg_database-IsSame b u n w =
      grind (arith, add_database-IsSame, create_database-IsSame, remove_database-IsSame)

  pub remove_pg_database-IsSame :
      (b : Bool) (u : PgServiceUser) (n : Text) → IsSame s (PgHandlers.remove_pg_database s b u n)
  unfolding PgHandlers.remove_pg_database
  remove_pg_database-IsSame b u n w = grind (arith, drop_database-IsSame, remove_database-IsSame)

  pub login_tunnel_user-IsSame : (b : Bool) (n p : Text) → IsSame s (login_tunnel_user s b n p)
  unfolding login_tunnel_user call
  login_tunnel_user-IsSame b n p w = grind (arith, login_user-IsSame, set_tunnel_login-IsSame)

  pushed-IsSame : (r : Result ⊤) → IsSame s (TunnelHandlers.pushed s r)
  pushed-IsSame (ok _) w = ground arith
  pushed-IsSame (err e) w = ground arith

  pub create_tunnel_handler-IsSame :
      (mq : Mq) (size : ℕ) (b : Bool) (uid : ℤ) (d c n : Text)
      → IsSame s (TunnelHandlers.create_tunnel s mq size b uid d c n)
  unfolding TunnelHandlers.create_tunnel
  create_tunnel_handler-IsSame mq size false uid d c n w = ground arith
  create_tunnel_handler-IsSame mq size true uid d c n w =
      elim (Option-cases (TunnelHandlers.parse_bool c)) [
        | inl e ↦ rw (e, TunnelHandlers.create_tunnel) (ground arith)
        | inr (b, parsed) ↦
            rw (parsed, TunnelHandlers.create_tunnel)
              (let m = tunnel_message (record { domain = d; is_custom = b; name = n; uid = uid }) in
                answer-IsSame s (push_message_instance s mq size m) (TunnelHandlers.pushed s)
                  (push_message_instance-IsSame s mq size m) pushed-IsSame w)
      ]

  destroy-IsSame : (n : Text) (uid : ℤ) → IsSame s (TunnelHandlers.destroy s n uid)
  unfolding call
  destroy-IsSame n (pos uid) w = destroy_tunnel-IsSame s n uid w
  destroy-IsSame n (negsuc k) w = ground arith

  remove_tunnel_conf-IsSame : (r : Result Text) → IsSame s (TunnelHandlers.remove_tunnel_conf s r)
  remove_tunnel_conf-IsSame (err e) w = ground arith
  remove_tunnel_conf-IsSame (ok d) w =
      answer-IsSame s (remove_conf s d)
        (λ _. attempt (reload_nginx_conf s) >>= TunnelHandlers.pushed s) (remove_conf-IsSame s d)
        (λ _.
          answer-IsSame s (reload_nginx_conf s) (TunnelHandlers.pushed s)
            (reload_nginx_conf-IsSame s) pushed-IsSame)
        w

  pub destroy_tunnel_handler-IsSame :
      (b : Bool) (uid : ℤ) (n : Text) → IsSame s (TunnelHandlers.destroy_tunnel s b uid n)
  unfolding TunnelHandlers.destroy_tunnel
  destroy_tunnel_handler-IsSame false uid n w = ground arith
  destroy_tunnel_handler-IsSame true uid n w =
      answer-IsSame s (TunnelHandlers.destroy s n uid) (TunnelHandlers.after_destroy s n)
        (destroy-IsSame n uid) by_result w
    where
      by_result : (r : Result ⊤) → IsSame s (TunnelHandlers.after_destroy s n r)
      by_result (err e) v = ground arith
      by_result (ok _) v =
          answer-IsSame s (Tunnels.get_domain_from_tunnel s n 0)
            (TunnelHandlers.remove_tunnel_conf s) (get_domain_from_tunnel-IsSame s n 0)
            remove_tunnel_conf-IsSame v
