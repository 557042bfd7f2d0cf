-- ===== src/Routes/Tables/Tunnels.antt =====
-- A delivery of the queue of tunnels leaves these tables alone.
use kws.Prelude.{refl, Bool, true, false, Text, [], if◌then◌else◌, arith}
use kws.Prelude.Int.{ℤ, pos, negsuc}
use kws.World.{
  TunnelMessage, M, Result, ok, err, attempt, note, ⊤, ◌>>=◌, ◌>>◌, Services, acked, pure, call,
}
use kws.Nginx.{Template, domain_template, add_new_conf, remove_conf, reload_nginx_conf}
use kws.TunnelHandlers
use kws.TunnelHandlers.{Headers}
use kws.Untouched.{
  Rows, IsSame, IsRows, rows, rows_bind, rows_then, attempt-IsSame, add_new_conf-IsSame,
  remove_conf-IsSame, reload_nginx_conf-IsSame, create_tunnel-IsSame,
}

module _ (s : Services) where
  retry-IsRows : (h : Headers) → IsRows s (TunnelHandlers.retry s h)
  unfolding TunnelHandlers.retry
  retry-IsRows h w = ground arith

  store_tunnel-IsSame :
      (m : TunnelMessage) (uid : ℤ) → IsSame s (TunnelHandlers.store_tunnel s m uid)
  unfolding TunnelHandlers.store_tunnel call
  store_tunnel-IsSame m (pos uid) w = create_tunnel-IsSame s _ w
  store_tunnel-IsSame m (negsuc n) w = ground arith

  roll_back-IsRows : (d : Text) (h : Headers) → IsRows s (TunnelHandlers.roll_back s d h)
  unfolding TunnelHandlers.retry
  roll_back-IsRows d h =
      rows_then s (remove_conf s d) (attempt (reload_nginx_conf s) >> TunnelHandlers.retry s h)
        (remove_conf-IsSame s d)
        (rows_then s (reload_nginx_conf s) (TunnelHandlers.retry s h) (reload_nginx_conf-IsSame s)
          (retry-IsRows h))

  -- A stage of the work: an attempt, what its failure is followed by, and the rest.
  stage-IsRows :
      (m : M s.Memory ⊤) (recover : M s.Memory Headers) (h : Headers)
      (rest : Headers → M s.Memory Headers)
      → IsSame s m
      → IsRows s recover
      → ((h : Headers) → IsRows s (rest h))
      → IsRows s (attempt m >>= λ r. TunnelHandlers.unless_ok s r recover h >>= rest)
  stage-IsRows m recover h rest km kr kt =
      rows_bind s (attempt m) (λ r. TunnelHandlers.unless_ok s r recover h >>= rest)
        (rows s (attempt m) (attempt-IsSame s m km)) by_result
    where
      by_result : (r : Result ⊤) → IsRows s (TunnelHandlers.unless_ok s r recover h >>= rest)
      by_result (ok _) w = kt h w
      by_result (err e) w = rows_bind s recover rest kr kt w

  store_stage-IsRows :
      (m : TunnelMessage) (h : Headers) → IsRows s (TunnelHandlers.store_stage s m h)
  unfolding TunnelHandlers.store_stage
  store_stage-IsRows m h =
      stage-IsRows (TunnelHandlers.store_tunnel s m m.uid) (TunnelHandlers.roll_back s m.domain h) h
        (λ g. note acked >> pure g) (store_tunnel-IsSame m m.uid) (roll_back-IsRows m.domain h)
        (λ g w. (refl, refl, refl, refl))

  reload_stage-IsRows :
      (m : TunnelMessage) (h : Headers) → IsRows s (TunnelHandlers.reload_stage s m h)
  unfolding TunnelHandlers.reload_stage
  reload_stage-IsRows m h =
      stage-IsRows (reload_nginx_conf s) (TunnelHandlers.roll_back s m.domain h) h
        (TunnelHandlers.store_stage s m) (reload_nginx_conf-IsSame s) (roll_back-IsRows m.domain h)
        (store_stage-IsRows m)

  pub consume_message_tunnel-IsRows :
      (m : TunnelMessage) (h : Headers) → IsRows s (TunnelHandlers.consume_message_tunnel s m h)
  unfolding TunnelHandlers.consume_message_tunnel TunnelHandlers.create_tunnel_utility
  consume_message_tunnel-IsRows m h w = by_count (TunnelHandlers.is_three h)
    where
      conf : Template
      conf = record { domain = m.domain; ip = []; port = [] }

      by_count :
          (b : Bool)
          → Rows s w
              (if◌then◌else◌ {A = M s.Memory Headers} b
                (note acked >> pure h)
                (TunnelHandlers.create_tunnel_utility s m h)
                w).1
      by_count true = (refl, refl, refl, refl)
      by_count false =
          stage-IsRows (add_new_conf s domain_template conf) (TunnelHandlers.retry s h) h
            (TunnelHandlers.reload_stage s m) (add_new_conf-IsSame s domain_template conf)
            (retry-IsRows h) (reload_stage-IsRows m) w
