-- ===== src/TunnelHandlers/Deliveries.antt =====
-- How a delivery of the tunnels' queue is answered.
use kws.Prelude.{
  ℕ, zero, suc, ◌≤◌, ◌≡◌, refl, ap, ◌⊎◌, inl, inr, Bool, true, false, Text, List, [], ◌∷◌, ◌++◌,
  select, Option, none, some, arith,
}
use kws.Prelude.Int.{ℤ, pos, negsuc}
use kws.World.{
  World, Event, acked, nacked, TunnelMessage, Result, ok, err, pure, attempt, ⊤, ◌>>=◌, ◌>>◌,
  Services, call, note,
}
use kws.World.Frame.{Ends, Ends-bind}
use kws.Untouched.{is_answer}
use kws.Nginx.{domain_template, add_new_conf, remove_conf, reload_nginx_conf}
use kws.Tunnels
use kws.TunnelHandlers.{
  Value, of_int, of_int32, of_int64, of_text, other_value, Headers, table, is_three,
  increment_retry_counter, retry, roll_back, unless_ok, store_tunnel, store_stage, reload_stage,
  create_tunnel_utility, consume_message_tunnel,
}

abbrev pub nacks : ℕ → List Event → List Event
nacks zero es = es
nacks (suc k) es = nacked ∷ nacks k es

-- A header as RabbitMQ's client decodes it: integers are int32 or int64.
abbrev pub is_go_int : Option Value → Bool
is_go_int (some (of_int n)) = true
is_go_int _ = false

abbrev pub IsDecoded : Headers → Type 0
IsDecoded h = (v : Option Value) × (h ≡ table v) × (is_go_int v ≡ false)

decoded_is_no_three : (v : Option Value) → is_go_int v ≡ false → is_three (table v) ≡ false
unfolding is_three
decoded_is_no_three none e = refl
decoded_is_no_three (some (of_int (pos n))) e = cc
decoded_is_no_three (some (of_int (negsuc n))) e = cc
decoded_is_no_three (some (of_int32 n)) e = refl
decoded_is_no_three (some (of_int64 n)) e = refl
decoded_is_no_three (some (of_text t)) e = refl
decoded_is_no_three (some other_value) e = refl

module _ (s : Services) where
  -- So many Nacks more, and the tunnels as before.
  abbrev pub Nacked : ℕ → World s.Memory → World s.Memory → Type 0
  Nacked k w v =
      (v.tunnels ≡ w.tunnels) × (select is_answer v.log ≡ nacks k (select is_answer w.log))

  -- The steps, from a state with so many Nacks since another one.
  add_new_conf-Ends :
      (d : Text) (k : ℕ) (w v : World s.Memory)
      → Nacked k w v
      → Ends
          (attempt (add_new_conf s domain_template (record { domain = d; ip = []; port = [] })))
          v
          (λ r u. Nacked k w u)
  unfolding add_new_conf call
  add_new_conf-Ends d k w v h = ground arith

  remove_conf-Ends :
      (d : Text) (k : ℕ) (w v : World s.Memory)
      → Nacked k w v
      → Ends (attempt (remove_conf s d)) v (λ r u. Nacked k w u)
  unfolding remove_conf call
  remove_conf-Ends d k w v h = ground arith

  -- A reload that fails ends the process.
  reload-Ends :
      (k : ℕ) (w v : World s.Memory)
      → Nacked k w v
      → Ends (attempt (reload_nginx_conf s)) v (λ r u. (r ≡ ok tt) × Nacked k w u)
  unfolding reload_nginx_conf call
  reload-Ends k w v h = ground arith

  abbrev IsTable : Headers → Type 0
  IsTable h = (x : Option Value) × (h ≡ table x)

  retry-Ends :
      (k : ℕ) (h : Headers) (w v : World s.Memory)
      → IsTable h
      → Nacked k w v
      → Ends (retry s h) v (λ h' u. IsTable h' × Nacked (suc k) w u)
  unfolding retry increment_retry_counter
  retry-Ends k h w v (x, e) (i, j) = rw e ((_, refl), (i, ap (λ es. nacked ∷ es) j))

  roll_back-Ends :
      (d : Text) (k : ℕ) (h : Headers) (w v : World s.Memory)
      → IsTable h
      → Nacked k w v
      → Ends (roll_back s d h) v (λ h' u. IsTable h' × Nacked (suc k) w u)
  unfolding retry
  roll_back-Ends d k h w v t n =
      Ends-bind (attempt (remove_conf s d)) (λ _. attempt (reload_nginx_conf s) >> retry s h) v
        (λ r u. Nacked k w u) _ (remove_conf-Ends d k w v n)
        λ r u n1.
          Ends-bind (attempt (reload_nginx_conf s)) (λ _. retry s h) u
            (λ r u. (r ≡ ok tt) × Nacked k w u) _ (reload-Ends k w u n1)
            λ q x (e, n2). retry-Ends k h w x t n2

  -- The row is there, or the table is as before.
  abbrev pub Stored : TunnelMessage → ℕ → Result ⊤ → World s.Memory → World s.Memory → Type 0
  Stored m k (ok _) w v =
      (select is_answer v.log ≡ nacks k (select is_answer w.log))
      × ((uid : ℕ) × (m.uid ≡ pos uid)
          × (v.tunnels
              ≡ w.tunnels
                ++ record {
                  user_id = uid;
                  tunnel_name = m.name;
                  domain = m.domain;
                  is_custom = m.is_custom;
                }
                  ∷ []))
  Stored m k (err e) w v = Nacked k w v

  store_tunnel-Ends :
      (m : TunnelMessage) (uid : ℤ) (k : ℕ) (w v : World s.Memory)
      → m.uid ≡ uid
      → Nacked k w v
      → Ends (attempt (store_tunnel s m uid)) v (λ r u. Stored m k r w u)
  unfolding store_tunnel Tunnels.create_tunnel call
  store_tunnel-Ends m (pos uid) k w v e h = ground arith
  store_tunnel-Ends m (negsuc n) k w v e h = ground arith

  -- How the work on a message ends: the Ack is the last answer. A row that is missing has made
  -- for a Nack before it.
  abbrev pub Answered : TunnelMessage → World s.Memory → World s.Memory → Type 0
  Answered m w v =
      (k : ℕ) × (select is_answer v.log ≡ acked ∷ nacks k (select is_answer w.log))
      × (((k ≤ 1)
            × ((uid : ℕ) × (m.uid ≡ pos uid)
                × (v.tunnels
                    ≡ w.tunnels
                      ++ record {
                        user_id = uid;
                        tunnel_name = m.name;
                        domain = m.domain;
                        is_custom = m.is_custom;
                      }
                        ∷ [])))
          ⊎ ((1 ≤ k) × (k ≤ 2) × (v.tunnels ≡ w.tunnels)))

  store_stage-Answered :
      (m : TunnelMessage) (k : ℕ) (h : Headers) (w v : World s.Memory)
      → k ≤ 1
      → IsTable h
      → Nacked k w v
      → Ends (store_stage s m h) v (λ h' u. Answered m w u)
  unfolding store_stage
  store_stage-Answered m k h w v few t n =
      Ends-bind (attempt (store_tunnel s m m.uid))
        (λ r. unless_ok s r (roll_back s m.domain h) h >>= λ h3. (note acked >>= λ _. pure h3)) v
        (λ r u. Stored m k r w u) (λ h' u. Answered m w u) (store_tunnel-Ends m m.uid k w v refl n)
        by_result
    where
      by_result :
          (r : Result ⊤) (u : World s.Memory)
          → Stored m k r w u
          → Ends
              (unless_ok s r (roll_back s m.domain h) h >>= λ h3. (note acked >>= λ _. pure h3))
              u
              (λ h' x. Answered m w x)
      by_result (ok _) u (a, row) = (k, ap (λ es. acked ∷ es) a, inl (few, row))
      by_result (err e) u n1 =
          Ends-bind (roll_back s m.domain h) (λ h3. note acked >>= λ _. pure h3) u
            (λ h' x. IsTable h' × Nacked (suc k) w x) (λ h' x. Answered m w x)
            (roll_back-Ends m.domain k h w u t n1)
            λ h3 x (t3, (same, a)).
              (suc k, ap (λ es. acked ∷ es) a, inr (omega arith, omega (arith, few), same))

  -- By whether the conf was written; the reload goes through or ends the process.
  reload_stage-Answered :
      (m : TunnelMessage) (k : ℕ) (h : Headers) (w v : World s.Memory)
      → k ≤ 1
      → IsTable h
      → Nacked k w v
      → Ends (reload_stage s m h) v (λ h' u. Answered m w u)
  unfolding reload_stage
  reload_stage-Answered m k h w v few t n =
      Ends-bind (attempt (reload_nginx_conf s))
        (λ r. unless_ok s r (roll_back s m.domain h) h >>= λ h2. store_stage s m h2) v
        (λ r u. (r ≡ ok tt) × Nacked k w u) _ (reload-Ends k w v n)
        λ r u (e, n1). rw e (store_stage-Answered m k h w u few t n1)

  create_tunnel_utility-Answered :
      (m : TunnelMessage) (h : Headers) (w : World s.Memory)
      → IsTable h
      → Ends (create_tunnel_utility s m h) w (λ h' u. Answered m w u)
  unfolding create_tunnel_utility
  create_tunnel_utility-Answered m h w t =
      Ends-bind
        (attempt
          (add_new_conf s domain_template (record { domain = m.domain; ip = []; port = [] })))
        (λ r. unless_ok s r (retry s h) h >>= λ h1. reload_stage s m h1) w (λ r u. Nacked 0 w u) _
        (add_new_conf-Ends m.domain 0 w w (refl, refl)) by_result
    where
      by_result :
          (r : Result ⊤) (u : World s.Memory)
          → Nacked 0 w u
          → Ends
              (unless_ok s r (retry s h) h >>= λ h1. reload_stage s m h1)
              u
              (λ h' x. Answered m w x)
      by_result (ok _) u n = reload_stage-Answered m 0 h w u (omega arith) t n
      by_result (err e) u n =
          Ends-bind (retry s h) (λ h1. reload_stage s m h1) u (λ h' x. IsTable h' × Nacked 1 w x)
            (λ h' x. Answered m w x) (retry-Ends 0 h w u t n)
            λ h1 x (t1, n1). reload_stage-Answered m 1 h1 w x (omega arith) t1 n1

  -- A delivery of the tunnels' queue whose counter is no Go int is acknowledged in the end,
  -- whatever the counter says, unless it ends the process. Before the Ack come up to two Nacks:
  -- at most one if the tunnel's row was added, at least one if the table is as before.
  pub consume_message_tunnel-Answered :
      (m : TunnelMessage) (h : Headers) (w : World s.Memory)
      → IsDecoded h
      → Ends (consume_message_tunnel s m h) w (λ h' v. Answered m w v)
  unfolding consume_message_tunnel
  consume_message_tunnel-Answered m h w (x, e, other) =
      rw (e, decoded_is_no_three x other) (create_tunnel_utility-Answered m (table x) w (x, refl))
