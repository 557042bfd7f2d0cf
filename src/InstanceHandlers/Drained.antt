-- ===== src/InstanceHandlers/Drained.antt =====
-- What the handlers do with the queue's struct that the store is made with.
use kws.Prelude.{
  ℕ, zero, suc, ◌+◌, ◌≡◌, refl, ap, ◌∙◌, false, Text, List, [], ◌∷◌, Option, none, some, length,
  arith,
}
use kws.World.{World, nil_dereference, waits_forever, err, Services, call}
use kws.Queue.{push_message_instance, get_free_channel}
use kws.Auth.Handlers.{Session}
use kws.InstanceHandlers.{Form, store_mq, collect, push, handle_instance_action}

module _ (s : Services) (calm : (n : ℕ) → s.fault n ≡ none)
    (open_channels : (n c : ℕ) → s.is_closed n c ≡ false) (size : ℕ) (session : Session)
    (action : Text) (form : Option Form) (f : Form) (valid : collect action form ≡ some f) where
  -- One request.
  takes_channel :
      (c : ℕ) (rest : List ℕ) (w : World s.Memory)
      → w.pool ≡ c ∷ rest
      → handle_instance_action s store_mq size session action form w
        ≡ (err nil_dereference, record w { tick = w.tick + 1; pool = rest })
  unfolding handle_instance_action push push_message_instance get_free_channel call
  takes_channel c rest w e = grind (arith, valid, e, calm w.tick, open_channels (w.tick + 1) c)

  waits :
      (w : World s.Memory)
      → w.pool ≡ []
      → handle_instance_action s store_mq size session action form w
        ≡ (err waits_forever, record w { tick = w.tick + 1 })
  unfolding handle_instance_action push push_message_instance get_free_channel call
  waits w e = grind (arith, valid, e, calm w.tick)

  -- So many requests, one after the other.
  abbrev pub requests : ℕ → World s.Memory → World s.Memory
  requests zero w = w
  requests (suc n) w = requests n (handle_instance_action s store_mq size session action form w).1

  requests_drain :
      (cs : List ℕ) (w : World s.Memory)
      → w.pool ≡ cs
      → ((requests (length cs) w).pool ≡ [])
        × ((requests (length cs) w).instance_queue ≡ w.instance_queue)
  requests_drain [] w e = (e, refl)
  requests_drain (c ∷ rest) w e =
      let after = record w { tick = w.tick + 1; pool = rest } in
      let step = ap (λ q. requests (length rest) q.1) (takes_channel c rest w e) in
      let (empty, same) = requests_drain rest after refl in
      (ap (λ v. v.pool) step ∙ empty, ap (λ v. v.instance_queue) step ∙ same)

  -- If no call of a service fails, no channel is closed, and a request is not refused for its
  -- form, then with the queue's struct that NewStore makes, as many such requests as the pool has
  -- channels publish nothing, and the next one waits for a channel forever.
  pub requests_wait :
      (w : World s.Memory)
      → ((requests (length w.pool) w).instance_queue ≡ w.instance_queue)
        × ((handle_instance_action s store_mq size session action form
              (requests (length w.pool) w)).0
            ≡ err waits_forever)
  requests_wait w =
      let (empty, same) = requests_drain w.pool w refl in
      (same, ap (λ q. q.0) (waits (requests (length w.pool) w) empty))
