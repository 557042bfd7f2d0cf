-- ===== src/Queue/Laws.antt =====
-- What a message does to the pool of channels and to the queues.
use kws.Prelude.{
  ℕ, ◌+◌, ◌≤◌, ◌≡◌, refl, ◌⊎◌, inl, inr, true, false, [], ◌∷◌, Option, none, some, length,
  length-append, arith, List, Bool,
}
use kws.World.{
  World, Error, nil_dereference, waits_forever, Fault, to_error, Result, ok, err, ⊤, Services, call,
}
use kws.Queue.{
  Mq, on_channel, QueueMessage, route, push_channel, get_free_channel, push_message_instance,
  publish, replaced, taken,
}

module _ (s : Services) (mq : Mq) (size : ℕ) (message : QueueMessage) where
  -- Either the message is in its queue, or the queues are as before.
  abbrev pub Routed : World s.Memory → Result ⊤ × World s.Memory → Type 0
  Routed w (ok _, v) =
      (v.instance_queue ≡ (route s message w).instance_queue)
      × (v.tunnel_queue ≡ (route s message w).tunnel_queue)
  Routed w (err e, v) = (v.instance_queue ≡ w.instance_queue) × (v.tunnel_queue ≡ w.tunnel_queue)

  -- No channel is lost, but for one that could not be replaced.
  abbrev pub PoolKept : World s.Memory → Result ⊤ × World s.Memory → Type 0
  PoolKept w q =
      (length q.1.pool ≡ length w.pool)
      ⊎ ((q.0 ≡ err nil_dereference) × (length q.1.pool + 1 ≡ length w.pool))

  publish-PoolKept :
      (ch : Option ℕ) (w v : World s.Memory)
      → length v.pool + 1 ≡ length w.pool
      → length w.pool ≤ size
      → PoolKept w (publish s mq size message ch v)
  unfolding publish on_channel push_channel call route
  publish-PoolKept none w v e h = ground arith
  publish-PoolKept (some ch) w v e h = ground (arith, length-append v.pool (ch ∷ []))

  publish-Routed :
      (ch : Option ℕ) (w v : World s.Memory)
      → v.instance_queue ≡ w.instance_queue
      → v.tunnel_queue ≡ w.tunnel_queue
      → Routed w (publish s mq size message ch v)
  unfolding publish on_channel push_channel call route
  publish-Routed ch w v e f = ground arith

  -- A channel or the nil channel, and time has passed.
  replaced_runs :
      (b : Bool) (ch : ℕ) (w : World s.Memory)
      → (c : Option ℕ) × (n : ℕ) × (replaced s b ch w ≡ (ok c, record w { tick = n }))
  unfolding replaced call
  replaced_runs false ch w = (some ch, w.tick, refl)
  replaced_runs true ch w = by_fault (s.fault w.tick) refl
    where
      by_fault :
          (f : Option Fault)
          → s.fault w.tick ≡ f
          → (c : Option ℕ) × (n : ℕ) × (replaced s true ch w ≡ (ok c, record w { tick = n }))
      by_fault none e = (some (s.opened w.tick), w.tick + 1, grind (arith, e))
      by_fault (some f) e = (none, w.tick + 1, grind (arith, e))

  -- The call of the broker has no answer; nothing has been sent yet.
  abbrev Waiting : World s.Memory → Type 0
  Waiting w =
      (e : Error) × (push_message_instance s mq size message w
        ≡ (err e, record w { tick = w.tick + 1 }))

  -- A channel was taken, and the message is published on it.
  abbrev Publishing : World s.Memory → Type 0
  Publishing w =
      (c : Option ℕ) × (n : ℕ) × (ch : ℕ) × (rest : List ℕ) × (w.pool ≡ ch ∷ rest)
      × (push_message_instance s mq size message w
          ≡ publish s mq size message c (record w { tick = n; pool = rest }))

  push_runs : (w : World s.Memory) → Waiting w ⊎ Publishing w
  unfolding push_message_instance get_free_channel taken call
  push_runs w = by_cases (s.fault w.tick) w.pool refl refl
    where
      by_cases :
          (f : Option Fault) (pool : List ℕ)
          → s.fault w.tick ≡ f
          → w.pool ≡ pool
          → Waiting w ⊎ Publishing w
      by_cases (some f) pool e p = inl (to_error f, grind (arith, e))
      by_cases none [] e p = inl (waits_forever, grind (arith, e, p))
      by_cases none (ch ∷ rest) e p =
          let (c, n, q) =
            replaced_runs (s.is_closed (w.tick + 1) ch) ch
              (record w { tick = w.tick + 1; pool = rest }) in
          inr (c, n, ch, rest, p, grind (arith, e, p, q))

  -- If the pool holds no more channels than its size, it holds as many after a message has been
  -- pushed, whatever the calls of the services answer, or one less, and then the push ended in a
  -- nil dereference.
  pub push_message_instance-PoolKept :
      (w : World s.Memory)
      → length w.pool ≤ size
      → PoolKept w (push_message_instance s mq size message w)
  push_message_instance-PoolKept w h = elim (push_runs w) [
    | inl (e, q) ↦ rw q (inl refl)
    | inr (c, n, ch, rest, p, q) ↦
        rw q (publish-PoolKept c w (record w { tick = n; pool = rest }) (rw p (omega arith)) h)
  ]

  pub push_message_instance-Routed :
      (w : World s.Memory) → Routed w (push_message_instance s mq size message w)
  push_message_instance-Routed w = elim (push_runs w) [
    | inl (e, q) ↦ rw q (refl, refl)
    | inr (c, n, ch, rest, p, q) ↦
        rw q (publish-Routed c w (record w { tick = n; pool = rest }) refl refl)
  ]
