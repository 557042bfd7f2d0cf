-- ===== src/Start/Channels.antt =====
-- The channels that the start leaves in the pool.
use kws.Prelude.{
  ℕ, zero, suc, ◌+◌, ◌≤◌, ◌≡◌, refl, sym, ap, ◌∙◌, Bool, true, false, Text, List, [], ◌∷◌, Option,
  none, some, length, length-append, All, arith, if◌then◌else◌,
}
use mathlib.Core.Path.{subst}
use kws.World.{
  World, Error, M, Result, ok, err, modify, pure, try, is_crash, attempted, ⊤, ◌>>=◌, ◌>>◌,
  Services, call,
}
use kws.World.Frame.{Keeps, Keeps-bind, Ended, Ends, Ends-bind}
use kws.Queue.{get_free_channel, push_channel, declare_queue, create_channel_pool}
use kws.Queue.{connect_to_mq}
use kws.Lxd.Boot.{pull_ubuntu_image, create_bridge_network, create_dir_storage_pool}
use kws.Wireguard.Interface.{create_interface_wg_main, configure_wireguard, set_forward_bit_to_one}
use kws.Start.{
  connections, stores, or_exit, fatal, fatal_all, declare, consume_on, create_consumer, queues,
  open_pool, start, pool_size,
}

module _ (s : Services) where
  abbrev pub Free : ℕ → World s.Memory → Type 0
  Free n w = length w.pool ≡ n

  abbrev KeepsPool : {A : Type 0} → M s.Memory A → Type 0
  KeepsPool = Keeps (λ w v. v.pool ≡ w.pool)

  -- A fatal step ends with the value, or the process ends.
  fatal-Ends :
      {A : Type 0} (m : M s.Memory A) (w : World s.Memory) (Q : A → World s.Memory → Type 0)
      → ((a : A) (v : World s.Memory) → m w ≡ (ok a, v) → Q a v)
      → Ends (fatal s m) w Q
  fatal-Ends {A} m w Q h = by_result (m w) refl
    where
      by_crash :
          (b : Bool) (e : _) (v : World s.Memory)
          → is_crash e ≡ b
          → Ended Q (
              ((λ _.
                    if◌then◌else◌ {A = Result (Result A) × World s.Memory} b
                      (err e, v)
                      (ok (err e), v))
                  >>= or_exit s)
                w)
      by_crash true e v c = c
      by_crash false e v c = refl

      by_result :
          (q : Result A × World s.Memory) → m w ≡ q → Ended Q (((λ _. attempted q) >>= or_exit s) w)
      by_result (ok a, v) e = h a v e
      by_result (err x, v) e = by_crash (is_crash x) x v refl

  -- Steps that leave the pool.
  fatal_all-Ends :
      (ms : List (M s.Memory ⊤)) (n : ℕ) (w : World s.Memory)
      → All KeepsPool ms
      → Free n w
      → Ends (fatal_all s ms) w (λ _ v. Free n v)
  fatal_all-Ends [] n w k f = f
  fatal_all-Ends (m ∷ ms) n w (k, ks) f =
      Ends-bind (fatal s m) (λ _. fatal_all s ms) w (λ _ v. Free n v) (λ _ v. Free n v)
        (fatal-Ends m w (λ _ v. Free n v)
          (λ a v e. sym (ap (λ q. length q.1.pool) e) ∙ ap length (k w) ∙ f))
        λ _ v g. fatal_all-Ends ms n v ks g

  create_channel_pool-Ends :
      (n : ℕ) (w : World s.Memory) → Ends (create_channel_pool s n) w (λ cs v. length cs ≡ n)
  unfolding create_channel_pool call
  create_channel_pool-Ends zero w = refl
  create_channel_pool-Ends (suc n) w =
      grind (arith, create_channel_pool-Ends n (record w { tick = w.tick + 1 + 1 }))

  get_free_channel-Ends :
      (n : ℕ) (w : World s.Memory) → Free (suc n) w → Ends (get_free_channel s) w (λ _ v. Free n v)
  unfolding get_free_channel call
  get_free_channel-Ends n w f = ground arith

  declare_queue-Free :
      (n ch : ℕ) (w : World s.Memory)
      → Free n w
      → suc n ≤ pool_size
      → Free (suc n) (declare_queue s pool_size (some ch) w).1
  unfolding declare_queue push_channel call
  declare_queue-Free n ch w f few = ground (arith, length-append w.pool (ch ∷ []))

  declare_queue-Ends :
      (n : ℕ) (ch : Option ℕ) (w : World s.Memory)
      → Free n w
      → suc n ≤ pool_size
      → Ends (fatal s (declare_queue s pool_size ch)) w (λ _ v. Free (suc n) v)
  unfolding declare_queue
  declare_queue-Ends n none w f few = refl
  declare_queue-Ends n (some ch) w f few =
      fatal-Ends (declare_queue s pool_size (some ch)) w (λ _ v. Free (suc n) v)
        (λ a v e. sym (ap (λ q. length q.1.pool) e) ∙ declare_queue-Free n ch w f few)

  declare-Ends :
      (n : ℕ) (w : World s.Memory)
      → Free (suc n) w
      → suc n ≤ pool_size
      → Ends (declare s) w (λ _ v. Free (suc n) v)
  unfolding declare
  declare-Ends n w f few =
      Ends-bind (get_free_channel s) (λ ch. fatal s (declare_queue s pool_size ch)) w
        (λ _ v. Free n v) (λ _ v. Free (suc n) v) (get_free_channel-Ends n w f)
        λ ch v g. declare_queue-Ends n ch v g few

  consume_on-Ends :
      (n : ℕ) (ch : Option ℕ) (w : World s.Memory)
      → Free n w
      → Ends (fatal s (consume_on s ch)) w (λ _ v. Free n v)
  unfolding call
  consume_on-Ends n ch w f = ground arith

  create_consumer-Ends :
      (n : ℕ) (w : World s.Memory) → Free (suc n) w → Ends (create_consumer s) w (λ _ v. Free n v)
  unfolding create_consumer
  create_consumer-Ends n w f =
      Ends-bind (get_free_channel s) (λ ch. fatal s (consume_on s ch)) w (λ _ v. Free n v)
        (λ _ v. Free n v) (get_free_channel-Ends n w f) λ ch v g. consume_on-Ends n ch v g

  queues-Ends :
      (n : ℕ) (w : World s.Memory)
      → Free (suc n) w
      → suc n ≤ pool_size
      → Ends (queues s) w (λ _ v. Free n v)
  unfolding queues
  queues-Ends n w f few =
      Ends-bind (declare s) (λ _. declare s >> create_consumer s) w (λ _ v. Free (suc n) v)
        (λ _ v. Free n v) (declare-Ends n w f few)
        λ _ v g.
          Ends-bind (declare s) (λ _. create_consumer s) v (λ _ u. Free (suc n) u) (λ _ u. Free n u)
            (declare-Ends n v g few) λ _ u h. create_consumer-Ends n u h

  open_pool-Ends : (w : World s.Memory) → Ends (open_pool s) w (λ _ v. Free pool_size v)
  unfolding open_pool
  open_pool-Ends w =
      Ends-bind (fatal s (create_channel_pool s pool_size))
        (λ channels. modify (λ v. record v { pool = channels })) w (λ cs v. length cs ≡ pool_size)
        (λ _ v. Free pool_size v)
        (fatal-Ends (create_channel_pool s pool_size) w (λ cs v. length cs ≡ pool_size)
          (λ cs v e.
            subst (Ended (λ xs u. length xs ≡ pool_size)) e (create_channel_pool-Ends pool_size w)))
        λ cs v e. e

  connect_to_mq-Keeps : (attempts : ℕ) (last : Result ⊤) → KeepsPool (connect_to_mq s attempts last)
  unfolding connect_to_mq call
  connect_to_mq-Keeps zero last = λ w. ground arith
  connect_to_mq-Keeps (suc k) last =
      Keeps-bind (λ w v. v.pool ≡ w.pool) (λ u v w e f. f ∙ e) (try (call s))
        (λ dialed. elim dialed [ ok _ ↦ pure tt | err e ↦ connect_to_mq s k (err e) ])
        (λ w. ground arith) (by_result (λ e. connect_to_mq-Keeps k (err e)))
    where
      by_result :
          ((e : Error) → KeepsPool (connect_to_mq s k (err e)))
          → (r : Result ⊤)
          → KeepsPool
              (elim r as (λ x. M s.Memory ⊤) [ ok _ ↦ pure tt | err e ↦ connect_to_mq s k (err e) ])
      by_result h (ok _) = λ w. refl
      by_result h (err e) = h e

  connections-KeepsPool : All KeepsPool (connections s)
  unfolding call
  connections-KeepsPool = ((λ w. ground arith), (connect_to_mq-Keeps 10 (ok tt), tt))

  -- The steps after the connections.
  stores-KeepsPool : (key : Text) → All KeepsPool (stores s key)
  unfolding call pull_ubuntu_image create_bridge_network create_dir_storage_pool
      create_interface_wg_main configure_wireguard set_forward_bit_to_one
  stores-KeepsPool key = (
    (λ w. refl),
    (
      (λ w. refl),
      (
        (λ w. refl),
        (
          (λ w. refl),
          (
            (λ w. refl),
            (
              (λ w. ground arith),
              (
                (λ w. ground arith),
                (
                  (λ w. ground arith),
                  ((λ w. ground arith), ((λ w. ground arith), ((λ w. ground arith), tt))),
                ),
              ),
            ),
          ),
        ),
      ),
    ),
  )

  -- Unless it ends the process or waits, the start leaves thirty channels in the pool: the two
  -- consumers keep theirs, and those of the four declarations are given back.
  pub start-Ends : (key : Text) (w : World s.Memory) → Ends (start s key) w (λ _ v. Free 30 v)
  unfolding start
  start-Ends key w =
      Ends-bind (fatal_all s (connections s))
        (λ _. open_pool s >> (queues s >> (queues s >> fatal_all s (stores s key)))) w
        (λ _ v. Free (length w.pool) v) (λ _ v. Free 30 v)
        (fatal_all-Ends (connections s) (length w.pool) w connections-KeepsPool refl)
        λ _ v _.
          Ends-bind (open_pool s) (λ _. queues s >> (queues s >> fatal_all s (stores s key))) v
            (λ _ u. Free 32 u) (λ _ u. Free 30 u) (open_pool-Ends v)
            λ _ u f.
              Ends-bind (queues s) (λ _. queues s >> fatal_all s (stores s key)) u
                (λ _ x. Free 31 x) (λ _ x. Free 30 x)
                (queues-Ends 31 u (omega (arith, f)) (omega arith))
                λ _ x g.
                  Ends-bind (queues s) (λ _. fatal_all s (stores s key)) x (λ _ y. Free 30 y)
                    (λ _ y. Free 30 y) (queues-Ends 30 x (omega (arith, g)) (omega arith))
                    λ _ y h. fatal_all-Ends (stores s key) 30 y (stores-KeepsPool key) h
