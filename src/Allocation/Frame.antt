-- ===== src/Allocation/Frame.antt =====
-- What the retry loop leaves alone: all that its INSERT leaves alone, and the clock does not touch.
use kws.Prelude.{ℕ, zero, suc, ◌+◌, Option, Bool, true, false, if◌then◌else◌}
use kws.World.{
  World, M, Result, ok, err, host_exhaustion, pure, raise, gets, try, ⊤, ◌>>=◌, Services, call,
}
use kws.World.Frame.{Keeps, Keeps-bind}
use kws.Allocation.{
  Round, is_conflict, next_ip, over_limit, settle, closure, insert_after, commit_after, transact,
  after_round, allocate_loop,
}

module _ (s : Services) (highest : World s.Memory → Option ℕ) (insert : ℕ → M s.Memory ⊤)
    (limit : ℕ) (R : World s.Memory → World s.Memory → Type 0)
    (R-trans : (u v w : World s.Memory) → R u v → R v w → R u w)
    (R-tick : (w : World s.Memory) (t : ℕ) → R w (record w { tick = t })) where
  call-Keeps : Keeps R (call s)
  unfolding call
  call-Keeps w = R-tick w (w.tick + 1)

  settle-Keeps :
      (w : World s.Memory) (q : Result Round × World s.Memory)
      → R w q.1
      → R w (settle s highest insert limit w q).1
  settle-Keeps w (ok (ip, ok _), v) h = h
  settle-Keeps w (ok (ip, err e), v) h = R-tick w v.tick
  settle-Keeps w (err e, v) h = R-tick w v.tick

  commit_after-Keeps : (ip : ℕ) (r : Result ⊤) → Keeps R (commit_after s highest insert limit ip r)
  unfolding commit_after call
  commit_after-Keeps ip (err e) w = R-tick w w.tick
  commit_after-Keeps ip (ok _) w = R-tick w (w.tick + 1)

  module _ (insert-Keeps : (ip : ℕ) → Keeps R (insert ip)) where
    insert_after-Keeps :
        (ip : ℕ) (top : Option ℕ) (r : Result ⊤)
        → Keeps R (insert_after s highest insert limit ip top r)
    unfolding insert_after
    insert_after-Keeps ip top (err e) w = R-tick w w.tick
    insert_after-Keeps ip top (ok _) w = branch (over_limit top limit)
      where
        branch :
            (b : Bool)
            → R w
                (if◌then◌else◌ {A = M s.Memory Round} b
                  (pure (next_ip top, err host_exhaustion))
                  (try (insert (next_ip top)) >>= commit_after s highest insert limit (next_ip top))
                  w).1
        branch true = R-tick w w.tick
        branch false =
            Keeps-bind R R-trans (try (insert (next_ip top)))
              (commit_after s highest insert limit (next_ip top)) (insert-Keeps (next_ip top))
              (commit_after-Keeps (next_ip top)) w

    transact-Keeps : (ip : ℕ) → Keeps R (transact s highest insert limit ip)
    unfolding transact closure
    transact-Keeps ip w = settle-Keeps w (closure s highest insert limit ip w) (
        Keeps-bind R R-trans (try (call s))
          (λ selected. gets highest >>= λ top. insert_after s highest insert limit ip top selected)
          call-Keeps (λ r v. insert_after-Keeps ip (highest v) r v) w)

    after_round-Keeps :
        (again : ℕ → M s.Memory ℕ)
        → ((ip : ℕ) → Keeps R (again ip))
        → (round : Round) → Keeps R (after_round s highest insert limit again round)
    unfolding after_round
    after_round-Keeps again h (ip, ok _) w = R-tick w w.tick
    after_round-Keeps again h (ip, err e) w = branch (is_conflict e)
      where
        branch :
            (b : Bool)
            → R w ((elim b as (λ x. M s.Memory ℕ) [ true ↦ again ip | false ↦ raise e ]) w).1
        branch true = h ip w
        branch false = R-tick w w.tick

    pub loop-Keeps : (rounds ip : ℕ) → Keeps R (allocate_loop s highest insert limit rounds ip)
    unfolding allocate_loop
    loop-Keeps zero ip w = R-tick w w.tick
    loop-Keeps (suc rounds) ip w =
        Keeps-bind R R-trans (call s)
          (λ _. transact s highest insert limit ip >>= after_round s highest insert limit again)
          call-Keeps
          (λ _.
            Keeps-bind R R-trans (transact s highest insert limit ip)
              (after_round s highest insert limit again) (transact-Keeps ip)
              (after_round-Keeps again (loop-Keeps rounds)))
          w
      where
        again : ℕ → M s.Memory ℕ
        again = allocate_loop s highest insert limit rounds
