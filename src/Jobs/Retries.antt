-- ===== src/Jobs/Retries.antt =====
-- A job's message over its deliveries: the retry queue ends.
use kws.Prelude.{
  ℕ, zero, suc, ◌+◌, ◌≤◌, ◌≡◌, ◌⊎◌, inl, inr, false, Text, text_eq_refl, ◌∷◌, select, arith, ◌==◌,
}
use kws.World.{World, acked, nacked, Result, ok, err, ⊤, Services}
use kws.World.Frame.{GoesOn}
use kws.Address.{IpAllocator}
use kws.World.{Message}
use kws.Jobs.{consume}
use kws.Untouched.{is_answer}
use kws.Jobs.Requests.{IsAction, Settled, consume-Settled}

module _ (s : Services) (a : IpAllocator) where
  bounded :
      (m : Message) (j : Text) (w : World s.Memory) (r : Result ⊤ × World s.Memory)
      → Settled s a m w r
      → GoesOn r.0
      → w.retries j ≤ 3
      → w.retries m.job_id ≤ 3
      → r.1.retries j ≤ 3
  bounded m j w (ok _, v) (inl (log, e)) g h k = rw (e j) (ground arith)
  bounded m j w (ok _, v) (inr (log, few, e)) g h k = rw (e j) (ground arith)
  bounded m j w (err x, v) q g h k = cc

  -- If the retry counters of a job and of the delivered message's job are at most three, the
  -- first still is after a delivery with one of the three actions that does not crash.
  pub consume-bounded :
      (m : Message) (j : Text) (w : World s.Memory)
      → IsAction s a m.action
      → GoesOn (consume s a m w).0
      → w.retries j ≤ 3
      → w.retries m.job_id ≤ 3
      → (consume s a m w).1.retries j ≤ 3
  consume-bounded m j w action = bounded m j w (consume s a m w) (consume-Settled s a m w action)

  -- None of the next deliveries of the message crashes.
  abbrev pub Survives : ℕ → Message → World s.Memory → Type 0
  Survives zero m w = ⊤
  Survives (suc n) m w = GoesOn (consume s a m w).0 × Survives n m (consume s a m w).1

  -- One of the next deliveries is acknowledged, and those before it went to the retry queue.
  abbrev pub AckedWithin : ℕ → Message → World s.Memory → Type 0
  AckedWithin zero m w = ⊥
  AckedWithin (suc n) m w =
      (select is_answer (consume s a m w).1.log ≡ acked ∷ select is_answer w.log)
      ⊎ ((select is_answer (consume s a m w).1.log ≡ nacked ∷ select is_answer w.log)
          × AckedWithin n m (consume s a m w).1)

  -- One delivery, with what is known of those that are left once it went to the retry queue.
  one_delivery :
      (n : ℕ) (m : Message) (w : World s.Memory) (r : Result ⊤ × World s.Memory)
      → Settled s a m w r
      → GoesOn r.0
      → ((w.retries m.job_id == 3) ≡ false
          → r.1.retries m.job_id ≡ w.retries m.job_id + 1
          → AckedWithin n m r.1)
      → (select is_answer r.1.log ≡ acked ∷ select is_answer w.log)
        ⊎ ((select is_answer r.1.log ≡ nacked ∷ select is_answer w.log) × AckedWithin n m r.1)
  one_delivery n m w (ok _, v) (inl (log, e)) g h = inl log
  one_delivery n m w (ok _, v) (inr (log, few, e)) g h =
      inr (log, h few (grind (arith, e m.job_id, text_eq_refl m.job_id)))
  one_delivery n m w (err x, v) q g h = cc

  acked_within :
      (n : ℕ) (m : Message) (w : World s.Memory)
      → IsAction s a m.action
      → w.retries m.job_id + n ≡ 3
      → Survives (suc n) m w
      → AckedWithin (suc n) m w
  acked_within zero m w action e (alive, rest) =
      one_delivery zero m w (consume s a m w) (consume-Settled s a m w action) alive
        (λ few more. absurd (ground arith))
  acked_within (suc n) m w action e (alive, rest) =
      one_delivery (suc n) m w (consume s a m w) (consume-Settled s a m w action) alive
        (λ few more. acked_within n m (consume s a m w).1 action (omega (arith, more, e)) rest)

  -- A message with one of the three actions whose job has no counter yet is acknowledged at its
  -- fourth delivery at the latest, and was sent to the retry queue by those before, if none of
  -- the four deliveries crashes, that is, ends the process, panics or waits forever.
  pub AckedWithin-four :
      (m : Message) (w : World s.Memory)
      → IsAction s a m.action
      → w.retries m.job_id ≡ 0
      → Survives 4 m w
      → AckedWithin 4 m w
  AckedWithin-four m w action e alive = acked_within 3 m w action (omega (arith, e)) alive
