-- ===== src/Jobs/Broker/Ends.antt =====
-- Without new requests the queues of instances come to rest.
use kws.Prelude.{
  ℕ, ◌+◌, ◌-◌, ◌*◌, ◌≤◌, ◌≡◌, refl, sym, ◌⊎◌, inl, inr, true, false, Text, text_eq, text_eq_iff,
  text_eq_refl, List, [], ◌∷◌, ◌++◌, ◌==◌, select, length, length-append, All, Bool-cases, arith,
}
use mathlib.Core.List.{append_assoc}
use kws.World.{Error, is_crash, World, Message, acked, nacked, Result, ok, err, ⊤, Services}
use kws.World.Frame.{GoesOn}
use kws.Address.{IpAllocator}
use kws.Jobs.{consume}
use kws.Untouched.{is_answer}
use kws.Jobs.Requests.{IsAction, Settled, consume-Settled}
use kws.Jobs.Broker.{System, Step, acknowledged, sent_back, expired, Run, here, later}

-- Jobs of other names.
abbrev pub Apart : Text → List Message → Type 0
Apart job ms = All (λ m. text_eq m.job_id job ≡ false) ms

-- Every message is the only one of its job, as the ids are hashes of the time.
abbrev pub Distinct : List Message → Type 0
Distinct [] = Unit
Distinct (m ∷ ms) = Apart m.job_id ms × Distinct ms

module _ (s : Services) (a : IpAllocator) where
  -- A message that the program publishes, at most three times sent back.
  abbrev pub IsPending : World s.Memory → Message → Type 0
  IsPending w m = IsAction s a m.action × (w.retries m.job_id ≤ 3)

  abbrev pub IsFair : System s.Memory → Type 0
  IsFair x = All (IsPending x.world) (x.main ++ x.waiting) × Distinct (x.main ++ x.waiting)

  -- The steps that a message has left: two for each delivery.
  abbrev load : World s.Memory → List Message → ℕ
  load w [] = 0
  load w (m ∷ ms) = 2 * (4 - w.retries m.job_id) + load w ms

  abbrev measure : System s.Memory → ℕ
  measure x = load x.world (x.main ++ x.waiting) + length x.waiting

  -- What the delivery of a message does to the counters of the others: nothing.
  abbrev Aside : Text → World s.Memory → World s.Memory → Type 0
  Aside job w v = (j : Text) → text_eq j job ≡ false → v.retries j ≡ w.retries j

  acked-retries :
      (m : Message) (w : World s.Memory) (q : Result ⊤ × World s.Memory)
      → Settled s a m w q
      → GoesOn q.0
      → select is_answer q.1.log ≡ acked ∷ select is_answer w.log
      → Aside m.job_id w q.1
  acked-retries m w (ok _, v) (inl (log, e)) h k = λ j d. rw (e j) (rw d refl)
  acked-retries m w (ok _, v) (inr (log, few, e)) h k = cc
  acked-retries m w (err x, v) q h k = cc

  nacked-retries :
      (m : Message) (w : World s.Memory) (q : Result ⊤ × World s.Memory)
      → Settled s a m w q
      → GoesOn q.0
      → select is_answer q.1.log ≡ nacked ∷ select is_answer w.log
      → Aside m.job_id w q.1
        × ((w.retries m.job_id == 3) ≡ false)
        × (q.1.retries m.job_id ≡ w.retries m.job_id + 1)
  nacked-retries m w (ok _, v) (inl (log, e)) h k = cc
  nacked-retries m w (ok _, v) (inr (log, few, e)) h k =
      ((λ j d. rw (e j) (rw d refl)), few, rw (e m.job_id) (rw (text_eq_refl m.job_id) refl))
  nacked-retries m w (err x, v) q h k = cc

  load-Aside :
      (job : Text) (w v : World s.Memory) (ms : List Message)
      → Aside job w v
      → Apart job ms
      → load v ms ≡ load w ms
  load-Aside job w v [] h k = refl
  load-Aside job w v (m ∷ ms) h (k, ks) = omega (arith, h m.job_id k, load-Aside job w v ms h ks)

  IsPending-Aside :
      (job : Text) (w v : World s.Memory) (ms : List Message)
      → Aside job w v
      → Apart job ms
      → All (IsPending w) ms
      → All (IsPending v) ms
  IsPending-Aside job w v [] h k p = tt
  IsPending-Aside job w v (m ∷ ms) h (k, ks) ((action, few), ps) =
      ((action, omega (arith, h m.job_id k, few)), IsPending-Aside job w v ms h ks ps)

  load-last :
      (w : World s.Memory) (m : Message) (ms : List Message)
      → load w (ms ++ m ∷ []) ≡ load w ms + 2 * (4 - w.retries m.job_id)
  load-last w m [] = omega arith
  load-last w m (q ∷ ms) = omega (arith, load-last w m ms)

  IsPending-last :
      (w : World s.Memory) (m : Message) (ms : List Message)
      → All (IsPending w) ms
      → IsPending w m
      → All (IsPending w) (ms ++ m ∷ [])
  IsPending-last w m [] p h = (h, tt)
  IsPending-last w m (q ∷ ms) (p, ps) h = (p, IsPending-last w m ms ps h)

apart-sym : (i j : Text) → text_eq i j ≡ false → text_eq j i ≡ false
apart-sym i j h = elim (Bool-cases (text_eq j i)) [
  | inl e ↦ absurd (ground (arith, sym ((text_eq_iff j i).0 e), text_eq_refl i))
  | inr e ↦ e
]

Apart-last :
    (job : Text) (m : Message) (ms : List Message)
    → Apart job ms
    → text_eq m.job_id job ≡ false
    → Apart job (ms ++ m ∷ [])
Apart-last job m [] h k = (k, tt)
Apart-last job m (q ∷ ms) (h, hs) k = (h, Apart-last job m ms hs k)

Distinct-last :
    (m : Message) (ms : List Message) → Apart m.job_id ms → Distinct ms → Distinct (ms ++ m ∷ [])
Distinct-last m [] h d = (tt, tt)
Distinct-last m (q ∷ ms) (h, hs) (d, ds) =
    (Apart-last q.job_id m ms d (apart-sym q.job_id m.job_id h), Distinct-last m ms hs ds)

module _ (s : Services) (a : IpAllocator) where
  Step-IsFair :
      {x y : System s.Memory}
      → Step s a x y
      → IsFair s a x
      → IsFair s a y × (measure s a y + 1 ≤ measure s a x)
  Step-IsFair (acknowledged w m rest waiting alive log) (((action, few), ps), (h, d)) =
      let aside =
        acked-retries s a m w (consume s a m w) (consume-Settled s a m w action) alive log in
      (
        (IsPending-Aside s a m.job_id w (consume s a m w).1 (rest ++ waiting) aside h ps, d),
        omega (arith, few, load-Aside s a m.job_id w (consume s a m w).1 (rest ++ waiting) aside h),
      )
  Step-IsFair (sent_back w m rest waiting alive log) (((action, few), ps), (h, d)) =
      let (aside, less, more) =
        nacked-retries s a m w (consume s a m w) (consume-Settled s a m w action) alive log in
      rw (sym (append_assoc rest waiting (m ∷ []))) (
        (
          IsPending-last s a (consume s a m w).1 m (rest ++ waiting)
              (IsPending-Aside s a m.job_id w (consume s a m w).1 (rest ++ waiting) aside h ps)
              (action, ground (arith, more, few, less)),
          Distinct-last m (rest ++ waiting) h d,
        ),
        ground (
          arith,
          few,
          less,
          more,
          load-Aside s a m.job_id w (consume s a m w).1 (rest ++ waiting) aside h,
          load-last s a (consume s a m w).1 m (rest ++ waiting),
          length-append waiting (m ∷ []),
        ),
      )
  Step-IsFair (expired w m main rest) (ps, d) =
      rw (append_assoc main (m ∷ []) rest) ((ps, d), omega arith)

  Run-IsFair :
      {n : ℕ} {x y : System s.Memory}
      → Run s a n x y
      → IsFair s a x
      → IsFair s a y × (measure s a y + n ≤ measure s a x)
  Run-IsFair (here x) h = (h, omega arith)
  Run-IsFair (later st r) h =
      let (h1, less) = Step-IsFair st h in
      let (h2, rest) = Run-IsFair r h1 in (h2, omega (arith, less, rest))

  load_bound : (w : World s.Memory) (ms : List Message) → load s a w ms ≤ 8 * length ms
  load_bound w [] = omega arith
  load_bound w (m ∷ ms) = omega (arith, load_bound w ms)

  -- What can happen next: nothing is left, there is a step, or the next delivery crashes.
  abbrev pub Next : System s.Memory → Type 0
  Next x =
      ((x.main ≡ []) × (x.waiting ≡ []))
      ⊎ (((y : System s.Memory) × Step s a x y)
          ⊎ ((m : Message) × (rest : List Message) × (x.main ≡ m ∷ rest)
              × ((e : Error) × ((consume s a m x.world).0 ≡ err e) × (is_crash e ≡ true))))

  delivered :
      (w : World s.Memory) (m : Message) (rest waiting : List Message)
      (q : Result ⊤ × World s.Memory)
      → consume s a m w ≡ q
      → Settled s a m w q
      → Next (record { world = w; main = m ∷ rest; waiting = waiting })
  delivered w m rest waiting (ok _, v) e (inl (log, f)) =
      inr (inl (_, acknowledged w m rest waiting (rw e tt) (rw e log)))
  delivered w m rest waiting (ok _, v) e (inr (log, few, f)) =
      inr (inl (_, sent_back w m rest waiting (rw e tt) (rw e log)))
  delivered w m rest waiting (err z, v) e f = inr (inr (m, rest, refl, (z, rw e refl, f)))

  Next-step :
      (w : World s.Memory) (main waiting : List Message)
      → All (IsPending s a w) (main ++ waiting)
      → Next (record { world = w; main = main; waiting = waiting })
  Next-step w [] [] h = inl (refl, refl)
  Next-step w [] (m ∷ rest) h = inr (inl (_, expired w m [] rest))
  Next-step w (m ∷ rest) waiting ((action, few), ps) =
      delivered w m rest waiting (consume s a m w) refl (consume-Settled s a m w action)

  -- If every message in the two queues of instances has one of the three actions, a counter of at
  -- most three and a job of its own, then without new requests no run has more steps than eight
  -- for each message in the main queue and nine for each in the retry queue; and after any run
  -- both queues are empty, or a step is left, or the next delivery crashes, that is, ends the
  -- process, panics or waits forever.
  pub run_ends :
      {n : ℕ} {x y : System s.Memory}
      → Run s a n x y
      → IsFair s a x
      → (n ≤ 8 * length x.main + 9 * length x.waiting) × Next y
  run_ends {n} {x} {y} r h =
      let (fair, less) = Run-IsFair r h in
      (
        omega
            (arith, less, load_bound x.world (x.main ++ x.waiting), length-append x.main x.waiting),
        Next-step y.world y.main y.waiting fair.0,
      )
