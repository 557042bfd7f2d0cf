-- ===== src/Allocation/Laws.antt =====
-- What the retry loop leaves behind, for any schedule of faults.
use kws.Prelude.{
  ℕ, zero, suc, ◌+◌, ◌≡◌, refl, Bool, Option, none, some, ◌⊎◌, inl, inr, arith, Bool-cases, true,
  false, if◌then◌else◌,
}
use kws.World.{
  World, Error, serialization, M, Result, ok, err, raise, ⊤, ◌>>=◌, Services, Fault, conflict,
  broken, call, outcome, to_error,
}
use kws.Allocation.{
  next_ip, over_limit, is_conflict, Round, commit_after, insert_after, after_round, settle,
  transact, allocate_loop,
}

conflict_only : (e : Error) → is_conflict e ≡ true → e ≡ serialization
conflict_only e h = ground arith

-- Some call of the database was answered by a serialization conflict.
abbrev pub Conflicted : Services → Type 0
Conflicted s = (n : ℕ) × (s.fault n ≡ some conflict)

-- The loop stored the address that it returns, or nothing; and it returns an address that it has
-- not stored only after a conflict.
abbrev pub Allocated :
    (s : Services)
    → (World s.Memory → Type 0)
    → (ℕ → World s.Memory → Type 0)
    → Result ℕ × World s.Memory
    → Type 0
Allocated s Before After (ok ip, w) = After ip w ⊎ (Before w × Conflicted s)
Allocated s Before After (err e, w) = Before w

module _ (s : Services) (highest : World s.Memory → Option ℕ) (insert : ℕ → M s.Memory ⊤)
    (limit : ℕ)
    -- `Before` holds until a round commits, and `After ip` once `ip` is stored.
    (Before : World s.Memory → Type 0) (After : ℕ → World s.Memory → Type 0)
    (Before-tick : (w : World s.Memory) (t : ℕ) → Before w → Before (record w { tick = t }))
    (After-tick : (ip : ℕ) (w : World s.Memory)
      → After ip w
      → After ip (record w { tick = w.tick + 1 }))
    (insert-After : (w : World s.Memory)
      → Before w
      → over_limit (highest w) limit ≡ Bool.false
      → (insert (next_ip (highest w)) w).0 ≡ ok tt
      → After (next_ip (highest w)) (insert (next_ip (highest w)) w).1)
    (insert-conflict : (ip : ℕ) (w : World s.Memory)
      → (insert ip w).0 ≡ err serialization
      → Conflicted s) where
  abbrev Settled : Result Round × World s.Memory → Type 0
  Settled (ok (ip, ok _), w) = After ip w
  Settled (ok (ip, err e), w) = Before w × (is_conflict e ≡ true → Conflicted s)
  Settled (err e, w) = Before w

  fault-Conflicted :
      (n : ℕ) (f : Fault) → s.fault n ≡ some f → is_conflict (to_error f) ≡ true → Conflicted s
  fault-Conflicted n conflict e h = (n, e)
  fault-Conflicted n (broken k) e h = cc

  insert_error-Conflicted :
      (ip : ℕ) (w : World s.Memory) (e : Error)
      → (insert ip w).0 ≡ err e
      → is_conflict e ≡ true
      → Conflicted s
  insert_error-Conflicted ip w e p c = insert-conflict ip w (ground (arith, conflict_only e))

  commit-Settled :
      (before : World s.Memory) (ip n : ℕ) (w : World s.Memory) (f : Option Fault)
      → s.fault n ≡ f
      → Before before
      → After ip w
      → Settled (settle s highest insert limit before (ok (ip, outcome f), w))
  commit-Settled before ip n w none e b a = a
  commit-Settled before ip n w (some f) e b a =
      (Before-tick before w.tick b, fault-Conflicted n f e)

  insert-Settled :
      (before : World s.Memory) (ip : ℕ) (r : Result ⊤) (w : World s.Memory)
      → Before before
      → (r ≡ ok tt → After ip w)
      → ((e : Error) → r ≡ err e → is_conflict e ≡ true → Conflicted s)
      → Settled (settle s highest insert limit before (commit_after s highest insert limit ip r w))
  unfolding commit_after
  insert-Settled before ip (ok tt) w b a c =
      commit-Settled before ip w.tick _ (s.fault w.tick) refl b (After-tick ip w (a refl))
  insert-Settled before ip (err e) w b a c = (Before-tick before w.tick b, c e refl)

  select-Settled :
      (before : World s.Memory) (ip n : ℕ) (w : World s.Memory) (f : Option Fault)
      → s.fault n ≡ f
      → Before before
      → Before w
      → Settled (
          settle s highest insert limit before
            (insert_after s highest insert limit ip (highest w) (outcome f) w))
  unfolding insert_after
  select-Settled before ip n w none e b a = elim (Bool-cases (over_limit (highest w) limit)) [
    | inl over ↦ rw (over, if◌then◌else◌) (Before-tick before w.tick b, λ h. cc)
    | inr fits ↦
        rw (fits, if◌then◌else◌)
          (insert-Settled before (next_ip (highest w)) (insert (next_ip (highest w)) w).0 _ b
            (insert-After w a fits) (insert_error-Conflicted (next_ip (highest w)) w))
  ]
  select-Settled before ip n w (some f) e b a =
      (Before-tick before w.tick b, fault-Conflicted n f e)

  transact-Settled :
      (ip : ℕ) (w : World s.Memory) → Before w → Settled (transact s highest insert limit ip w)
  unfolding transact
  transact-Settled ip w b =
      select-Settled w ip w.tick (record w { tick = w.tick + 1 }) (s.fault w.tick) refl b
        (Before-tick w (w.tick + 1) b)

  after_round-Allocated :
      (again : ℕ → M s.Memory ℕ) (r : Result Round) (w : World s.Memory)
      → ((ip : ℕ) (v : World s.Memory)
          → Before v
          → Conflicted s
          → Allocated s Before After (again ip v))
      → Settled (r, w)
      → Allocated s Before After
          (elim r [ ok a ↦ after_round s highest insert limit again a w | err e ↦ (err e, w) ])
  unfolding after_round
  after_round-Allocated again (ok (ip, ok u)) w k a = inl a
  after_round-Allocated again (ok (ip, err e)) w k (b, c) = branch (is_conflict e) c
    where
      branch :
          (t : Bool)
          → (t ≡ true → Conflicted s)
          → Allocated s Before After
              ((elim t as (λ x. M s.Memory ℕ) [ true ↦ again ip | false ↦ raise e ]) w)
      branch true c = k ip w b (c refl)
      branch false c = b
  after_round-Allocated again (err e) w k b = b

  pub loop-Allocated :
      (rounds ip : ℕ) (w : World s.Memory)
      → Before w
      → (rounds ≡ 0 → Conflicted s)
      → Allocated s Before After (allocate_loop s highest insert limit rounds ip w)
  unfolding allocate_loop call
  loop-Allocated zero ip w b c = inr (b, c refl)
  loop-Allocated (suc rounds) ip w b c =
      begin (s.fault w.tick) (λ ip' v b' c'. loop-Allocated rounds ip' v b' (λ z. c'))
    where
      again : ℕ → M s.Memory ℕ
      again = allocate_loop s highest insert limit rounds

      begin :
          (f : Option Fault)
          → ((ip' : ℕ) (v : World s.Memory)
              → Before v
              → Conflicted s
              → Allocated s Before After (again ip' v))
          → Allocated s Before After (
              ◌>>=◌
                (λ v. (outcome f, record v { tick = v.tick + 1 }))
                (λ (u : ⊤).
                  transact s highest insert limit ip >>= after_round s highest insert limit again)
                w)
      begin none rest =
          after_round-Allocated again _ _ rest
            (transact-Settled ip _ (Before-tick w (w.tick + 1) b))
      begin (some f) rest = Before-tick w (w.tick + 1) b
