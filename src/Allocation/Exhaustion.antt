-- ===== src/Allocation/Exhaustion.antt =====
-- The loop when every commit conflicts: it falls out of its last round with an address that is not
-- stored, and without an error.
use kws.Prelude.{ℕ, suc, ◌+◌, ◌≡◌, refl, Bool, Option, none, some, arith}
use kws.World.{World, M, ok, ⊤, Services, conflict, call}
use kws.Allocation.{
  next_ip, over_limit, commit_after, insert_after, closure, transact, allocate_loop,
}

module _ (s : Services) (highest : World s.Memory → Option ℕ) (insert : ℕ → M s.Memory ⊤)
    (limit : ℕ) where
  abbrev pub later : World s.Memory → ℕ → World s.Memory
  later w n = record w { tick = w.tick + n }

  -- A round whose INSERT goes through and whose COMMIT conflicts changes the clock alone.
  pub conflicting_round :
      (rounds ip : ℕ) (w v : World s.Memory)
      → s.fault w.tick ≡ none
      → s.fault (w.tick + 1) ≡ none
      → over_limit (highest (later (later w 1) 1)) limit ≡ Bool.false
      → insert (next_ip (highest (later (later w 1) 1))) (later (later w 1) 1) ≡ (ok tt, v)
      → s.fault v.tick ≡ some conflict
      → allocate_loop s highest insert limit (suc rounds) ip w
        ≡ allocate_loop s highest insert limit rounds
            (next_ip (highest (later (later w 1) 1)))
            (record w { tick = v.tick + 1 })
  unfolding allocate_loop transact closure insert_after commit_after call
  conflicting_round rounds ip w v f g fits made c = ground (arith, f, g, made, c)

  pub no_rounds :
      (ip : ℕ) (w : World s.Memory) → allocate_loop s highest insert limit 0 ip w ≡ (ok ip, w)
  unfolding allocate_loop
  no_rounds ip w = refl
