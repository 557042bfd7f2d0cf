-- ===== src/Allocator/Stack.antt =====
-- The stack of released addresses, under the documented behaviour of Redis's lists.
use kws.Prelude.{
  ℕ, ◌+◌, ◌≡◌, refl, sym, ap, ◌∙◌, inl, inr, true, false, Text, List, [], ◌∷◌, none, some, arith,
  Option-cases,
}
use kws.World.{World, Result, ok, err, ⊤, Services, RedisLaws, Fault, to_error}
use kws.Allocator.{is_empty_stack, popped, push_free_ip, pop_free_ip}

module _ (s : Services) (laws : RedisLaws s) where
  abbrev pub free : Text → World s.Memory → List ℕ
  free key w = laws.range w.redis key

  pub stack_eq : (w v : World s.Memory) (key : Text) → v.redis ≡ w.redis → free key v ≡ free key w
  stack_eq w v key e = ap (λ m. laws.range m key) e

  abbrev pub SameTables : World s.Memory → World s.Memory → Type 0
  SameTables w v = (v.peers ≡ w.peers) × (v.userips ≡ w.userips)

  -- A pop takes the front of the stack; one that fails leaves the stack, and says that it is empty
  -- only if it is.
  abbrev pub Popped : Text → World s.Memory → Result ℕ × World s.Memory → Type 0
  Popped key w (ok ip, v) = (free key w ≡ ip ∷ free key v) × SameTables w v
  Popped key w (err e, v) =
      (free key v ≡ free key w) × (is_empty_stack e ≡ true → free key w ≡ []) × SameTables w v

  pop_fails :
      (key : Text) (w : World s.Memory) (f : Fault)
      → s.fault w.tick ≡ some f
      → pop_free_ip s key w ≡ (err (to_error f), record w { tick = w.tick + 1 })
  unfolding pop_free_ip
  pop_fails key w f e = ground arith

  pub pop_replies :
      (key : Text) (w : World s.Memory)
      → s.fault w.tick ≡ none
      → pop_free_ip s key w ≡ (
        popped (s.lpop w.redis key).0,
        record w { tick = w.tick + 1; redis = (s.lpop w.redis key).1 },
      )
  unfolding pop_free_ip
  pop_replies key w e = ground arith

  to_error-not_empty : (f : Fault) → is_empty_stack (to_error f) ≡ false
  to_error-not_empty f = ground arith

  pub pop_free_ip-Popped : (key : Text) (w : World s.Memory) → Popped key w (pop_free_ip s key w)
  pop_free_ip-Popped key w = elim (Option-cases (s.fault w.tick)) [
    | inl e ↦ rw (pop_replies key w e) (reply (free key w) refl)
    | inr (f, e) ↦
        rw (pop_fails key w f e)
          (refl, (λ h. absurd (ground (arith, to_error-not_empty f))), (refl, refl))
  ]
    where
      reply :
          (ips : List ℕ)
          → free key w ≡ ips
          → Popped key w (
            popped (s.lpop w.redis key).0,
            record w { tick = w.tick + 1; redis = (s.lpop w.redis key).1 },
          )
      reply [] e =
          let (answer, rest) = laws.lpop-nil w.redis key e in
          rw answer (rest ∙ sym e, (λ h. e), (refl, refl))
      reply (ip ∷ ips) e =
          let (answer, rest) = laws.lpop-cons w.redis key ip ips e in
          rw answer (ground arith, (refl, refl))

  abbrev pub Pushed : Text → ℕ → World s.Memory → Result ⊤ × World s.Memory → Type 0
  Pushed key ip w (ok _, v) = (free key v ≡ ip ∷ free key w) × SameTables w v
  Pushed key ip w (err e, v) = (free key v ≡ free key w) × SameTables w v

  push_fails :
      (ip : ℕ) (key : Text) (w : World s.Memory) (f : Fault)
      → s.fault w.tick ≡ some f
      → push_free_ip s ip key w ≡ (err (to_error f), record w { tick = w.tick + 1 })
  unfolding push_free_ip
  push_fails ip key w f e = ground arith

  pub push_stores :
      (ip : ℕ) (key : Text) (w : World s.Memory)
      → s.fault w.tick ≡ none
      → push_free_ip s ip key w
        ≡ (ok tt, record w { tick = w.tick + 1; redis = s.lpush w.redis key ip })
  unfolding push_free_ip
  push_stores ip key w e = ground arith

  pub push_free_ip-Pushed :
      (ip : ℕ) (key : Text) (w : World s.Memory) → Pushed key ip w (push_free_ip s ip key w)
  push_free_ip-Pushed ip key w = elim (Option-cases (s.fault w.tick)) [
    | inl e ↦ rw (push_stores ip key w e) (laws.lpush-cons w.redis key ip, (refl, refl))
    | inr (f, e) ↦ rw (push_fails ip key w f e) (refl, (refl, refl))
  ]
