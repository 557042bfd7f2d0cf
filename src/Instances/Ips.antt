-- ===== src/Instances/Ips.antt =====
-- What the operations on userip keep, under any schedule of faults.
use kws.Prelude.{
  select-not-nothing, ℕ, ◌+◌, ◌≤◌, ◌≡◌, refl, ◌⊎◌, inl, inr, Bool, false, List, [], ◌∷◌, ◌++◌, none,
  some, not, ◌==◌, arith, if◌then◌else◌, select, exists, highest, occurrences, Option-cases,
}
use kws.World.{
  World, UserIp, peer_does_not_exist, serialization, Result, ok, err, ⊤, Services, Fault, to_error,
}
use kws.Allocation.{next_ip, over_limit}
use kws.Allocation.Laws.{Allocated, loop-Allocated, Conflicted}
use kws.Instances.{ip_of_user, ips, first_ip, add_ip, remove_ip, allocate_next_free_ip}

first_ip-none : (rs : List UserIp) → first_ip rs ≡ none → rs ≡ []
first_ip-none [] e = refl
first_ip-none (r ∷ rs) e = cc

occurrences-select-le :
    (i : ℕ) (q : UserIp → Bool) (rs : List UserIp)
    → occurrences i (ips (select q rs)) ≤ occurrences i (ips rs)
occurrences-select-le i q [] = omega arith
occurrences-select-le i q (r ∷ rs) = ground (arith, occurrences-select-le i q rs)

occurrences_removed :
    (i ip : ℕ) (q : UserIp → Bool) (rs : List UserIp)
    → first_ip (select q rs) ≡ some ip
    → (if ip == i then 1 else 0) + occurrences i (ips (select (λ r. not (q r)) rs))
      ≤ occurrences i (ips rs)
occurrences_removed i ip q [] e = cc
occurrences_removed i ip q (r ∷ rs) e =
    ground (arith, occurrences_removed i ip q rs, occurrences-select-le i (λ r'. not (q r')) rs)

abbrev pub row : ℕ → ℕ → UserIp
row uid ip = record { user_id = uid; ip_address = ip }

module _ (s : Services) where
  abbrev pub Same : World s.Memory → World s.Memory → Type 0
  Same w v = (v.userips ≡ w.userips) × (v.redis ≡ w.redis)

  -- `add_ip` adds the row of a user who has none; otherwise the table stays.
  abbrev pub Added : ℕ → ℕ → World s.Memory → Result ⊤ × World s.Memory → Type 0
  Added uid ip w (ok _, v) =
      (v.userips ≡ w.userips ++ row uid ip ∷ [])
      × (v.redis ≡ w.redis)
      × (exists (ip_of_user uid) w.userips ≡ false)
  Added uid ip w (err e, v) = Same w v

  pub add_ip-Added : (uid ip : ℕ) (w : World s.Memory) → Added uid ip w (add_ip s uid ip w)
  unfolding add_ip
  add_ip-Added uid ip w = ground arith

  abbrev pub Removed : World s.Memory → Result ℕ × World s.Memory → Type 0
  Removed w (ok ip, v) =
      ((i : ℕ)
        → (if ip == i then 1 else 0) + occurrences i (ips v.userips)
          ≤ occurrences i (ips w.userips))
      × (v.redis ≡ w.redis)
  Removed w (err e, v) = Same w v

  remove_ip_found :
      (uid ip : ℕ) (w : World s.Memory)
      → s.fault w.tick ≡ none
      → first_ip (select (ip_of_user uid) w.userips) ≡ some ip
      → remove_ip s uid w ≡ (
        ok ip,
        record w { tick = w.tick + 1; userips = select (λ r. not (ip_of_user uid r)) w.userips },
      )
  unfolding remove_ip
  remove_ip_found uid ip w f o = ground arith

  remove_ip_missing :
      (uid : ℕ) (w : World s.Memory)
      → s.fault w.tick ≡ none
      → first_ip (select (ip_of_user uid) w.userips) ≡ none
      → remove_ip s uid w ≡ (
        err peer_does_not_exist,
        record w { tick = w.tick + 1; userips = select (λ r. not (ip_of_user uid r)) w.userips },
      )
  unfolding remove_ip
  remove_ip_missing uid w f o = ground arith

  remove_ip_fails :
      (uid : ℕ) (w : World s.Memory) (f : Fault)
      → s.fault w.tick ≡ some f
      → remove_ip s uid w ≡ (err (to_error f), record w { tick = w.tick + 1 })
  unfolding remove_ip
  remove_ip_fails uid w f e = ground arith

  pub remove_ip-Removed : (uid : ℕ) (w : World s.Memory) → Removed w (remove_ip s uid w)
  remove_ip-Removed uid w = elim (Option-cases (s.fault w.tick)) [
    | inl f ↦ elim (Option-cases (first_ip (select (ip_of_user uid) w.userips))) [
      | inl o ↦
          rw (remove_ip_missing uid w f o)
            (select-not-nothing (ip_of_user uid) w.userips (first_ip-none _ o), refl)
      | inr (ip, o) ↦
          rw (remove_ip_found uid ip w f o)
            (λ i. occurrences_removed i ip (ip_of_user uid) w.userips o, refl)
    ]
    | inr (f, e) ↦ rw (remove_ip_fails uid w f e) (refl, refl)
  ]

  abbrev pub Stored : ℕ → ℕ → World s.Memory → ℕ → World s.Memory → Type 0
  Stored uid limit w ip v =
      (v.userips ≡ w.userips ++ row uid ip ∷ [])
      × (v.redis ≡ w.redis)
      × (ip ≡ next_ip (highest (ips w.userips)))
      × (over_limit (highest (ips w.userips)) limit ≡ false)

  -- The next address above all rows and within the limit is stored; or nothing is, which goes
  -- without an error only after a conflict.
  abbrev pub NextFree : ℕ → ℕ → World s.Memory → Result ℕ × World s.Memory → Type 0
  NextFree uid limit w (ok ip, v) = Stored uid limit w ip v ⊎ (Same w v × Conflicted s)
  NextFree uid limit w (err e, v) = Same w v

  add_ip_ok :
      (uid ip : ℕ) (w : World s.Memory)
      → (add_ip s uid ip w).0 ≡ ok tt
      → ((add_ip s uid ip w).1.userips ≡ w.userips ++ row uid ip ∷ [])
        × ((add_ip s uid ip w).1.redis ≡ w.redis)
  unfolding add_ip
  add_ip_ok uid ip w h = ground arith

  add_ip_conflict :
      (uid ip : ℕ) (w : World s.Memory) → (add_ip s uid ip w).0 ≡ err serialization → Conflicted s
  unfolding add_ip
  add_ip_conflict uid ip w h = (w.tick, ground arith)

  pub allocate_next_free_ip-NextFree :
      (limit uid : ℕ) (w : World s.Memory)
      → NextFree uid limit w (allocate_next_free_ip s limit uid w)
  unfolding allocate_next_free_ip
  allocate_next_free_ip-NextFree limit uid w = widen _ (
      loop-Allocated s (λ v. highest (ips v.userips)) (add_ip s uid) limit (Same w)
        (Stored uid limit w) (λ u t b. b) (λ ip u a. a)
        (λ u same fits made. stored u same fits made) (λ ip u. add_ip_conflict uid ip u) 5 0 w
        (refl, refl) (λ z. absurd (omega arith)))
    where
      widen :
          (r : Result ℕ × World s.Memory)
          → Allocated s (Same w) (Stored uid limit w) r
          → NextFree uid limit w r
      widen (ok ip, u) a = a
      widen (err e, u) b = b

      stored :
          (u : World s.Memory)
          → Same w u
          → over_limit (highest (ips u.userips)) limit ≡ false
          → (add_ip s uid (next_ip (highest (ips u.userips))) u).0 ≡ ok tt
          → Stored uid limit w
              (next_ip (highest (ips u.userips)))
              (add_ip s uid (next_ip (highest (ips u.userips))) u).1
      stored u same fits made =
          ground (arith, add_ip_ok uid (next_ip (highest (ips u.userips))) u made)
