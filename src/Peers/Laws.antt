-- ===== src/Peers/Laws.antt =====
-- What the operations on wgpeer keep, under any schedule of faults: each device limit and each
-- address at most once.
use kws.Prelude.{
  ℕ, ◌+◌, ◌≤◌, ◌≡◌, refl, ◌⊎◌, inl, inr, Bool, false, Text, List, [], ◌∷◌, ◌++◌, none, some, not,
  ◌==◌, arith, if◌then◌else◌, select, count, highest, count-select-le, select-not-nothing,
  occurrences, Option-cases, Bool-cases,
}
use kws.World.{
  World, Peer, peer_does_not_exist, serialization, wg_device_limit, M, Result, ok, err, ⊤, Services,
  Fault, to_error,
}
use kws.Allocation.{next_ip, over_limit, allocate_loop}
use kws.Allocation.Laws.{Allocated, loop-Allocated, Conflicted}
use kws.Peers.{
  owned_by, ips, is_peer, first_ip, insert_peer, add_peer, remove_peer, allocate_next_free_ip,
}

first_ip-none : (ps : List Peer) → first_ip ps ≡ none → ps ≡ []
first_ip-none [] e = refl
first_ip-none (p ∷ ps) e = cc

occurrences-select-le :
    (i : ℕ) (q : Peer → Bool) (ps : List Peer)
    → occurrences i (ips (select q ps)) ≤ occurrences i (ips ps)
occurrences-select-le i q [] = omega arith
occurrences-select-le i q (p ∷ ps) = ground (arith, occurrences-select-le i q ps)

occurrences_removed :
    (i ip : ℕ) (q : Peer → Bool) (ps : List Peer)
    → first_ip (select q ps) ≡ some ip
    → (if ip == i then 1 else 0) + occurrences i (ips (select (λ p. not (q p)) ps))
      ≤ occurrences i (ips ps)
occurrences_removed i ip q [] e = cc
occurrences_removed i ip q (p ∷ ps) e =
    ground (arith, occurrences_removed i ip q ps, occurrences-select-le i (λ p'. not (q p')) ps)

abbrev pub row : ℕ → Text → ℕ → Peer
row uid key ip = record { user_id = uid; public_key = key; ip_address = ip }

module _ (s : Services) where
  -- `add_peer` adds the row, and only below the device limit; otherwise the table stays.
  abbrev pub Added : ℕ → Text → ℕ → World s.Memory → Result ⊤ × World s.Memory → Type 0
  Added uid key ip w (ok _, v) =
      (v.peers ≡ w.peers ++ row uid key ip ∷ [])
      × (v.redis ≡ w.redis)
      × (count (owned_by uid) w.peers ≡ 3 → ⊥)
  Added uid key ip w (err e, v) = (v.peers ≡ w.peers) × (v.redis ≡ w.redis)

  pub add_peer-Added :
      (uid : ℕ) (key : Text) (ip : ℕ) (w : World s.Memory)
      → Added uid key ip w (add_peer s uid key ip w)
  unfolding add_peer
  add_peer-Added uid key ip w = ground arith

  -- Removing returns the address of a row that is gone; without such a row nothing changes.
  abbrev pub Removed : World s.Memory → Result ℕ × World s.Memory → Type 0
  Removed w (ok ip, v) =
      ((i : ℕ)
        → (if ip == i then 1 else 0) + occurrences i (ips v.peers) ≤ occurrences i (ips w.peers))
      × ((u : ℕ) → count (owned_by u) v.peers ≤ count (owned_by u) w.peers)
      × (v.redis ≡ w.redis)
  Removed w (err e, v) = (v.peers ≡ w.peers) × (v.redis ≡ w.redis)

  pub remove_peer_found :
      (key : Text) (uid ip : ℕ) (w : World s.Memory)
      → s.fault w.tick ≡ none
      → first_ip (select (is_peer key uid) w.peers) ≡ some ip
      → remove_peer s key uid w ≡ (
        ok ip,
        record w { tick = w.tick + 1; peers = select (λ p. not (is_peer key uid p)) w.peers },
      )
  unfolding remove_peer
  remove_peer_found key uid ip w f o = ground arith

  remove_peer_missing :
      (key : Text) (uid : ℕ) (w : World s.Memory)
      → s.fault w.tick ≡ none
      → first_ip (select (is_peer key uid) w.peers) ≡ none
      → remove_peer s key uid w ≡ (
        err peer_does_not_exist,
        record w { tick = w.tick + 1; peers = select (λ p. not (is_peer key uid p)) w.peers },
      )
  unfolding remove_peer
  remove_peer_missing key uid w f o = ground arith

  remove_peer_fails :
      (key : Text) (uid : ℕ) (w : World s.Memory) (f : Fault)
      → s.fault w.tick ≡ some f
      → remove_peer s key uid w ≡ (err (to_error f), record w { tick = w.tick + 1 })
  unfolding remove_peer
  remove_peer_fails key uid w f e = ground arith

  pub remove_peer-Removed :
      (key : Text) (uid : ℕ) (w : World s.Memory) → Removed w (remove_peer s key uid w)
  remove_peer-Removed key uid w = elim (Option-cases (s.fault w.tick)) [
    | inl f ↦ elim (Option-cases (first_ip (select (is_peer key uid) w.peers))) [
      | inl o ↦
          rw (remove_peer_missing key uid w f o)
            (select-not-nothing (is_peer key uid) w.peers (first_ip-none _ o), refl)
      | inr (ip, o) ↦ rw (remove_peer_found key uid ip w f o) (
        λ i. occurrences_removed i ip (is_peer key uid) w.peers o,
        λ u. count-select-le (owned_by u) (λ p. not (is_peer key uid p)) w.peers,
        refl,
      )
    ]
    | inr (f, e) ↦ rw (remove_peer_fails key uid w f e) (refl, refl)
  ]

  -- The address is the next one above all rows and within the limit, and its row is added; or
  -- nothing was stored, which goes without an error only after a conflict.
  abbrev pub Stored : ℕ → Text → ℕ → World s.Memory → ℕ → World s.Memory → Type 0
  Stored uid key limit w ip v =
      (v.peers ≡ w.peers ++ row uid key ip ∷ [])
      × (v.redis ≡ w.redis)
      × (ip ≡ next_ip (highest (ips w.peers)))
      × (over_limit (highest (ips w.peers)) limit ≡ false)

  abbrev pub Same : World s.Memory → World s.Memory → Type 0
  Same w v = (v.peers ≡ w.peers) × (v.redis ≡ w.redis)

  abbrev pub NextFree : ℕ → Text → ℕ → World s.Memory → Result ℕ × World s.Memory → Type 0
  NextFree uid key limit w (ok ip, v) =
      (count (owned_by uid) w.peers ≡ 3 → ⊥)
      × (Stored uid key limit w ip v ⊎ (Same w v × Conflicted s))
  NextFree uid key limit w (err e, v) = Same w v

  insert_peer_ok :
      (uid : ℕ) (key : Text) (ip : ℕ) (w : World s.Memory)
      → (insert_peer s uid key ip w).0 ≡ ok tt
      → ((insert_peer s uid key ip w).1.peers ≡ w.peers ++ row uid key ip ∷ [])
        × ((insert_peer s uid key ip w).1.redis ≡ w.redis)
  unfolding insert_peer
  insert_peer_ok uid key ip w h = ground arith

  insert_peer_conflict :
      (uid : ℕ) (key : Text) (ip : ℕ) (w : World s.Memory)
      → (insert_peer s uid key ip w).0 ≡ err serialization
      → Conflicted s
  unfolding insert_peer
  insert_peer_conflict uid key ip w h = (w.tick, ground arith)

  allocate_next_free_ip_fails :
      (limit uid : ℕ) (key : Text) (w : World s.Memory) (f : Fault)
      → s.fault w.tick ≡ some f
      → allocate_next_free_ip s limit uid key w ≡ (err (to_error f), record w { tick = w.tick + 1 })
  unfolding allocate_next_free_ip
  allocate_next_free_ip_fails limit uid key w f e = ground arith

  allocate_next_free_ip_full :
      (limit uid : ℕ) (key : Text) (w : World s.Memory)
      → s.fault w.tick ≡ none
      → count (owned_by uid) w.peers ≡ 3
      → allocate_next_free_ip s limit uid key w
        ≡ (err wg_device_limit, record w { tick = w.tick + 1 })
  unfolding allocate_next_free_ip
  allocate_next_free_ip_full limit uid key w f e = ground arith

  pub allocate_next_free_ip_loops :
      (limit uid : ℕ) (key : Text) (w : World s.Memory)
      → s.fault w.tick ≡ none
      → (count (owned_by uid) w.peers == 3) ≡ false
      → allocate_next_free_ip s limit uid key w
        ≡ allocate_loop s
            (λ v. highest (ips v.peers))
            (insert_peer s uid key)
            limit
            5
            0
            (record w { tick = w.tick + 1 })
  unfolding allocate_next_free_ip
  allocate_next_free_ip_loops limit uid key w f e = ground arith

  abbrev Loop : ℕ → ℕ → Text → ℕ → ℕ → M s.Memory ℕ
  Loop limit uid key = allocate_loop s (λ v. highest (ips v.peers)) (insert_peer s uid key) limit

  loop-NextFree :
      (limit uid : ℕ) (key : Text) (w v : World s.Memory)
      → (count (owned_by uid) w.peers == 3) ≡ false
      → Same w v
      → NextFree uid key limit w (Loop limit uid key 5 0 v)
  loop-NextFree limit uid key w v few same = widen (Loop limit uid key 5 0 v) (
      loop-Allocated s (λ v. highest (ips v.peers)) (insert_peer s uid key) limit (Same w)
        (Stored uid key limit w) (λ u t b. b) (λ ip u a. a)
        (λ u same' fits made. stored u same' fits made) (λ ip u. insert_peer_conflict uid key ip u)
        5 0 v same (λ z. absurd (omega arith)))
    where
      widen :
          (r : Result ℕ × World s.Memory)
          → Allocated s (Same w) (Stored uid key limit w) r
          → NextFree uid key limit w r
      widen (ok ip, u) a = (λ c. ground arith, a)
      widen (err e, u) b = b

      stored :
          (u : World s.Memory)
          → Same w u
          → over_limit (highest (ips u.peers)) limit ≡ false
          → (insert_peer s uid key (next_ip (highest (ips u.peers))) u).0 ≡ ok tt
          → Stored uid key limit w
              (next_ip (highest (ips u.peers)))
              (insert_peer s uid key (next_ip (highest (ips u.peers))) u).1
      stored u same' fits made =
          ground (arith, insert_peer_ok uid key (next_ip (highest (ips u.peers))) u made)

  pub allocate_next_free_ip-NextFree :
      (limit uid : ℕ) (key : Text) (w : World s.Memory)
      → NextFree uid key limit w (allocate_next_free_ip s limit uid key w)
  allocate_next_free_ip-NextFree limit uid key w = elim (Option-cases (s.fault w.tick)) [
    | inl f ↦ elim (Bool-cases (count (owned_by uid) w.peers == 3)) [
      | inl full ↦ rw (allocate_next_free_ip_full limit uid key w f (ground arith)) (refl, refl)
      | inr few ↦
          rw (allocate_next_free_ip_loops limit uid key w f few)
            (loop-NextFree limit uid key w _ few (refl, refl))
    ]
    | inr (f, e) ↦ rw (allocate_next_free_ip_fails limit uid key w f e) (refl, refl)
  ]
