-- ===== src/Peers/Phantom.antt =====
-- `AllocateNextFreeIP` of src/internal/store/wg.go when each of its five commits conflicts.
use kws.Prelude.{
  ℕ, zero, suc, ◌+◌, ◌*◌, ◌<◌, ◌≡◌, ap, ◌∙◌, false, Text, text_eq, [], ◌∷◌, ◌++◌, Option, none,
  some, ◌||◌, ◌==◌, arith, count, exists, highest,
}
use kws.World.{World, M, ok, Services, Fault, conflict}
use kws.Allocation.{next_ip, over_limit, allocate_loop}
use kws.Allocation.Exhaustion.{conflicting_round, no_rounds}
use kws.Peers.Laws.{allocate_next_free_ip_loops}
use kws.Peers.{owned_by, ips, insert_peer, allocate_next_free_ip}

-- From call `t` on, every round gets as far as its COMMIT, which conflicts.
abbrev pub CommitsConflict : Services → ℕ → ℕ → Type 0
CommitsConflict s t rounds =
    (k : ℕ)
    → k < rounds
    → (s.fault (t + 4 * k) ≡ none)
      × (s.fault (t + 4 * k + 1) ≡ none)
      × (s.fault (t + 4 * k + 2) ≡ none)
      × (s.fault (t + 4 * k + 3) ≡ some conflict)

fault_at : (s : Services) {t u : ℕ} {o : Option Fault} → u ≡ t → s.fault t ≡ o → s.fault u ≡ o
fault_at s e p = cc

first_round :
    (s : Services) (t rounds : ℕ)
    → CommitsConflict s t (suc rounds)
    → (s.fault t ≡ none)
      × (s.fault (t + 1) ≡ none)
      × (s.fault (t + 2) ≡ none)
      × (s.fault (t + 3) ≡ some conflict)
first_round s t rounds c =
    let (f, g, h, k) = c 0 (omega arith) in
    (
      fault_at s (omega arith) f,
      fault_at s (omega arith) g,
      fault_at s (omega arith) h,
      fault_at s (omega arith) k,
    )

later_rounds :
    (s : Services) (t rounds : ℕ)
    → CommitsConflict s t (suc rounds)
    → CommitsConflict s (t + 4) rounds
later_rounds s t rounds c k lt =
    let (f, g, h, e) = c (suc k) (omega arith) in
    (
      fault_at s (omega arith) f,
      fault_at s (omega arith) g,
      fault_at s (omega arith) h,
      fault_at s (omega arith) e,
    )

module _ (s : Services) (limit uid : ℕ) (key : Text) where
  abbrev next : World s.Memory → ℕ
  next w = next_ip (highest (ips w.peers))

  -- Neither the key nor the next address is in the table yet.
  abbrev pub IsNew : World s.Memory → Type 0
  IsNew w =
      (exists (λ p. text_eq p.public_key key || p.ip_address == next w) w.peers ≡ false)
      × (over_limit (highest (ips w.peers)) limit ≡ false)

  abbrev Loop : ℕ → ℕ → M s.Memory ℕ
  Loop = allocate_loop s (λ v. highest (ips v.peers)) (insert_peer s uid key) limit

  insert_peer_new :
      (ip : ℕ) (w : World s.Memory)
      → s.fault w.tick ≡ none
      → exists (λ p. text_eq p.public_key key || p.ip_address == ip) w.peers ≡ false
      → insert_peer s uid key ip w ≡ (
        ok tt,
        record w {
          tick = w.tick + 1;
          peers = w.peers ++ record { user_id = uid; public_key = key; ip_address = ip } ∷ [];
        },
      )
  unfolding insert_peer
  insert_peer_new ip w f new = ground arith

  one_round :
      (rounds ip : ℕ) (w : World s.Memory)
      → IsNew w
      → (s.fault w.tick ≡ none)
        × (s.fault (w.tick + 1) ≡ none)
        × (s.fault (w.tick + 2) ≡ none)
        × (s.fault (w.tick + 3) ≡ some conflict)
      → Loop (suc rounds) ip w ≡ Loop rounds (next w) (record w { tick = w.tick + 4 })
  one_round rounds ip w new (f, g, h, c) =
      conflicting_round s (λ v. highest (ips v.peers)) (insert_peer s uid key) limit rounds ip w _ f
        g new.1 (insert_peer_new (next w) _ (fault_at s (omega arith) h) new.0)
        (fault_at s (omega arith) c)
      ∙ ap (λ t. Loop rounds (next w) (record w { tick = t })) (omega arith)

  all_rounds :
      (rounds : ℕ) (w : World s.Memory)
      → IsNew w
      → CommitsConflict s w.tick rounds
      → Loop rounds (next w) w ≡ (ok (next w), record w { tick = w.tick + 4 * rounds })
  all_rounds zero w new c =
      no_rounds s (λ v. highest (ips v.peers)) (insert_peer s uid key) limit (next w) w
      ∙ ap (λ t. (ok (next w), record w { tick = t })) (omega arith)
  all_rounds (suc rounds) w new c =
      one_round rounds (next w) w new (first_round s w.tick rounds c)
      ∙ all_rounds rounds (record w { tick = w.tick + 4 }) new (later_rounds s w.tick rounds c)
      ∙ ap (λ t. (ok (next w), record w { tick = t })) (omega arith)

  -- When the user has not three devices, the key and the next address are new and within the
  -- limit, the first call goes through, and each of the five rounds gets as far as its COMMIT,
  -- which conflicts, AllocateNextFreeIP returns the next address and no error, and nothing but
  -- the clock has changed.
  pub allocate_next_free_ip_phantom :
      (w : World s.Memory)
      → (count (owned_by uid) w.peers == 3) ≡ false
      → IsNew w
      → s.fault w.tick ≡ none
      → CommitsConflict s (w.tick + 1) 5
      → allocate_next_free_ip s limit uid key w ≡ (ok (next w), record w { tick = w.tick + 21 })
  allocate_next_free_ip_phantom w few new f c =
      allocate_next_free_ip_loops s limit uid key w f few
      ∙ one_round 4 0 v new (first_round s v.tick 4 c)
      ∙ all_rounds 4 (record v { tick = v.tick + 4 }) new (later_rounds s v.tick 4 c)
      ∙ ap (λ t. (ok (next w), record w { tick = t })) (omega arith)
    where
      v : World s.Memory
      v = record w { tick = w.tick + 1 }
