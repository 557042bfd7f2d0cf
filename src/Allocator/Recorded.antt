-- ===== src/Allocator/Recorded.antt =====
-- What an allocation for a peer returns and records, on every branch.
use kws.Prelude.{
  count-append, ℕ, ◌≤◌, ◌≡◌, refl, ap, ◌∙◌, ◌⊎◌, inl, inr, Bool, true, false, Text, [], ◌∷◌, ◌++◌,
  arith, count,
}
use kws.Prelude.Int.{pos}
use kws.World.{World, stack_key, M, Result, ok, err, raise, ⊤, Services, RedisLaws}
use kws.Address.{IpAllocator, find_no_of_usable_hosts, generate_ip}
use kws.Allocation.Laws.{Conflicted}
use kws.Peers
use kws.Peers.Laws as PeerLaws
use kws.Peers.Laws.{row}
use kws.Allocator.{is_empty_stack, place_peer, allocate_free_ip}
use kws.Allocator.Stack.{Popped, pop_free_ip-Popped}

module _ (s : Services) (laws : RedisLaws s) (uid : ℕ) (key : Text) where
  -- The row is added for a user below the limit; or nothing is, which goes without an error only
  -- after a conflict.
  abbrev Placed : World s.Memory → Result ℕ × World s.Memory → Type 0
  Placed w (ok ip, v) =
      (count (Peers.owned_by uid) w.peers ≡ 3 → ⊥)
      × ((v.peers ≡ w.peers ++ row uid key ip ∷ []) ⊎ ((v.peers ≡ w.peers) × Conflicted s))
  Placed w (err e, v) = v.peers ≡ w.peers

  abbrev pub Recorded : World s.Memory → Result Text × World s.Memory → Type 0
  Recorded w (ok address, v) =
      (ip : ℕ) × (address ≡ generate_ip (pos ip))
      × (count (Peers.owned_by uid) w.peers ≡ 3 → ⊥)
      × ((v.peers ≡ w.peers ++ row uid key ip ∷ []) ⊎ ((v.peers ≡ w.peers) × Conflicted s))
  Recorded w (err e, v) = v.peers ≡ w.peers

  Added-Placed :
      (ip : ℕ) (w v : World s.Memory) (r : Result ⊤ × World s.Memory)
      → v.peers ≡ w.peers
      → PeerLaws.Added s uid key ip v r
      → Placed w (elim r.0 as (λ x. Result ℕ × World s.Memory) [
        | ok a ↦ (ok ip, r.1)
        | err e ↦ (err e, r.1)
      ])
  Added-Placed ip w v (ok t, v') same (grown, kept, few) = (
    (λ h. few (ap (count (Peers.owned_by uid)) same ∙ h)),
    inl (grown ∙ ap (λ ps. ps ++ row uid key ip ∷ []) same),
  )
  Added-Placed ip w v (err e, v') same (kept, memory) = kept ∙ same

  next-Placed :
      (limit : ℕ) (w v : World s.Memory) (r : Result ℕ × World s.Memory)
      → v.peers ≡ w.peers
      → PeerLaws.NextFree s uid key limit v r
      → Placed w r
  next-Placed limit w v (ok ip, v') same (few, inl (grown, kept, next, fits)) = (
    (λ h. few (ap (count (Peers.owned_by uid)) same ∙ h)),
    inl (grown ∙ ap (λ ps. ps ++ row uid key ip ∷ []) same),
  )
  next-Placed limit w v (ok ip, v') same (few, inr ((kept, memory), c)) =
      ((λ h. few (ap (count (Peers.owned_by uid)) same ∙ h)), inr (kept ∙ same, c))
  next-Placed limit w v (err e, v') same (kept, memory) = kept ∙ same

  place_peer-Placed :
      (a : IpAllocator) (r : Result ℕ) (w v : World s.Memory)
      → Popped s laws stack_key w (r, v)
      → Placed w (place_peer s a uid key r v)
  unfolding place_peer
  place_peer-Placed a (ok ip) w v (front, same) =
      Added-Placed ip w v (Peers.add_peer s uid key ip v) same.0
        (PeerLaws.add_peer-Added s uid key ip v)
  place_peer-Placed a (err e) w v (kept, empty, same) = branch (is_empty_stack e)
    where
      branch :
          (t : Bool)
          → Placed w (
              (elim t as (λ x. M s.Memory ℕ) [
                | true ↦ Peers.allocate_next_free_ip s (find_no_of_usable_hosts a) uid key
                | false ↦ raise e
              ])
                v)
      branch true =
          next-Placed (find_no_of_usable_hosts a) w v _ same.0
            (PeerLaws.allocate_next_free_ip-NextFree s (find_no_of_usable_hosts a) uid key v)
      branch false = same.0

  printed :
      (w : World s.Memory) (r : Result ℕ × World s.Memory)
      → Placed w r
      → Recorded w (elim r.0 as (λ x. Result Text × World s.Memory) [
        | ok ip ↦ (ok (generate_ip (pos ip)), r.1)
        | err e ↦ (err e, r.1)
      ])
  printed w (ok ip, v) (few, h) = (ip, refl, few, h)
  printed w (err e, v) h = h

  -- An address that AllocateFreeIp returns is that of a host number whose row was added to wgpeer
  -- for the user and the key, and the user did not have three devices; or no row was added, and
  -- some call of a service met a serialization conflict. With an error the table is as before.
  pub allocate_free_ip-Recorded :
      (a : IpAllocator) (w : World s.Memory) → Recorded w (allocate_free_ip s a uid key w)
  unfolding allocate_free_ip
  allocate_free_ip-Recorded a w =
      printed w _ (place_peer-Placed a _ w _ (pop_free_ip-Popped s laws stack_key w))

  WithinLimit-step :
      (u : ℕ) (w : World s.Memory) (r : Result Text × World s.Memory)
      → Recorded w r
      → count (Peers.owned_by u) w.peers ≤ 3
      → count (Peers.owned_by u) r.1.peers ≤ 3
  WithinLimit-step u w (ok address, v) (ip, e, few, inl grown) h =
      rw grown (ground (arith, few, count-append (Peers.owned_by u) w.peers (row uid key ip ∷ [])))
  WithinLimit-step u w (ok address, v) (ip, e, few, inr (same, c)) h = rw same h
  WithinLimit-step u w (err e, v) same h = rw same h

  -- If a user has at most three devices, so it is after an allocation for that or any other user.
  pub allocate_free_ip-limit :
      (a : IpAllocator) (u : ℕ) (w : World s.Memory)
      → count (Peers.owned_by u) w.peers ≤ 3
      → count (Peers.owned_by u) (allocate_free_ip s a uid key w).1.peers ≤ 3
  allocate_free_ip-limit a u w h =
      WithinLimit-step u w (allocate_free_ip s a uid key w) (allocate_free_ip-Recorded a w) h
