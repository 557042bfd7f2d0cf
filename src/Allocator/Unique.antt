-- ===== src/Allocator/Unique.antt =====
-- No address is held twice: an address is at most once in the table or on the stack of released
-- addresses, through every allocation and release and under any schedule of faults.
use kws.Prelude.{
  ℕ, ◌+◌, ◌≤◌, ◌≡◌, refl, sym, ap, ◌∙◌, inl, inr, Bool, true, false, Text, [], ◌∷◌, ◌++◌,
  occurrences,
}
use mathlib.Core.List.{map-append}
use kws.World.{World, stack_key, M, Result, ok, err, pure, raise, ⊤, ◌>>=◌, Services, RedisLaws}
use kws.Prelude.Int.{pos}
use kws.Address.{IpAllocator, find_no_of_usable_hosts, generate_ip}
use kws.Peers
use kws.Peers.Laws as PeerLaws
use kws.Allocator.{
  is_empty_stack, place_peer, allocate_free_ip, pop_free_ip, push_free_ip, deallocate_ip,
}
use kws.Allocator.Once.{
  Once-same, Once-lost, Once-added, Once-next, Once-pushed, Once-dropped, Once-rows,
}
use kws.Allocator.Stack.{free, stack_eq, Popped, Pushed, pop_free_ip-Popped, push_free_ip-Pushed}

-- What follows with no call of a service leaves the state.
pub bind_state :
    {Memory A B : Type 0} (m : M Memory A) (f : A → B) (w : World Memory)
    → ((m >>= λ a. pure (f a)) w).1 ≡ (m w).1
bind_state {Memory} {A} {B} m f w = by_result (m w)
  where
    by_result :
        (r : Result A × World Memory)
        → (elim r.0 as (λ x. Result B × World Memory) [
          | ok a ↦ (ok (f a), r.1)
          | err e ↦ (err e, r.1)
        ]).1
          ≡ r.1
    by_result (ok a, v) = refl
    by_result (err e, v) = refl

module _ (s : Services) (laws : RedisLaws s) (i : ℕ) where
  -- The address is at most once in wgpeer or on the stack of released addresses.
  abbrev pub PeerUnique : World s.Memory → Type 0
  PeerUnique w = occurrences i (free s laws stack_key w) + occurrences i (Peers.ips w.peers) ≤ 1

  -- A row is added for an address that was at the front of the stack.
  peer-Added :
      (uid ip : ℕ) (key : Text) (w v : World s.Memory) (r : Result ⊤) (v' : World s.Memory)
      → PeerLaws.Added s uid key ip v (r, v')
      → free s laws stack_key w ≡ ip ∷ free s laws stack_key v
      → v.peers ≡ w.peers
      → PeerUnique w
      → PeerUnique v'
  peer-Added uid ip key w v (ok t) v' (grown, kept, few) front same u =
      Once-added i ip _ _ _ _ (front ∙ ap (◌∷◌ ip) (sym (stack_eq s laws v v' stack_key kept)))
        (ap Peers.ips grown ∙ map-append _ _ _ ∙ ap (λ ps. Peers.ips ps ++ ip ∷ []) same) u
  peer-Added uid ip key w v (err e) v' (kept, memory) front same u =
      Once-lost i ip _ _ _ _ (front ∙ ap (◌∷◌ ip) (sym (stack_eq s laws v v' stack_key memory)))
        (ap Peers.ips (kept ∙ same)) u

  -- A row is added above all others while the stack is empty.
  peer_next :
      (limit uid : ℕ) (key : Text) (v : World s.Memory) (r : Result ℕ) (v' : World s.Memory)
      → PeerLaws.NextFree s uid key limit v (r, v')
      → free s laws stack_key v ≡ []
      → PeerUnique v
      → PeerUnique v'
  peer_next limit uid key v (ok ip) v' (few, inl (grown, kept, next, fits)) empty u =
      Once-next i _ _ _ _ empty (stack_eq s laws v v' stack_key kept)
        (ap Peers.ips grown ∙ map-append _ _ _ ∙ ap (λ n. Peers.ips v.peers ++ n ∷ []) next) u
  peer_next limit uid key v (ok ip) v' (few, inr ((kept, memory), c)) empty u =
      Once-same i _ _ _ _ (stack_eq s laws v v' stack_key memory) (ap Peers.ips kept) u
  peer_next limit uid key v (err e) v' (kept, memory) empty u =
      Once-same i _ _ _ _ (stack_eq s laws v v' stack_key memory) (ap Peers.ips kept) u

  place_peer-PeerUnique :
      (a : IpAllocator) (uid : ℕ) (key : Text) (r : Result ℕ) (w v : World s.Memory)
      → Popped s laws stack_key w (r, v)
      → PeerUnique w
      → PeerUnique (place_peer s a uid key r v).1
  unfolding place_peer
  place_peer-PeerUnique a uid key (ok ip) w v (front, same) u =
      rw (bind_state (Peers.add_peer s uid key ip) (λ t. ip) v)
        (peer-Added uid ip key w v _ _ (PeerLaws.add_peer-Added s uid key ip v) front same.0 u)
  place_peer-PeerUnique a uid key (err e) w v (kept, empty, same) u =
      branch (is_empty_stack e) empty
    where
      branch :
          (t : Bool)
          → (t ≡ true → free s laws stack_key w ≡ [])
          → PeerUnique
              ((elim t as (λ x. M s.Memory ℕ) [
                | true ↦ Peers.allocate_next_free_ip s (find_no_of_usable_hosts a) uid key
                | false ↦ raise e
              ])
                v).1
      branch true h =
          peer_next (find_no_of_usable_hosts a) uid key v _ _
            (PeerLaws.allocate_next_free_ip-NextFree s (find_no_of_usable_hosts a) uid key v)
            (kept ∙ h refl) (Once-same i _ _ _ _ kept (ap Peers.ips same.0) u)
      branch false h = Once-same i _ _ _ _ kept (ap Peers.ips same.0) u

  -- If an address is at most once in wgpeer or on the stack of released addresses, it still is
  -- after an allocation for a peer, whatever the calls of the services answer.
  pub allocate_free_ip-PeerUnique :
      (a : IpAllocator) (uid : ℕ) (key : Text) (w : World s.Memory)
      → PeerUnique w
      → PeerUnique (allocate_free_ip s a uid key w).1
  unfolding allocate_free_ip
  allocate_free_ip-PeerUnique a uid key w u =
      rw
        (bind_state (place_peer s a uid key (pop_free_ip s stack_key w).0)
          (λ ip. generate_ip (pos ip)) (pop_free_ip s stack_key w).1)
        (place_peer-PeerUnique a uid key _ w _ (pop_free_ip-Popped s laws stack_key w) u)

  -- The address of a removed row goes to the stack, or is dropped if the push fails.
  peer-Pushed :
      (ip : ℕ) (w v : World s.Memory) (r : Result ⊤) (v' : World s.Memory)
      → PeerLaws.Removed s w (ok ip, v)
      → Pushed s laws stack_key ip v (r, v')
      → PeerUnique w
      → PeerUnique v'
  peer-Pushed ip w v (ok t) v' (fewer, limits, kept) (grown, same) u =
      Once-pushed i ip _ _ _ _ (grown ∙ ap (◌∷◌ ip) (stack_eq s laws w v stack_key kept))
        (Once-rows i ip _ _ _ (ap Peers.ips same.0) (fewer i)) u
  peer-Pushed ip w v (err e) v' (fewer, limits, kept) (grown, same) u =
      Once-dropped i ip _ _ _ _ (grown ∙ stack_eq s laws w v stack_key kept)
        (Once-rows i ip _ _ _ (ap Peers.ips same.0) (fewer i)) u

  peer-Removed :
      (w : World s.Memory) (r : Result ℕ) (v : World s.Memory)
      → PeerLaws.Removed s w (r, v)
      → PeerUnique w
      → PeerUnique
          (elim r as (λ x. Result ⊤ × World s.Memory) [
            | ok ip ↦ push_free_ip s ip stack_key v
            | err e ↦ (err e, v)
          ]).1
  peer-Removed w (ok ip) v removed u =
      peer-Pushed ip w v _ _ removed (push_free_ip-Pushed s laws ip stack_key v) u
  peer-Removed w (err e) v (kept, memory) u =
      Once-same i _ _ _ _ (stack_eq s laws w v stack_key memory) (ap Peers.ips kept) u

  -- If an address is at most once in wgpeer or on the stack of released addresses, it still is
  -- after the release of a peer, whatever the calls of the services answer.
  pub deallocate_ip-PeerUnique :
      (key : Text) (uid : ℕ) (w : World s.Memory)
      → PeerUnique w
      → PeerUnique (deallocate_ip s key uid w).1
  unfolding deallocate_ip
  deallocate_ip-PeerUnique key uid w u =
      peer-Removed w _ _ (PeerLaws.remove_peer-Removed s key uid w) u
