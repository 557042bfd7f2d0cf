-- ===== src/Allocator/UniqueLxc.antt =====
-- The same for the addresses of instances, in the table userip and on their own stack.
use kws.Prelude.{
  ℕ, ◌+◌, ◌≤◌, ◌≡◌, refl, sym, ap, ◌∙◌, inl, inr, Bool, true, false, [], ◌∷◌, ◌++◌, occurrences,
}
use mathlib.Core.List.{map-append}
use kws.World.{World, lxc_ip, M, Result, ok, err, raise, ⊤, Services, RedisLaws}
use kws.Prelude.Int.{pos}
use kws.Address.{IpAllocator, find_no_of_usable_hosts_docker, generate_ip_lxc}
use kws.Instances
use kws.Instances.Ips as IpLaws
use kws.Allocator.{
  is_empty_stack, place_instance, allocate_free_lxc_ip, pop_free_ip, push_free_ip,
  deallocate_lxc_ip,
}
use kws.Allocator.Unique.{bind_state}
use kws.Allocator.Once.{
  Once-same, Once-lost, Once-added, Once-next, Once-pushed, Once-dropped, Once-rows,
}
use kws.Allocator.Stack.{free, stack_eq, Popped, Pushed, pop_free_ip-Popped, push_free_ip-Pushed}

module _ (s : Services) (laws : RedisLaws s) (i : ℕ) where
  -- The address is at most once in userip or on the stack of released addresses.
  abbrev pub InstanceUnique : World s.Memory → Type 0
  InstanceUnique w =
      occurrences i (free s laws lxc_ip w) + occurrences i (Instances.ips w.userips) ≤ 1

  -- A row is added for an address that was at the front of the stack.
  instance-Added :
      (uid ip : ℕ) (w v : World s.Memory) (r : Result ⊤) (v' : World s.Memory)
      → IpLaws.Added s uid ip v (r, v')
      → free s laws lxc_ip w ≡ ip ∷ free s laws lxc_ip v
      → v.userips ≡ w.userips
      → InstanceUnique w
      → InstanceUnique v'
  instance-Added uid ip w v (ok t) v' (grown, kept, few) front same u =
      Once-added i ip _ _ _ _ (front ∙ ap (◌∷◌ ip) (sym (stack_eq s laws v v' lxc_ip kept)))
        (ap Instances.ips grown ∙ map-append _ _ _ ∙ ap (λ ps. Instances.ips ps ++ ip ∷ []) same) u
  instance-Added uid ip w v (err e) v' (kept, memory) front same u =
      Once-lost i ip _ _ _ _ (front ∙ ap (◌∷◌ ip) (sym (stack_eq s laws v v' lxc_ip memory)))
        (ap Instances.ips (kept ∙ same)) u

  -- A row is added above all others while the stack is empty.
  instance_next :
      (limit uid : ℕ) (v : World s.Memory) (r : Result ℕ) (v' : World s.Memory)
      → IpLaws.NextFree s uid limit v (r, v')
      → free s laws lxc_ip v ≡ []
      → InstanceUnique v
      → InstanceUnique v'
  instance_next limit uid v (ok ip) v' (inl (grown, kept, next, fits)) empty u =
      Once-next i _ _ _ _ empty (stack_eq s laws v v' lxc_ip kept)
        (ap Instances.ips grown
          ∙ map-append _ _ _
          ∙ ap (λ n. Instances.ips v.userips ++ n ∷ []) next)
        u
  instance_next limit uid v (ok ip) v' (inr ((kept, memory), c)) empty u =
      Once-same i _ _ _ _ (stack_eq s laws v v' lxc_ip memory) (ap Instances.ips kept) u
  instance_next limit uid v (err e) v' (kept, memory) empty u =
      Once-same i _ _ _ _ (stack_eq s laws v v' lxc_ip memory) (ap Instances.ips kept) u

  place_instance-InstanceUnique :
      (a : IpAllocator) (uid : ℕ) (r : Result ℕ) (w v : World s.Memory)
      → Popped s laws lxc_ip w (r, v)
      → InstanceUnique w
      → InstanceUnique (place_instance s a uid r v).1
  unfolding place_instance
  place_instance-InstanceUnique a uid (ok ip) w v (front, same) u =
      rw (bind_state (Instances.add_ip s uid ip) (λ t. ip) v)
        (instance-Added uid ip w v _ _ (IpLaws.add_ip-Added s uid ip v) front same.1 u)
  place_instance-InstanceUnique a uid (err e) w v (kept, empty, same) u =
      branch (is_empty_stack e) empty
    where
      branch :
          (t : Bool)
          → (t ≡ true → free s laws lxc_ip w ≡ [])
          → InstanceUnique
              ((elim t as (λ x. M s.Memory ℕ) [
                | true ↦ Instances.allocate_next_free_ip s (find_no_of_usable_hosts_docker a) uid
                | false ↦ raise e
              ])
                v).1
      branch true h =
          instance_next (find_no_of_usable_hosts_docker a) uid v _ _
            (IpLaws.allocate_next_free_ip-NextFree s (find_no_of_usable_hosts_docker a) uid v)
            (kept ∙ h refl) (Once-same i _ _ _ _ kept (ap Instances.ips same.1) u)
      branch false h = Once-same i _ _ _ _ kept (ap Instances.ips same.1) u

  -- If an address is at most once in userip or on the stack of released addresses, it still is
  -- after an allocation for an instance, whatever the calls of the services answer.
  pub allocate_free_lxc_ip-InstanceUnique :
      (a : IpAllocator) (uid : ℕ) (w : World s.Memory)
      → InstanceUnique w
      → InstanceUnique (allocate_free_lxc_ip s a uid w).1
  unfolding allocate_free_lxc_ip
  allocate_free_lxc_ip-InstanceUnique a uid w u =
      rw
        (bind_state (place_instance s a uid (pop_free_ip s lxc_ip w).0)
          (λ ip. generate_ip_lxc (pos ip)) (pop_free_ip s lxc_ip w).1)
        (place_instance-InstanceUnique a uid _ w _ (pop_free_ip-Popped s laws lxc_ip w) u)

  -- The address of a removed row goes to the stack, or is dropped if the push fails.
  instance-Pushed :
      (ip : ℕ) (w v : World s.Memory) (r : Result ⊤) (v' : World s.Memory)
      → IpLaws.Removed s w (ok ip, v)
      → Pushed s laws lxc_ip ip v (r, v')
      → InstanceUnique w
      → InstanceUnique v'
  instance-Pushed ip w v (ok t) v' (fewer, kept) (grown, same) u =
      Once-pushed i ip _ _ _ _ (grown ∙ ap (◌∷◌ ip) (stack_eq s laws w v lxc_ip kept))
        (Once-rows i ip _ _ _ (ap Instances.ips same.1) (fewer i)) u
  instance-Pushed ip w v (err e) v' (fewer, kept) (grown, same) u =
      Once-dropped i ip _ _ _ _ (grown ∙ stack_eq s laws w v lxc_ip kept)
        (Once-rows i ip _ _ _ (ap Instances.ips same.1) (fewer i)) u

  instance-Removed :
      (w : World s.Memory) (r : Result ℕ) (v : World s.Memory)
      → IpLaws.Removed s w (r, v)
      → InstanceUnique w
      → InstanceUnique
          (elim r as (λ x. Result ⊤ × World s.Memory) [
            | ok ip ↦ push_free_ip s ip lxc_ip v
            | err e ↦ (err e, v)
          ]).1
  instance-Removed w (ok ip) v removed u =
      instance-Pushed ip w v _ _ removed (push_free_ip-Pushed s laws ip lxc_ip v) u
  instance-Removed w (err e) v (kept, memory) u =
      Once-same i _ _ _ _ (stack_eq s laws w v lxc_ip memory) (ap Instances.ips kept) u

  -- If an address is at most once in userip or on the stack of released addresses, it still is
  -- after the release of an instance's address, whatever the calls of the services answer.
  pub deallocate_lxc_ip-InstanceUnique :
      (uid : ℕ) (w : World s.Memory)
      → InstanceUnique w
      → InstanceUnique (deallocate_lxc_ip s uid w).1
  unfolding deallocate_lxc_ip
  deallocate_lxc_ip-InstanceUnique uid w u =
      instance-Removed w _ _ (IpLaws.remove_ip-Removed s uid w) u
