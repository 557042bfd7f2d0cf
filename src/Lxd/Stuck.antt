-- ===== src/Lxd/Stuck.antt =====
-- Failures of LXD that no retry gets over: the address of the user stays behind, or is gone.
use kws.Prelude.{
  ℕ, ◌+◌, ◌≡◌, refl, Bool, true, false, Text, text_eq, none, arith, exists, highest, Bool-cases,
  inl, inr,
}
use kws.World.{
  World, Error, unique_violation, host_exhaustion, lxc_ip, M, Result, ok, err, raise, Services,
  call,
}
use kws.Prelude.Int.{pos}
use kws.Address.{IpAllocator, find_no_of_usable_hosts_docker, generate_ip_lxc}
use kws.Instances
use kws.Instances.{ip_of_user, add_ip}
use kws.Allocation.{allocate_loop, transact, after_round, is_conflict, over_limit, next_ip}
use kws.Allocator.{place_instance, allocate_free_lxc_ip, pop_free_ip, is_empty_stack}
use kws.Lxd.{create_instance, container_exists}

abbrev pub is_err : {A : Type 0} → Result A → Bool
is_err (ok a) = false
is_err (err e) = true

module _ (s : Services) (uid : ℕ) where
  abbrev pub Holds : World s.Memory → Type 0
  Holds w = exists (ip_of_user uid) w.userips ≡ true

  -- An error, and the user still has the row.
  abbrev pub Refused : {A : Type 0} → Result A × World s.Memory → Type 0
  Refused (r, v) = (is_err r ≡ true) × Holds v

module _ (s : Services) (calm : (n : ℕ) → s.fault n ≡ none) (uid : ℕ) where
  add_ip-Refused :
      (ip : ℕ) (w : World s.Memory)
      → Holds s uid w
      → add_ip s uid ip w ≡ (err unique_violation, record w { tick = w.tick + 1 })
  unfolding add_ip
  add_ip-Refused ip w h = ground (arith, calm w.tick)

  -- One round of the loop ends it.
  transact-Refused :
      (limit ip : ℕ) (w : World s.Memory)
      → Holds s uid w
      → (e : Error) × (i : ℕ) × (t : ℕ) × (is_conflict e ≡ false)
        × (transact s (λ v. highest (Instances.ips v.userips)) (add_ip s uid) limit ip w
            ≡ (ok (i, err e), record w { tick = t }))
  unfolding transact add_ip
  transact-Refused limit ip w h =
      elim (Bool-cases (over_limit (highest (Instances.ips w.userips)) limit)) [
        | inl over ↦ (
          host_exhaustion,
          next_ip (highest (Instances.ips w.userips)),
          w.tick + 1,
          refl,
          ground (arith, calm w.tick),
        )
        | inr fits ↦ (
          unique_violation,
          next_ip (highest (Instances.ips w.userips)),
          w.tick + 1 + 1,
          refl,
          ground (arith, calm w.tick, calm (w.tick + 1)),
        )
      ]

  loop_ends :
      (limit i : ℕ) (e : Error) (w v : World s.Memory)
      → is_conflict e ≡ false
      → transact s
          (λ u. highest (Instances.ips u.userips))
          (add_ip s uid)
          limit
          0
          (record w { tick = w.tick + 1 })
        ≡ (ok (i, err e), v)
      → Instances.allocate_next_free_ip s limit uid w ≡ (err e, v)
  unfolding Instances.allocate_next_free_ip allocate_loop after_round call
  loop_ends limit i e w v c p = grind (arith, calm w.tick)

  allocate_next-Refused :
      (limit : ℕ) (w : World s.Memory)
      → Holds s uid w
      → Refused s uid (Instances.allocate_next_free_ip s limit uid w)
  allocate_next-Refused limit w h =
      let (e, i, t, c, p) = transact-Refused limit 0 (record w { tick = w.tick + 1 }) h in
      rw (loop_ends limit i e w _ c p) (refl, h)

  place_instance-Refused :
      (a : IpAllocator) (r : Result ℕ) (w : World s.Memory)
      → Holds s uid w
      → Refused s uid (place_instance s a uid r w)
  unfolding place_instance
  place_instance-Refused a (ok ip) w h = grind (arith, add_ip-Refused ip w h)
  place_instance-Refused a (err e) w h = branch (is_empty_stack e)
    where
      branch :
          (b : Bool)
          → Refused s uid (
              (elim b as (λ x. M s.Memory ℕ) [
                | true ↦ Instances.allocate_next_free_ip s (find_no_of_usable_hosts_docker a) uid
                | false ↦ raise e
              ])
                w)
      branch true = allocate_next-Refused (find_no_of_usable_hosts_docker a) w h
      branch false = (refl, h)

  pop-Holds :
      (key : Text) (w : World s.Memory) → Holds s uid w → Holds s uid (pop_free_ip s key w).1
  unfolding pop_free_ip
  pop-Holds key w h = ground (arith, calm w.tick)

  Refused-then :
      {A B : Type 0} (f : A → B) (r : Result A × World s.Memory)
      → Refused s uid r
      → Refused s uid (elim r.0 as (λ x. Result B × World s.Memory) [
        | ok x ↦ (ok (f x), r.1)
        | err e ↦ (err e, r.1)
      ])
  Refused-then f (ok x, v) (e, h) = cc
  Refused-then f (err e, v) h = h

  allocate-Refused :
      (a : IpAllocator) (w : World s.Memory)
      → Holds s uid w
      → Refused s uid (allocate_free_lxc_ip s a uid w)
  unfolding allocate_free_lxc_ip
  allocate-Refused a w h =
      Refused-then (λ ip. generate_ip_lxc (pos ip)) (place_instance s a uid _ _)
        (place_instance-Refused a (pop_free_ip s lxc_ip w).0 (pop_free_ip s lxc_ip w).1
          (pop-Holds lxc_ip w h))

  -- If a user has an address in userip and LXD lists no container of the name, creating the
  -- container fails and the user still has an address, though no call of a service fails.
  pub create_instance-Refused :
      (a : IpAllocator) (name : Text) (w : World s.Memory)
      → Holds s uid w
      → exists (λ c. text_eq c name) (s.containers w.tick) ≡ false
      → Refused s uid (create_instance s a name uid w)
  unfolding create_instance container_exists call
  create_instance-Refused a name w h absent =
      grind (arith, calm w.tick, allocate-Refused a (record w { tick = w.tick + 1 }) h)
