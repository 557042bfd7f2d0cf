-- ===== src/Routes/Carried/Devices.antt =====
-- A registration and a removal of a device.
use kws.Prelude.{ℕ, ◌≡◌, refl, ◌∙◌, Bool, true, false, not, Text, highest, arith}
use kws.World.{
  World, peer_configured, peer-Removed, invalid_key, wg_device_limit, M, Result, ok, err, pure,
  raise, raise_if, try, ⊤, ◌>>=◌, Services, RedisLaws, command, call,
}
use kws.World.Frame.{Keeps, Keeps-bind}
use kws.Address.{IpAllocator, find_no_of_usable_hosts}
use kws.Allocation.{allocate_loop}
use kws.Allocation.Frame.{loop-Keeps}
use kws.Allocator.{is_empty_stack, place_peer, allocate_free_ip, deallocate_ip}
use kws.Allocator.Recorded.{allocate_free_ip-limit}
use kws.Peers
use kws.Wireguard.{add_peer, remove_peer, registered, removed, register_device, remove_device}
use kws.Wireguard.Devices.{deallocate-Limits}
use kws.Untouched.{command-IsSame, pop_free_ip-IsSame, push_free_ip-IsSame}
use kws.Routes.Carried.Base.{Carries, bind, same}

module _ (s : Services) where
  -- All of these tables but the devices' own are as before.
  abbrev Rest : World s.Memory → World s.Memory → Type 0
  Rest w v = (v.users ≡ w.users) × (v.pg_users ≡ w.pg_users) × (v.instances ≡ w.instances)

  Rest-trans : (u v w : World s.Memory) → Rest u v → Rest v w → Rest u w
  Rest-trans u v w (a, b, c) (d, e, f) = (d ∙ a, e ∙ b, f ∙ c)

  insert_peer-Rest : (uid : ℕ) (key : Text) (ip : ℕ) → Keeps Rest (Peers.insert_peer s uid key ip)
  unfolding Peers.insert_peer call
  insert_peer-Rest uid key ip w = ground arith

  hit_max_limit-Rest : (uid : ℕ) → Keeps Rest (Peers.hit_max_limit s uid)
  unfolding Peers.hit_max_limit call
  hit_max_limit-Rest uid w = ground arith

  row_added-Rest : (uid : ℕ) (key : Text) (ip : ℕ) → Keeps Rest (Peers.add_peer s uid key ip)
  unfolding Peers.add_peer call
  row_added-Rest uid key ip w = grind (arith, hit_max_limit-Rest, insert_peer-Rest)

  allocate_next_free_ip-Rest :
      (limit uid : ℕ) (key : Text) → Keeps Rest (Peers.allocate_next_free_ip s limit uid key)
  unfolding Peers.allocate_next_free_ip
  allocate_next_free_ip-Rest limit uid key =
      Keeps-bind Rest Rest-trans (Peers.hit_max_limit s uid)
        (λ hit. raise_if hit wg_device_limit >>= λ _. loop) (hit_max_limit-Rest uid)
        λ hit.
          Keeps-bind Rest Rest-trans (raise_if hit wg_device_limit) (λ _. loop)
            (λ w. (refl, refl, refl))
            λ _.
              loop-Keeps s (λ w. highest (Peers.ips w.peers)) (Peers.insert_peer s uid key) limit
                Rest Rest-trans (λ w t. (refl, refl, refl)) (insert_peer-Rest uid key) 5 0
    where
      loop : M s.Memory ℕ
      loop =
          allocate_loop s (λ w. highest (Peers.ips w.peers)) (Peers.insert_peer s uid key) limit 5 0

  place_peer-Rest :
      (a : IpAllocator) (uid : ℕ) (key : Text) (r : Result ℕ)
      → Keeps Rest (place_peer s a uid key r)
  unfolding place_peer
  place_peer-Rest a uid key (ok ip) w = grind (arith, row_added-Rest)
  place_peer-Rest a uid key (err e) w = branch (is_empty_stack e)
    where
      branch :
          (b : Bool)
          → Rest w
              ((elim b as (λ x. M s.Memory ℕ) [
                | true ↦ Peers.allocate_next_free_ip s (find_no_of_usable_hosts a) uid key
                | false ↦ raise e
              ])
                w).1
      branch true = allocate_next_free_ip-Rest (find_no_of_usable_hosts a) uid key w
      branch false = (refl, refl, refl)

  allocate_free_ip-Rest :
      (a : IpAllocator) (uid : ℕ) (key : Text) → Keeps Rest (allocate_free_ip s a uid key)
  unfolding allocate_free_ip
  allocate_free_ip-Rest a uid key w = grind (arith, pop_free_ip-IsSame s, place_peer-Rest)

  row_removed-Rest : (key : Text) (uid : ℕ) → Keeps Rest (Peers.remove_peer s key uid)
  unfolding Peers.remove_peer
  row_removed-Rest key uid w = ground arith

  deallocate_ip-Rest : (key : Text) (uid : ℕ) → Keeps Rest (deallocate_ip s key uid)
  unfolding deallocate_ip
  deallocate_ip-Rest key uid w = grind (arith, row_removed-Rest, push_free_ip-IsSame s)

module _ (s : Services) (k : ℕ) where
  parse-Carries : (b : Bool) → Keeps (Carries s k) (raise_if b invalid_key)
  parse-Carries b w = (λ h. h, λ u h. h)

  deallocate-Carries : (key : Text) (uid : ℕ) → Keeps (Carries s k) (deallocate_ip s key uid)
  deallocate-Carries key uid w =
      let (users, roles, instances) = deallocate_ip-Rest s key uid w in
      (
        λ h. (deallocate-Limits s k key uid w h.0, rw roles h.1, rw instances h.2),
        λ u h. rw users h,
      )

  remove_peer-Carries :
      (a : IpAllocator) (key : Text) (uid : ℕ) → Keeps (Carries s k) (remove_peer s a key uid)
  unfolding remove_peer
  remove_peer-Carries a key uid =
      bind s k (deallocate_ip s key uid)
        (λ _. raise_if (not (s.parses key)) invalid_key >>= λ _. command s (peer-Removed key))
        (deallocate-Carries key uid)
        λ _.
          bind s k (raise_if (not (s.parses key)) invalid_key) (λ _. command s (peer-Removed key))
            (parse-Carries (not (s.parses key)))
            λ _. same s k (command s (peer-Removed key)) (command-IsSame s (peer-Removed key) refl)

  pub remove_device-Carries :
      (a : IpAllocator) (uid : ℕ) (key : Text) → Keeps (Carries s k) (remove_device s a uid key)
  unfolding remove_device
  remove_device-Carries a uid key =
      bind s k (try (remove_peer s a key uid)) (removed s a) (remove_peer-Carries a key uid)
        by_result
    where
      by_result : (r : Result ⊤) → Keeps (Carries s k) (removed s a r)
      by_result (ok t) w = (λ h. h, λ u h. h)
      by_result (err e) w = (λ h. h, λ u h. h)

module _ (s : Services) (laws : RedisLaws s) (k : ℕ) where
  allocate-Carries :
      (a : IpAllocator) (uid : ℕ) (key : Text) → Keeps (Carries s k) (allocate_free_ip s a uid key)
  allocate-Carries a uid key w =
      let (users, roles, instances) = allocate_free_ip-Rest s a uid key w in
      (
        λ h. (allocate_free_ip-limit s laws uid key a k w h.0, rw roles h.1, rw instances h.2),
        λ u h. rw users h,
      )

  add_peer-Carries :
      (a : IpAllocator) (uid : ℕ) (key : Text) → Keeps (Carries s k) (add_peer s a uid key)
  unfolding add_peer
  add_peer-Carries a uid key =
      bind s k (raise_if (not (s.parses key)) invalid_key)
        (λ _. allocate_free_ip s a uid key >>= λ ip.
          (command s (peer_configured key ip) >>= λ _. pure ip))
        (parse-Carries s k (not (s.parses key)))
        λ _.
          bind s k (allocate_free_ip s a uid key)
            (λ ip. command s (peer_configured key ip) >>= λ _. pure ip) (allocate-Carries a uid key)
            λ ip.
              bind s k (command s (peer_configured key ip)) (λ _. pure ip)
                (same s k (command s (peer_configured key ip))
                  (command-IsSame s (peer_configured key ip) refl))
                λ _ w. (λ h. h, λ u h. h)

  pub register_device-Carries :
      (a : IpAllocator) (uid : ℕ) (key : Text) → Keeps (Carries s k) (register_device s a uid key)
  unfolding register_device
  register_device-Carries a uid key =
      bind s k (try (add_peer s a uid key)) (registered s a key) (add_peer-Carries a uid key)
        by_result
    where
      by_result : (r : Result Text) → Keeps (Carries s k) (registered s a key r)
      by_result (ok ip) w = (λ h. h, λ u h. h)
      by_result (err e) w = (λ h. h, λ u h. h)
