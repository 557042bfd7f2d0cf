-- ===== src/Allocator.antt =====
-- The state-changing methods of `IPAllocator`, src/internal/wg/ip_allocator.go, and the stack of
-- released addresses, `PushFreeIp` and `PopFreeIp` of src/internal/store/redis.go.
pub mod Stack
pub mod Once
pub mod Unique
pub mod UniqueLxc
pub mod Recorded
pub mod Leaks
use kws.Prelude.{ℕ, Bool, true, false, Text}
use kws.Prelude.Int.{pos}
use kws.World.{
  World, Error, empty_ip_stack, not_a_number, stack_key, lxc_ip, M, Result, ok, err, pure, raise,
  modify, try, ⊤, ◌>>=◌, ◌>>◌, Services, Reply, nil, garbled, number, call,
}
use kws.Address.{
  IpAllocator, find_no_of_usable_hosts, find_no_of_usable_hosts_docker, generate_ip,
  generate_ip_lxc,
}
use kws.Peers
use kws.Instances

-- LPOP's `redis.Nil`, a text that strconv.Atoi refuses, or the number.
abbrev pub popped : Reply → Result ℕ
popped nil = err empty_ip_stack
popped garbled = err not_a_number
popped (number n) = ok n

abbrev pub is_empty_stack : Error → Bool
is_empty_stack empty_ip_stack = true
is_empty_stack _ = false

module _ (s : Services) where
  unfoldable pub push_free_ip : ℕ → Text → M s.Memory ⊤
  unfolding call
  push_free_ip ip key = do call s; modify (λ w. record w { redis = s.lpush w.redis key ip })

  abbrev take_reply : Text → M s.Memory ℕ
  take_reply key w =
      let (reply, memory) = s.lpop w.redis key in (popped reply, record w { redis = memory })

  unfoldable pub pop_free_ip : Text → M s.Memory ℕ
  unfolding call
  pop_free_ip key = do call s; take_reply key

  -- By how the pop ended: a released address is recorded, an empty stack asks the database.
  unfoldable pub place_peer : IpAllocator → ℕ → Text → Result ℕ → M s.Memory ℕ
  place_peer a uid key (ok ip) = do Peers.add_peer s uid key ip; pure ip
  place_peer a uid key (err e) = elim (is_empty_stack e) [
    | true ↦ Peers.allocate_next_free_ip s (find_no_of_usable_hosts a) uid key
    | false ↦ raise e
  ]

  unfoldable pub allocate_free_ip : IpAllocator → ℕ → Text → M s.Memory Text
  unfolding pop_free_ip place_peer
  allocate_free_ip a uid key = do
    released ← try (pop_free_ip stack_key)
    ip ← place_peer a uid key released
    pure (generate_ip (pos ip))

  unfoldable pub place_instance : IpAllocator → ℕ → Result ℕ → M s.Memory ℕ
  place_instance a uid (ok ip) = do Instances.add_ip s uid ip; pure ip
  place_instance a uid (err e) = elim (is_empty_stack e) [
    | true ↦ Instances.allocate_next_free_ip s (find_no_of_usable_hosts_docker a) uid
    | false ↦ raise e
  ]

  unfoldable pub allocate_free_lxc_ip : IpAllocator → ℕ → M s.Memory Text
  unfolding pop_free_ip place_instance
  allocate_free_lxc_ip a uid = do
    released ← try (pop_free_ip lxc_ip)
    ip ← place_instance a uid released
    pure (generate_ip_lxc (pos ip))

  unfoldable pub deallocate_ip : Text → ℕ → M s.Memory ⊤
  unfolding push_free_ip
  deallocate_ip key uid = do ip ← Peers.remove_peer s key uid; push_free_ip ip stack_key

  unfoldable pub deallocate_lxc_ip : ℕ → M s.Memory ⊤
  unfolding push_free_ip
  deallocate_lxc_ip uid = do ip ← Instances.remove_ip s uid; push_free_ip ip lxc_ip
