-- ===== src/Allocator/Leaks.antt =====
-- Addresses that go round, and addresses that are lost.
use kws.Prelude.{
  ℕ, ◌+◌, ◌≡◌, refl, ap, ◌∙◌, false, Text, text_eq, List, ◌∷◌, none, some, arith, select, count,
  exists, not, ◌||◌, ◌==◌,
}
use kws.Prelude.Int.{pos}
use kws.World.{World, Peer, wg_device_limit, stack_key, Result, ok, err, ⊤, Services, RedisLaws}
use kws.Address.{IpAllocator, generate_ip}
use kws.Peers
use kws.Peers.Laws.{remove_peer_found}
use kws.Peers.{owned_by, is_peer, first_ip}
use kws.Allocator.{popped, place_peer, allocate_free_ip, pop_free_ip, push_free_ip, deallocate_ip}
use kws.Allocator.Stack.{free, pop_replies, push_stores}

module _ (s : Services) (laws : RedisLaws s) where
  pop_front :
      (key : Text) (ip : ℕ) (rest : List ℕ) (w : World s.Memory)
      → s.fault w.tick ≡ none
      → free s laws key w ≡ ip ∷ rest
      → pop_free_ip s key w
        ≡ (ok ip, record w { tick = w.tick + 1; redis = (s.lpop w.redis key).1 })
  pop_front key ip rest w f e =
      pop_replies s laws key w f
      ∙ ap (λ r. (popped r, record w { tick = w.tick + 1; redis = (s.lpop w.redis key).1 }))
          (laws.lpop-cons w.redis key ip rest e).0

  place_full :
      (a : IpAllocator) (uid : ℕ) (key : Text) (ip : ℕ) (w : World s.Memory)
      → s.fault w.tick ≡ none
      → count (owned_by uid) w.peers ≡ 3
      → place_peer s a uid key (ok ip) w ≡ (err wg_device_limit, record w { tick = w.tick + 1 })
  unfolding place_peer Peers.add_peer
  place_full a uid key ip w f full = ground arith

  place_new :
      (a : IpAllocator) (uid : ℕ) (key : Text) (ip : ℕ) (w : World s.Memory)
      → s.fault w.tick ≡ none
      → s.fault (w.tick + 1) ≡ none
      → (count (owned_by uid) w.peers == 3) ≡ false
      → exists (λ p. text_eq p.public_key key || p.ip_address == ip) w.peers ≡ false
      → (place_peer s a uid key (ok ip) w).0 ≡ ok ip
  unfolding place_peer Peers.add_peer
  place_new a uid key ip w f g few new = ground (arith, f, g)

  abbrev print : Result ℕ × World s.Memory → Result Text × World s.Memory
  print (ok ip, v) = (ok (generate_ip (pos ip)), v)
  print (err e, v) = (err e, v)

  print_lem :
      (r : Result ℕ × World s.Memory)
      → (elim r.0 as (λ x. Result Text × World s.Memory) [
        | ok n ↦ (ok (generate_ip (pos n)), r.1)
        | err e ↦ (err e, r.1)
      ])
        ≡ print r
  print_lem (ok n, v) = refl
  print_lem (err e, v) = refl

  -- An allocation by the ways its pop and its placing end.
  allocate_via :
      (a : IpAllocator) (uid : ℕ) (key : Text) (w v : World s.Memory) (r : Result ℕ)
      → pop_free_ip s stack_key w ≡ (r, v)
      → allocate_free_ip s a uid key w ≡ print (place_peer s a uid key r v)
  unfolding allocate_free_ip
  allocate_via a uid key w v r p =
      print_lem (place_peer s a uid key (pop_free_ip s stack_key w).0 (pop_free_ip s stack_key w).1)
      ∙ ap (λ q. print (place_peer s a uid key q.0 q.1)) p

  print_ok :
      (ip : ℕ) (r : Result ℕ × World s.Memory)
      → r.0 ≡ ok ip
      → (print r).0 ≡ ok (generate_ip (pos ip))
  print_ok ip (ok n, v) e = ground arith
  print_ok ip (err x, v) e = cc

  -- When a user who has three devices asks for one more while a released address is at hand, and
  -- the first two calls go through, the answer is the limit error, no row is added, and the
  -- address is gone from the stack.
  pub allocate_free_ip_leaks :
      (a : IpAllocator) (uid : ℕ) (key : Text) (ip : ℕ) (rest : List ℕ) (w : World s.Memory)
      → s.fault w.tick ≡ none
      → s.fault (w.tick + 1) ≡ none
      → count (owned_by uid) w.peers ≡ 3
      → free s laws stack_key w ≡ ip ∷ rest
      → let (r, v) = allocate_free_ip s a uid key w in
        (r ≡ err wg_device_limit) × (v.peers ≡ w.peers) × (free s laws stack_key v ≡ rest)
  allocate_free_ip_leaks a uid key ip rest w f g full e =
      let p =
        allocate_via a uid key w v (ok ip) (pop_front stack_key ip rest w f e)
        ∙ ap print (place_full a uid key ip v g full) in
      (
        ap (λ q. q.0) p,
        ap (λ q. q.1.peers) p,
        ap (λ q. free s laws stack_key q.1) p ∙ (laws.lpop-cons w.redis stack_key ip rest e).1,
      )
    where
      v : World s.Memory
      v = record w { tick = w.tick + 1; redis = (s.lpop w.redis stack_key).1 }

  deallocate_via :
      (key : Text) (uid ip : ℕ) (w v : World s.Memory)
      → Peers.remove_peer s key uid w ≡ (ok ip, v)
      → deallocate_ip s key uid w ≡ push_free_ip s ip stack_key v
  unfolding deallocate_ip
  deallocate_via key uid ip w v p =
      ap
        (λ q. elim q.0 as (λ x. Result ⊤ × World s.Memory) [
          | ok n ↦ push_free_ip s n stack_key q.1
          | err e ↦ (err e, q.1)
        ])
        p

  -- The rows that the removal of a peer leaves.
  abbrev pub remaining : Text → ℕ → World s.Memory → List Peer
  remaining key uid w = select (λ p. not (is_peer key uid p)) w.peers

  -- If no call of a service fails, the address of a user's peer that has just been removed goes
  -- to the next peer, when the rows that are left have neither its key nor the address, and its
  -- user not three devices.
  pub allocate_free_ip-deallocate_ip :
      (a : IpAllocator) (uid uid' : ℕ) (key key' : Text) (ip : ℕ) (w : World s.Memory)
      → ((n : ℕ) → s.fault n ≡ none)
      → first_ip (select (is_peer key uid) w.peers) ≡ some ip
      → (count (owned_by uid') (remaining key uid w) == 3) ≡ false
      → exists (λ p. text_eq p.public_key key' || p.ip_address == ip) (remaining key uid w) ≡ false
      → (allocate_free_ip s a uid' key' (deallocate_ip s key uid w).1).0 ≡ ok (generate_ip (pos ip))
  allocate_free_ip-deallocate_ip a uid uid' key key' ip w calm found few new =
      ap (λ q. (allocate_free_ip s a uid' key' q.1).0)
        (deallocate_via key uid ip w removed (remove_peer_found s key uid ip w (calm w.tick) found)
          ∙ push_stores s laws ip stack_key removed (calm (w.tick + 1)))
      ∙ ap (λ q. q.0)
          (allocate_via a uid' key' pushed popped' (ok ip) (
            pop_front stack_key ip (free s laws stack_key w) pushed (calm (w.tick + 1 + 1))
              (laws.lpush-cons w.redis stack_key ip)))
      ∙ print_ok ip _ (place_new a uid' key' ip popped' (calm _) (calm _) few new)
    where
      removed : World s.Memory
      removed = record w {
        tick = w.tick + 1;
        peers = select (λ p. not (is_peer key uid p)) w.peers;
      }

      pushed : World s.Memory
      pushed = record removed { tick = w.tick + 1 + 1; redis = s.lpush w.redis stack_key ip }

      popped' : World s.Memory
      popped' = record pushed {
        tick = w.tick + 1 + 1 + 1;
        redis = (s.lpop pushed.redis stack_key).1;
      }
