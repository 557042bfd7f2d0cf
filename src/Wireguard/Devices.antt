-- ===== src/Wireguard/Devices.antt =====
-- Requests of all users for their devices, one after the other.
use kws.Prelude.{ℕ, ◌≤◌, Bool, not, Text, List, [], ◌∷◌, count, arith}
use kws.World.{
  World, Event, peer_configured, peer-Removed, invalid_key, stack_key, M, Result, ok, err, pure,
  raise_if, try, ⊤, ◌>>=◌, Services, RedisLaws, call, command,
}
use kws.World.Frame.{Keeps, Keeps-bind}
use kws.Address.{IpAllocator}
use kws.Peers
use kws.Peers.Laws as PeerLaws
use kws.Allocator.{allocate_free_ip, deallocate_ip, push_free_ip}
use kws.Allocator.Unique.{PeerUnique, allocate_free_ip-PeerUnique, deallocate_ip-PeerUnique}
use kws.Allocator.Recorded.{allocate_free_ip-limit}
use kws.Wireguard.{add_peer, remove_peer, registered, removed, register_device, remove_device}

pub data Request : Type 0 where
  registers removes : ℕ → Text → Request

module _ (s : Services) (a : IpAllocator) where
  abbrev pub serve : Request → World s.Memory → World s.Memory
  serve (registers uid key) w = (register_device s a uid key w).1
  serve (removes uid key) w = (remove_device s a uid key w).1

  abbrev pub serve_all : List Request → World s.Memory → World s.Memory
  serve_all [] w = w
  serve_all (r ∷ rs) w = serve_all rs (serve r w)

module _ (s : Services) (u : ℕ) where
  Removed-limit :
      (w : World s.Memory) (r : Result ℕ × World s.Memory)
      → PeerLaws.Removed s w r
      → count (Peers.owned_by u) w.peers ≤ 3
      → count (Peers.owned_by u) r.1.peers ≤ 3
  Removed-limit w (ok ip, v) (fewer, limits, kept) h = omega (arith, limits u, h)
  Removed-limit w (err e, v) (kept, memory) h = rw kept h

  abbrev pub Limits : World s.Memory → World s.Memory → Type 0
  Limits w v = count (Peers.owned_by u) w.peers ≤ 3 → count (Peers.owned_by u) v.peers ≤ 3

  push-Limits : (ip : ℕ) → Keeps Limits (push_free_ip s ip stack_key)
  unfolding push_free_ip call
  push-Limits ip w = ground arith

  pub deallocate-Limits : (key : Text) (uid : ℕ) → Keeps Limits (deallocate_ip s key uid)
  unfolding deallocate_ip
  deallocate-Limits key uid =
      Keeps-bind Limits (λ w v x p q h. q (p h)) (Peers.remove_peer s key uid)
        (λ ip. push_free_ip s ip stack_key)
        (λ w.
          Removed-limit w (Peers.remove_peer s key uid w)
            (PeerLaws.remove_peer-Removed s key uid w))
        push-Limits

module _ (s : Services) (laws : RedisLaws s) (i u : ℕ) where
  -- The address is held at most once, and the user has at most three devices.
  abbrev pub Sound : World s.Memory → Type 0
  Sound w = PeerUnique s laws i w × (count (Peers.owned_by u) w.peers ≤ 3)

  abbrev Carries : World s.Memory → World s.Memory → Type 0
  Carries w v = Sound w → Sound v

  bind :
      {A B : Type 0} (m : M s.Memory A) (f : A → M s.Memory B)
      → Keeps Carries m
      → ((x : A) → Keeps Carries (f x))
      → Keeps Carries (m >>= f)
  bind = Keeps-bind Carries (λ w v x p q h. q (p h))

  command-Carries : (e : Event) → Keeps Carries (command s e)
  unfolding command call
  command-Carries e w = ground arith

  parse-Carries : (b : Bool) → Keeps Carries (raise_if b invalid_key)
  parse-Carries b w h = h

  allocate-Carries :
      (a : IpAllocator) (uid : ℕ) (key : Text) → Keeps Carries (allocate_free_ip s a uid key)
  allocate-Carries a uid key w (h, k) = (
    allocate_free_ip-PeerUnique s laws i a uid key w h,
    allocate_free_ip-limit s laws uid key a u w k,
  )

  add_peer-Carries : (a : IpAllocator) (uid : ℕ) (key : Text) → Keeps Carries (add_peer s a uid key)
  unfolding add_peer
  add_peer-Carries a uid key =
      bind (raise_if (not (s.parses key)) invalid_key)
        (λ _. allocate_free_ip s a uid key >>= λ ip.
          (command s (peer_configured key ip) >>= λ _. pure ip))
        (parse-Carries (not (s.parses key)))
        λ _.
          bind (allocate_free_ip s a uid key)
            (λ ip. command s (peer_configured key ip) >>= λ _. pure ip) (allocate-Carries a uid key)
            λ ip.
              bind (command s (peer_configured key ip)) (λ _. pure ip)
                (command-Carries (peer_configured key ip)) λ _ w h. h

  remove_peer-Carries :
      (a : IpAllocator) (key : Text) (uid : ℕ) → Keeps Carries (remove_peer s a key uid)
  unfolding remove_peer
  remove_peer-Carries a key uid =
      bind (deallocate_ip s key uid)
        (λ _. raise_if (not (s.parses key)) invalid_key >>= λ _. command s (peer-Removed key))
        (λ w (h, k).
          (deallocate_ip-PeerUnique s laws i key uid w h, deallocate-Limits s u key uid w k))
        λ _.
          bind (raise_if (not (s.parses key)) invalid_key) (λ _. command s (peer-Removed key))
            (parse-Carries (not (s.parses key))) λ _. command-Carries (peer-Removed key)

  serve-Carries : (a : IpAllocator) (r : Request) (w : World s.Memory) → Carries w (serve s a r w)
  unfolding register_device remove_device
  serve-Carries a (registers uid key) =
      bind (try (add_peer s a uid key)) (registered s a key) (add_peer-Carries a uid key) by_result
    where
      by_result : (r : Result Text) → Keeps Carries (registered s a key r)
      by_result (ok ip) w h = h
      by_result (err e) w h = h
  serve-Carries a (removes uid key) =
      bind (try (remove_peer s a key uid)) (removed s a) (remove_peer-Carries a key uid) by_result
    where
      by_result : (r : Result ⊤) → Keeps Carries (removed s a r)
      by_result (ok t) w h = h
      by_result (err e) w h = h

  -- Whatever devices any users register and remove one after the other, and whatever the calls of
  -- the services answer: an address that is at most once in wgpeer or on the stack of released
  -- addresses still is, and a user with at most three devices still has no more.
  pub serve_all-Sound :
      (a : IpAllocator) (rs : List Request) (w : World s.Memory)
      → Sound w
      → Sound (serve_all s a rs w)
  serve_all-Sound a [] w h = h
  serve_all-Sound a (r ∷ rs) w h = serve_all-Sound a rs (serve s a r w) (serve-Carries a r w h)
