-- ===== src/Peers.antt =====
-- `WireguardStore`, src/internal/store/wg.go: the table wgpeer.
pub mod Laws
pub mod Phantom
use kws.Prelude.{
  ℕ, Bool, Text, text_eq, List, [], ◌∷◌, ◌++◌, Option, none, some, map, not, ◌&&◌, ◌||◌, ◌==◌,
  select, count, exists, highest,
}
use kws.World.{
  World, Peer, Error, peer_does_not_exist, wg_device_limit, unique_violation,
  max_wg_devices_per_user, M, Result, pure, raise, gets, modify, raise_if, ⊤, ◌>>=◌, ◌>>◌, Services,
  call,
}
use kws.Allocation.{allocate_loop}

abbrev pub owned_by : ℕ → Peer → Bool
owned_by uid p = p.user_id == uid

abbrev pub ips : List Peer → List ℕ
ips = map (λ p. p.ip_address)

-- The rows that `WHERE public_key = $1 AND user_id = $2` selects.
abbrev pub is_peer : Text → ℕ → Peer → Bool
is_peer key uid p = text_eq p.public_key key && p.user_id == uid

-- The address of the first row, which `QueryRow(...).Scan` reads.
abbrev pub first_ip : List Peer → Option ℕ
first_ip [] = none
first_ip (p ∷ ps) = some p.ip_address

module _ (s : Services) where
  unfoldable pub get_devices : ℕ → M s.Memory (List Peer)
  unfolding call
  get_devices uid = do call s; gets (λ w. select (owned_by uid) w.peers)

  unfoldable pub hit_max_limit : ℕ → M s.Memory Bool
  unfolding call
  hit_max_limit uid = do call s; gets (λ w. count (owned_by uid) w.peers == max_wg_devices_per_user)

  -- `INSERT INTO wgpeer`, where public_key and ip_address are UNIQUE.
  unfoldable pub insert_peer : ℕ → Text → ℕ → M s.Memory ⊤
  unfolding call
  insert_peer uid key ip = do
    call s
    taken ← gets (λ w. exists (λ p. text_eq p.public_key key || p.ip_address == ip) w.peers)
    raise_if taken unique_violation
    modify (λ w. record w {
      peers = w.peers ++ record { user_id = uid; public_key = key; ip_address = ip } ∷ [];
    })

  unfoldable pub add_peer : ℕ → Text → ℕ → M s.Memory ⊤
  unfolding hit_max_limit insert_peer
  add_peer uid key ip = do
    max_hit ← hit_max_limit uid
    raise_if max_hit wg_device_limit
    insert_peer uid key ip

  unfoldable pub remove_peer : Text → ℕ → M s.Memory ℕ
  unfolding call
  remove_peer key uid = do
    call s
    found ← gets (λ w. first_ip (select (is_peer key uid) w.peers))
    modify (λ w. record w { peers = select (λ p. not (is_peer key uid p)) w.peers })
    elim found [ none ↦ raise peer_does_not_exist | some ip ↦ pure ip ]

  unfoldable pub allocate_next_free_ip : ℕ → ℕ → Text → M s.Memory ℕ
  unfolding hit_max_limit
  allocate_next_free_ip max_host_number uid key = do
    max_hit ← hit_max_limit uid
    raise_if max_hit wg_device_limit
    allocate_loop s (λ w. highest (ips w.peers)) (insert_peer uid key) max_host_number 5 0
