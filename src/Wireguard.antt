-- ===== src/Wireguard.antt =====
-- `WgOperations`, src/internal/wg/operations.go, and the handlers of src/cmd/wireguard_handler.go
-- that register and remove a device.
pub mod Interface
pub mod Devices
use kws.Prelude.{ℕ, Bool, false, Text, text_eq, List, [], ◌∷◌, not, if◌then◌else◌}
use kws.World.{
  peer_configured, peer-Removed, invalid_key, exited, call, now, attempt, M, Result, ok, err, pure,
  raise_if, try, ⊤, ◌>>=◌, ◌>>◌, Services, command,
}
use kws.Address.{IpAllocator}
use kws.Allocator.{allocate_free_ip, deallocate_ip}
use kws.Http.{Response, refused, answered, internal_server_error}

pub record ResponseBody : Type 0 where
  pub active : Bool
  pub ip : Text
  pub public_key : Text

-- What the interface knows of a key: whether its first peer has it and is recent.
abbrev pub recent_peer : Text → List (Text × Bool) → Bool
recent_peer key [] = false
recent_peer key ((k, recent) ∷ peers) = if text_eq k key then recent else recent_peer key peers

module _ (s : Services) where
  -- A key that does not parse ends the process.
  unfoldable pub is_online : Text → M s.Memory Bool
  unfolding call
  is_online key = do
    raise_if (not (s.parses key)) exited
    n ← now s
    call s
    pure (recent_peer (s.key_of key) (s.device n))

  abbrev pub shown : Result Bool → M s.Memory (Response Bool)
  shown (ok active) = pure (answered active)
  shown (err e) = pure (refused internal_server_error)

  -- The handler of the same name.
  unfoldable pub handle_is_online : Text → M s.Memory (Response Bool)
  unfolding is_online
  handle_is_online key = do active ← attempt (is_online key); shown active

module _ (s : Services) (a : IpAllocator) where
  unfoldable pub add_peer : ℕ → Text → M s.Memory Text
  unfolding command
  add_peer uid key = do
    raise_if (not (s.parses key)) invalid_key
    ip ← allocate_free_ip s a uid key
    command s (peer_configured key ip)
    pure ip

  -- The row goes and the address is released before the key is parsed.
  unfoldable pub remove_peer : Text → ℕ → M s.Memory ⊤
  unfolding command
  remove_peer key uid = do
    deallocate_ip s key uid
    raise_if (not (s.parses key)) invalid_key
    command s (peer-Removed key)

  abbrev pub registered : Text → Result Text → M s.Memory (Response ResponseBody)
  registered key (ok ip) = pure (answered (record { active = false; ip = ip; public_key = key }))
  registered key (err e) = pure (refused internal_server_error)

  -- A form that does not parse is only logged.
  unfoldable pub register_device : ℕ → Text → M s.Memory (Response ResponseBody)
  unfolding add_peer
  register_device uid key = do added ← try (add_peer uid key); registered key added

  abbrev pub removed : Result ⊤ → M s.Memory (Response ⊤)
  removed (ok _) = pure (answered tt)
  removed (err e) = pure (refused internal_server_error)

  unfoldable pub remove_device : ℕ → Text → M s.Memory (Response ⊤)
  unfolding remove_peer
  remove_device uid key = do gone ← try (remove_peer key uid); removed gone
