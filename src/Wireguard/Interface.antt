-- ===== src/Wireguard/Interface.antt =====
-- The set-up of the kernel's interface: `SetForwardBitToOne`, `CreateInterfaceWgMain` and
-- `ConfigureWireguard` of src/internal/wg/operations.go.
use kws.Prelude.{Bool, false, Text, text_eq, codes, exists, not}
use kws.World.{
  link_added, address_added, link_set_up, device_configured, forward_bit_set,
  interface_already_exists, invalid_key, M, ok, err, pure, raise_if, try, ⊤, ◌>>=◌, ◌>>◌, Services,
  call, command, now,
}

abbrev pub interface_name : Text
interface_name = codes "wg0"

module _ (s : Services) where
  unfoldable pub set_forward_bit_to_one : M s.Memory ⊤
  unfolding command
  set_forward_bit_to_one = command s forward_bit_set

  -- A list that cannot be read counts like one without the name.
  unfoldable pub interface_exists : Text → M s.Memory Bool
  unfolding call
  interface_exists name = do
    n ← now s
    asked ← try (call s)
    elim asked [ err e ↦ pure false | ok _ ↦ pure (exists (λ l. text_eq l name) (s.links n)) ]

  -- The address of the interface is a constant, which parses.
  unfoldable pub create_interface_wg_main : M s.Memory ⊤
  unfolding command interface_exists
  create_interface_wg_main = do
    found ← interface_exists interface_name
    raise_if found interface_already_exists
    command s link_added
    command s address_added
    command s link_set_up

  unfoldable pub configure_wireguard : Text → M s.Memory ⊤
  unfolding command
  configure_wireguard private_key = do
    raise_if (not (s.parses private_key)) invalid_key
    command s device_configured
