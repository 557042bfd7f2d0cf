-- ===== src/Start.antt =====
-- The start of the process, `main` of src/cmd/main.go, up to the consumers and the server.
pub mod Channels
use kws.Prelude.{
  ℕ, Bool, true, false, Text, codes, List, [], ◌∷◌, Option, none, some, if◌then◌else◌,
}
use kws.World.{
  Error, interface_already_exists, exited, nil_dereference, M, Result, ok, err, pure, raise, modify,
  attempt, ⊤, ◌>>=◌, ◌>>◌, Services, call,
}
use kws.Queue.{Mq, get_free_channel, create_channel_pool, connect_to_mq, declare_queue}
use kws.Lxd.Boot.{pull_ubuntu_image, create_bridge_network, create_dir_storage_pool}
use kws.Wireguard.Interface.{create_interface_wg_main, configure_wireguard, set_forward_bit_to_one}

abbrev pub pool_size : ℕ
pool_size = 32

-- The queues that `main` makes, `Application.Mq`.
abbrev pub app_mq : Mq
app_mq = record { has_instance_queue = true; has_tunnel_queue = true }

abbrev pub storage_pool : Text
storage_pool = codes "kws"

abbrev pub is_present : Error → Bool
is_present interface_already_exists = true
is_present _ = false

module _ (s : Services) where
  abbrev pub or_exit : {A : Type 0} → Result A → M s.Memory A
  or_exit (ok a) = pure a
  or_exit (err e) = raise exited

  -- Go's `if err != nil { log.Fatal(...) }`.
  abbrev pub fatal : {A : Type 0} → M s.Memory A → M s.Memory A
  fatal m = attempt m >>= or_exit

  -- Such steps one after the other.
  abbrev pub fatal_all : List (M s.Memory ⊤) → M s.Memory ⊤
  fatal_all [] = pure tt
  fatal_all (m ∷ ms) = fatal m >> fatal_all ms

  -- A queue, declared on a channel that goes back to the pool.
  unfoldable pub declare : M s.Memory ⊤
  unfolding get_free_channel declare_queue
  declare = get_free_channel s >>= λ ch. fatal (declare_queue s pool_size ch)

  -- `CreateConsumer`, which keeps its channel.
  abbrev pub consume_on : Option ℕ → M s.Memory ⊤
  unfolding call
  consume_on none = raise nil_dereference
  consume_on (some ch) = call s

  unfoldable pub create_consumer : M s.Memory ⊤
  unfolding get_free_channel
  create_consumer = get_free_channel s >>= λ ch. fatal (consume_on ch)

  -- For the instances and for the tunnels: the main queue, the retry queue, and the consumer.
  unfoldable pub queues : M s.Memory ⊤
  unfolding declare create_consumer
  queues = declare >> (declare >> create_consumer)

  unfoldable pub open_pool : M s.Memory ⊤
  open_pool = fatal (create_channel_pool s pool_size) >>= λ channels.
      modify (λ w. record w { pool = channels })

  -- An interface that is there already is left.
  abbrev pub unless_present : Result ⊤ → M s.Memory ⊤
  unless_present (ok _) = pure tt
  unless_present (err e) = if is_present e then pure tt else raise e

  abbrev pub create_interface : M s.Memory ⊤
  unfolding create_interface_wg_main
  create_interface = attempt (create_interface_wg_main s) >>= unless_present

  -- The Docker daemon, by its client and a ping, and RabbitMQ.
  abbrev pub connections : List (M s.Memory ⊤)
  connections = (call s >> call s) ∷ connect_to_mq s 10 (ok tt) ∷ []

  -- The database with its pool, WireGuard, the Postgres service and LXD; then the image, the bridge, the
  -- storage pool, and the kernel's interface.
  abbrev pub stores : Text → List (M s.Memory ⊤)
  stores private_key =
      call s
      ∷ call s
      ∷ call s
      ∷ call s
      ∷ call s
      ∷ pull_ubuntu_image s
      ∷ create_bridge_network s
      ∷ create_dir_storage_pool s storage_pool
      ∷ create_interface
      ∷ configure_wireguard s private_key
      ∷ set_forward_bit_to_one s
      ∷ []

  unfoldable pub start : Text → M s.Memory ⊤
  unfolding open_pool queues
  start private_key =
      fatal_all connections >> (open_pool >> (queues >> (queues >> fatal_all (stores private_key))))
