-- ===== src/Tests/Addresses.antt =====
-- The addresses of concrete devices and instances, and the names of instances.
use kws.Prelude.{
  ℕ, ◌+◌, ◌*◌, ◌%◌, ◌≤◌, ◌<◌, ◌≡◌, refl, ◌↔◌, Text, text_eq, codes, [], ◌∷◌, Option, none, some,
  arith, length, All, ◌==◌, ltb, ◌&&◌, if◌then◌else◌,
}
use kws.Prelude.Int.{pos}
use kws.World.{
  World, Fault, conflict, Services, RedisLaws, wg_device_limit, stack_key, lxc_ip, ok, err,
}
use kws.Address.{IpAllocator, generate_ip, generate_ip_lxc, dotted_10}
use kws.Address.Laws.{generate_ip_digits, generate_ip_injective, generate_ip_lxc_eq}
use kws.Names.{create_instance_type}
use kws.Names.Laws.{
  IsNameLetter, create_instance_type_lengths, container_name_letters, container_name_injective,
}
use kws.Peers.{allocate_next_free_ip}
use kws.Peers.Laws.{row}
use kws.Peers.Phantom.{allocate_next_free_ip_phantom}
use kws.Allocator.{allocate_free_ip, deallocate_ip, allocate_free_lxc_ip}
use kws.Allocator.Unique.{PeerUnique, allocate_free_ip-PeerUnique}
use kws.Allocator.UniqueLxc.{InstanceUnique, allocate_free_lxc_ip-InstanceUnique}
use kws.Allocator.Recorded.{Recorded, allocate_free_ip-Recorded}
use kws.Allocator.Leaks.{allocate_free_ip_leaks, allocate_free_ip-deallocate_ip}
use kws.Tests.Fixture.{Memory, services, redis_laws, no_fault, started, empty_memory, set_at}

generate_ip_digits_example : generate_ip (pos 70000) ≡ dotted_10 (pos 1) (pos 17) (pos 112)
generate_ip_digits_example = generate_ip_digits 70000

generate_ip_injective_example : ◌≡◌ {A = ℕ} 300 300
generate_ip_injective_example = generate_ip_injective 300 300 refl

generate_ip_lxc_eq_example :
    (generate_ip_lxc (pos 2) ≡ generate_ip_lxc (pos 65538)) ↔ (2 % 65536 ≡ 65538 % 65536)
generate_ip_lxc_eq_example = generate_ip_lxc_eq 2 65538

create_instance_type_lengths_example :
    let i = create_instance_type 7 (codes "ada.lovelace") in
    (length i.container_name ≤ 63) × (length i.volume_name ≤ 63)
create_instance_type_lengths_example = create_instance_type_lengths 7 (codes "ada.lovelace")

container_name_letters_example :
    All IsNameLetter (create_instance_type 7 (codes "ada.lovelace")).container_name
container_name_letters_example = container_name_letters 7 (codes "ada.lovelace")

container_name_injective_example : ◌≡◌ {A = ℕ} 7 7
unfolding create_instance_type
container_name_injective_example =
    container_name_injective 7 7 (codes "a.b") (codes "a_b") (omega arith) (omega arith) refl

-- The allocator of a /24 net.
abbrev net : IpAllocator
net = record { cidr_value = 24 }

abbrev ada : Text
ada = codes "ada's key"

abbrev bob : Text
bob = codes "bob's key"

abbrev calm : Services
calm = services no_fault []

abbrev calm_laws : RedisLaws calm
calm_laws = redis_laws no_fault []

-- One device of user 1, and one released address.
abbrev one_device : World Memory
one_device = record started {
  peers = row 1 ada 2 ∷ [];
  userips = record { user_id = 1; ip_address = 2 } ∷ [];
  redis = record empty_memory {
    stacks = set_at stack_key (3 ∷ []) (set_at lxc_ip (3 ∷ []) (λ k. []));
  };
}

-- The user has the three devices that are allowed.
abbrev three_devices : World Memory
three_devices = record one_device {
  peers = row 1 ada 2 ∷ row 1 bob 4 ∷ row 1 (codes "third") 5 ∷ [];
}

allocate_free_ip-PeerUnique_example :
    PeerUnique calm calm_laws 3 (allocate_free_ip calm net 1 bob one_device).1
unfolding text_eq
allocate_free_ip-PeerUnique_example =
    allocate_free_ip-PeerUnique calm calm_laws 3 net 1 bob one_device (omega arith)

allocate_free_lxc_ip-InstanceUnique_example :
    InstanceUnique calm calm_laws 3 (allocate_free_lxc_ip calm net 2 one_device).1
unfolding text_eq
allocate_free_lxc_ip-InstanceUnique_example =
    allocate_free_lxc_ip-InstanceUnique calm calm_laws 3 net 2 one_device (omega arith)

allocate_free_ip-Recorded_example :
    Recorded calm calm_laws 1 bob one_device (allocate_free_ip calm net 1 bob one_device)
allocate_free_ip-Recorded_example = allocate_free_ip-Recorded calm calm_laws 1 bob net one_device

allocate_free_ip_leaks_example :
    let (r, v) = allocate_free_ip calm net 1 (codes "fourth") three_devices in
    (r ≡ err wg_device_limit)
    × (v.peers ≡ three_devices.peers)
    × (calm_laws.range v.redis stack_key ≡ [])
unfolding text_eq
allocate_free_ip_leaks_example =
    allocate_free_ip_leaks calm calm_laws net 1 (codes "fourth") 3 [] three_devices refl refl refl
      refl

allocate_free_ip-deallocate_ip_example :
    (allocate_free_ip calm net 2 bob (deallocate_ip calm ada 1 one_device).1).0
    ≡ ok (generate_ip (pos 2))
unfolding text_eq
allocate_free_ip-deallocate_ip_example =
    allocate_free_ip-deallocate_ip calm calm_laws net 1 2 ada bob 2 one_device (λ n. refl) refl refl
      refl

-- Every COMMIT of the loop, the fifth call and each fourth after it, conflicts.
abbrev at_commits : ℕ → Option Fault
at_commits n = if n % 4 == 0 && ltb 0 n then some conflict else none

abbrev contended : Services
contended = services at_commits []

allocate_next_free_ip_phantom_example :
    allocate_next_free_ip contended 256 1 ada started ≡ (ok 2, record started { tick = 21 })
unfolding text_eq
allocate_next_free_ip_phantom_example =
    allocate_next_free_ip_phantom contended 256 1 ada started refl (refl, refl) refl commits
  where
    commits :
        (k : ℕ)
        → k < 5
        → (at_commits (1 + 4 * k) ≡ none)
          × (at_commits (1 + 4 * k + 1) ≡ none)
          × (at_commits (1 + 4 * k + 2) ≡ none)
          × (at_commits (1 + 4 * k + 3) ≡ some conflict)
    commits k h = (ground arith, ground arith, ground arith, ground arith)
