-- ===== src/Address.antt =====
-- The addresses that host numbers stand for: `IPAllocator` and its pure methods in
-- src/internal/wg/ip_allocator.go.
pub mod Laws
use kws.Prelude.{
  ℕ, ◌-◌, ◌^◌, Bool, true, Text, codes, itoa, ◌++◌, ◌∷◌, ltb, ◌==◌, ◌%◌, ◌||◌, not, if◌then◌else◌,
}
use kws.Prelude.Int.{ℤ, pos, negsuc, quot, rem}
use kws.World.{Error, invalid_cidr, Result, ok, err}

-- The stores that the struct also points to are the tables of `World`.
pub record IpAllocator : Type 0 where
  pub cidr_value : ℕ

pub create_ip_allocator : ℕ → Result IpAllocator
create_ip_allocator c =
    if ltb 24 c || ltb c 8 || not (c % 8 == 0)
    then err invalid_cidr
    else ok (record { cidr_value = c })

-- `int(math.Pow(2, 32 - cidr))`, for a prefix length of at most 32.
abbrev pub find_no_of_usable_hosts : IpAllocator → ℕ
find_no_of_usable_hosts a = 2 ^ (32 - a.cidr_value)

-- The same without two, for a prefix length of at most 31.
abbrev pub find_no_of_usable_hosts_docker : IpAllocator → ℕ
find_no_of_usable_hosts_docker a = 2 ^ (32 - a.cidr_value) - 2

-- `%d` of an int.
pub print_int : ℤ → Text
print_int (pos n) = itoa n
print_int (negsuc n) = b'-' ∷ itoa (ℕ.suc n)

abbrev lt_int : ℤ → ℕ → Bool
lt_int (pos n) k = ltb n k
lt_int (negsuc n) k = true

abbrev dot : ℕ
dot = b'.'

-- `10.%d.%d.%d`.
pub dotted_10 : ℤ → ℤ → ℤ → Text
dotted_10 a b c = codes "10." ++ (print_int a ++ dot ∷ (print_int b ++ dot ∷ print_int c))

-- `172.30.%d.%d`.
pub dotted_172_30 : ℤ → ℤ → Text
dotted_172_30 b c = codes "172.30." ++ (print_int b ++ dot ∷ print_int c)

unfoldable pub generate_ip : ℤ → Text
generate_ip host =
    let c = quot host 256 in
    if lt_int c 256
    then dotted_10 (pos 0) c (rem host 256)
    else dotted_10 (quot c 256) (rem c 256) (rem host 256)

unfoldable pub generate_ip_lxc : ℤ → Text
generate_ip_lxc host =
    let c = quot host 256 in
    if lt_int c 256
    then dotted_172_30 c (rem host 256)
    else dotted_172_30 (rem c 256) (rem host 256)
