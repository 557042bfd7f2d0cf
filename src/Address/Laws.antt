-- ===== src/Address/Laws.antt =====
-- Addresses and host numbers determine one another.
use kws.Prelude.{
  ℕ, ◌/◌, ◌%◌, ◌≡◌, refl, ap, sym, ◌∙◌, ◌↔◌, ◌⊎◌, inl, inr, Text, itoa, scan, scan-itoa,
  scan-itoa_end, ◌++◌, ◌∷◌, arith, Bool-cases, true, ltb,
}
use kws.Prelude.Int.{pos}
use kws.World.{ok}
use kws.Address.{
  create_ip_allocator, print_int, dotted_10, dotted_172_30, generate_ip, generate_ip_lxc,
}

-- A number and what follows a dot are read back from a text.
number_dot_injective :
    {a b : ℕ} (s t : Text) → itoa a ++ b'.' ∷ s ≡ itoa b ++ b'.' ∷ t → (a ≡ b) × (s ≡ t)
number_dot_injective {a} {b} s t e =
    let p : ◌≡◌ {A = ℕ × Text} (a, b'.' ∷ s) (b, b'.' ∷ t) =
      sym (scan-itoa a b'.' s refl) ∙ ap (scan 0) e ∙ scan-itoa b b'.' t refl in
    ground arith

itoa_injective : {a b : ℕ} → itoa a ≡ itoa b → a ≡ b
itoa_injective {a} {b} e = ap (λ p. p.0) (sym (scan-itoa_end a) ∙ ap (scan 0) e ∙ scan-itoa_end b)

dotted_10_injective :
    (a b c a' b' c' : ℕ)
    → dotted_10 (pos a) (pos b) (pos c) ≡ dotted_10 (pos a') (pos b') (pos c')
    → (a ≡ a') × (b ≡ b') × (c ≡ c')
unfolding dotted_10 print_int
dotted_10_injective a b c a' b' c' e =
    let p =
      number_dot_injective {a = a} {b = a'} (itoa b ++ b'.' ∷ itoa c) (itoa b' ++ b'.' ∷ itoa c')
        (ground arith) in
    let q = number_dot_injective {a = b} {b = b'} (itoa c) (itoa c') p.1 in
    (p.0, q.0, itoa_injective q.1)

dotted_172_30_injective :
    (b c b' c' : ℕ)
    → dotted_172_30 (pos b) (pos c) ≡ dotted_172_30 (pos b') (pos c')
    → (b ≡ b') × (c ≡ c')
unfolding dotted_172_30 print_int
dotted_172_30_injective b c b' c' e =
    let q = number_dot_injective {a = b} {b = b'} (itoa c) (itoa c') (ground arith) in
    (q.0, itoa_injective q.1)

-- For every host number GenerateIP prints 10 and then its three lowest base-256 digits, the first
-- of them unbounded: the two branches of the code agree.
pub generate_ip_digits :
    (h : ℕ)
    → generate_ip (pos h) ≡ dotted_10 (pos (h / 65536)) (pos (h / 256 % 256)) (pos (h % 256))
unfolding generate_ip
generate_ip_digits h = elim (Bool-cases (ltb (h / 256) 256)) [
  | inl small ↦ rw small (cong (ground arith) (ground arith))
  | inr large ↦ rw large (cong (omega arith) refl)
]
  where
    cong :
        {a a' b b' : ℕ}
        → a ≡ a'
        → b ≡ b'
        → dotted_10 (pos a) (pos b) (pos (h % 256)) ≡ dotted_10 (pos a') (pos b') (pos (h % 256))
    cong p q = cc

-- Two host numbers that GenerateIP prints as one address are the same host number.
pub generate_ip_injective : (h k : ℕ) → generate_ip (pos h) ≡ generate_ip (pos k) → h ≡ k
generate_ip_injective h k e =
    let d =
      dotted_10_injective (h / 65536) (h / 256 % 256) (h % 256) (k / 65536) (k / 256 % 256)
        (k % 256) (sym (generate_ip_digits h) ∙ e ∙ generate_ip_digits k) in
    omega arith

generate_ip_lxc_digits :
    (h : ℕ) → generate_ip_lxc (pos h) ≡ dotted_172_30 (pos (h / 256 % 256)) (pos (h % 256))
unfolding generate_ip_lxc
generate_ip_lxc_digits h = elim (Bool-cases (ltb (h / 256) 256)) [
  | inl small ↦ rw small (ap (λ b. dotted_172_30 (pos b) (pos (h % 256))) (below small))
  | inr large ↦ rw large
]
  where
    below : ltb (h / 256) 256 ≡ true → h / 256 ≡ h / 256 % 256
    below s = ground arith

-- GenerateIPLXC prints two host numbers as one address exactly when they agree modulo 65536.
pub generate_ip_lxc_eq :
    (h k : ℕ) → (generate_ip_lxc (pos h) ≡ generate_ip_lxc (pos k)) ↔ (h % 65536 ≡ k % 65536)
generate_ip_lxc_eq h k = (there, back)
  where
    there : generate_ip_lxc (pos h) ≡ generate_ip_lxc (pos k) → h % 65536 ≡ k % 65536
    there e =
        let d =
          dotted_172_30_injective (h / 256 % 256) (h % 256) (k / 256 % 256) (k % 256)
            (sym (generate_ip_lxc_digits h) ∙ e ∙ generate_ip_lxc_digits k) in
        omega arith

    back : h % 65536 ≡ k % 65536 → generate_ip_lxc (pos h) ≡ generate_ip_lxc (pos k)
    back e =
        generate_ip_lxc_digits h ∙ cong (omega arith) (omega arith) ∙ sym (generate_ip_lxc_digits k)
      where
        cong :
            {b b' c c' : ℕ}
            → b ≡ b'
            → c ≡ c'
            → dotted_172_30 (pos b) (pos c) ≡ dotted_172_30 (pos b') (pos c')
        cong p q = cc

-- CreateIpAllocator accepts a prefix length exactly if it is 8, 16 or 24.
pub create_ip_allocator_ok :
    (c : ℕ)
    → (create_ip_allocator c ≡ ok (record { cidr_value = c })) ↔ ((c ≡ 8) ⊎ ((c ≡ 16) ⊎ (c ≡ 24)))
unfolding create_ip_allocator
create_ip_allocator_ok c = (λ e. ground arith, λ e. ground arith)
