-- ===== src/Prelude/Decimal.antt =====
-- The decimal form of a number, as `fmt` writes it for %d, and how it is read back.
use Prim.Native.Nat.{ℕ, zero, suc, ◌+◌, ◌-◌, ◌*◌, ◌/◌, ◌%◌, ◌^◌, ◌≤◌, ◌<◌}
use mathlib.Core.Path.{◌≡◌, refl}
use mathlib.Core.Bool.{Bool, true, false, ◌&&◌}
use mathlib.Core.List.{[], ◌∷◌, ◌++◌}
use native.Mathlib.Nat.{pow-suc}
use native.Mathlib.Omega.{arith}
use mathlib.Core.Logic.{inl, inr}
use kws.Prelude.Tests.{ltb, leb, if◌then◌else◌, Bool-cases}
use kws.Prelude.Lists.{length, All}
use kws.Prelude.Bytes.{Text, codes}

abbrev pub is_digit : ℕ → Bool
is_digit c = leb b'0' c && leb c b'9'

-- The digits of `n` in front of `out`; with `n` below the fuel it does not run out.
emit : ℕ → ℕ → Text → Text
emit zero n out = out
emit (suc fuel) n out =
    let rest = emit fuel (n / 10) ((b'0' + n % 10) ∷ out) in
    if ltb n 10 then (b'0' + n) ∷ out else rest

unfoldable pub itoa : ℕ → Text
unfolding emit
itoa n = emit (suc n) n []

-- Reads the digits at the front of a text; what follows them comes back.
unfoldable pub scan : ℕ → Text → ℕ × Text
scan n [] = (n, [])
scan n (c ∷ s) = let rest = scan (n * 10 + (c - b'0')) s in if is_digit c then rest else (n, c ∷ s)

itoa_256 : itoa 256 ≡ codes "256"
unfolding itoa
itoa_256 = refl

scan-emit : (fuel n : ℕ) (out : Text) → n < fuel → scan 0 (emit fuel n out) ≡ scan n out
unfolding emit scan
scan-emit zero n out h = elim h [ ]
scan-emit (suc fuel) n out h = ground (arith, scan-emit fuel (n / 10) ((b'0' + n % 10) ∷ out))

emit-append : (fuel n : ℕ) (out r : Text) → emit fuel n out ++ r ≡ emit fuel n (out ++ r)
unfolding emit
emit-append zero n out r = refl
emit-append (suc fuel) n out r = ground (arith, emit-append fuel (n / 10) ((b'0' + n % 10) ∷ out) r)

-- A number in front of something that is no digit is read back whole.
pub scan-itoa : (n c : ℕ) (r : Text) → is_digit c ≡ false → scan 0 (itoa n ++ c ∷ r) ≡ (n, c ∷ r)
unfolding itoa scan
scan-itoa n c r h =
    rw (emit-append (suc n) n [] (c ∷ r), scan-emit (suc n) n (c ∷ r) (omega arith)) (ground arith)

pub scan-itoa_end : (n : ℕ) → scan 0 (itoa n) ≡ (n, [])
unfolding itoa scan
scan-itoa_end n = scan-emit (suc n) n [] (omega arith)

length-emit :
    (k fuel n : ℕ) (out : Text) → n < 10 ^ suc k → length (emit fuel n out) ≤ suc k + length out
unfolding emit
length-emit k zero n out h = omega arith
length-emit zero (suc fuel) n out h = ground (arith, pow-suc 10 0)
length-emit (suc k) (suc fuel) n out h =
    ground (arith, pow-suc 10 (suc k), length-emit k fuel (n / 10) ((b'0' + n % 10) ∷ out))

-- A number below 10^(k+1) takes at most k+1 digits.
pub length-itoa : (k n : ℕ) → n < 10 ^ suc k → length (itoa n) ≤ suc k
unfolding itoa
length-itoa k n h = omega (arith, length-emit k (suc n) n [] h)

abbrev pub IsDigit : ℕ → Type 0
IsDigit c = is_digit c ≡ true

emit-All-IsDigit : (fuel n : ℕ) (out : Text) → All IsDigit out → All IsDigit (emit fuel n out)
unfolding emit
emit-All-IsDigit zero n out h = h
emit-All-IsDigit (suc fuel) n out h =
    ground (arith, emit-All-IsDigit fuel (n / 10) ((b'0' + n % 10) ∷ out))

pub itoa-All-IsDigit : (n : ℕ) → All IsDigit (itoa n)
unfolding itoa
itoa-All-IsDigit n = emit-All-IsDigit (suc n) n [] tt

emit-cons : (fuel n c : ℕ) (out : Text) → (d : ℕ) × (ds : Text) × (emit fuel n (c ∷ out) ≡ d ∷ ds)
unfolding emit
emit-cons zero n c out = (c, out, refl)
emit-cons (suc fuel) n c out = elim (Bool-cases (ltb n 10)) [
  | inl e ↦ (b'0' + n, c ∷ out, rw e refl)
  | inr e ↦ rw e (emit-cons fuel (n / 10) (b'0' + n % 10) (c ∷ out))
]

-- A numeral has a digit.
pub itoa-cons : (n : ℕ) → (d : ℕ) × (ds : Text) × (itoa n ≡ d ∷ ds)
unfolding itoa emit
itoa-cons n = elim (Bool-cases (ltb n 10)) [
  | inl e ↦ (b'0' + n, [], rw e refl)
  | inr e ↦ rw e (emit-cons n (n / 10) (b'0' + n % 10) [])
]
