-- ===== src/Prelude/Lists.antt =====
-- Lists measured by native numbers, a Boolean filter, and predicates by recursion.
use Prim.Native.Nat.{ℕ, zero, suc, ◌+◌, ◌<◌, min, max}
use mathlib.Core.Path.{◌≡◌, refl}
use mathlib.Core.Logic.{◌⊎◌, inl, inr}
use mathlib.Core.Bool.{Bool, true, false}
use mathlib.Core.List.{List, [], ◌∷◌, ◌++◌}
use native.Mathlib.Omega.{arith}
use mathlib.Core.Option.{Option, none, some}
use kws.Prelude.Tests.{◌==◌, if◌then◌else◌, Option-cases}

module _ {ℓ} {A : Type ℓ} where
  abbrev pub length : List A → ℕ
  length [] = 0
  length (x ∷ xs) = suc (length xs)

  pub length-append : (xs ys : List A) → length (xs ++ ys) ≡ length xs + length ys
  length-append [] ys = omega arith
  length-append (x ∷ xs) ys = omega (arith, length-append xs ys)

  -- `s[:n]`, for n within the length.
  abbrev pub take : ℕ → List A → List A
  take zero xs = []
  take (suc n) [] = []
  take (suc n) (x ∷ xs) = x ∷ take n xs

  pub length-take : (n : ℕ) (xs : List A) → length (take n xs) ≡ min n (length xs)
  length-take zero xs = omega arith
  length-take (suc n) [] = omega arith
  length-take (suc n) (x ∷ xs) = omega (arith, length-take n xs)

  -- The rows of a table that a WHERE clause selects.
  abbrev pub select : (A → Bool) → List A → List A
  select p [] = []
  select p (x ∷ xs) = let rest = select p xs in if p x then x ∷ rest else rest

  -- How many there are: `SELECT COUNT`.
  abbrev pub count : (A → Bool) → List A → ℕ
  count p [] = 0
  count p (x ∷ xs) = let rest = count p xs in if p x then suc rest else rest

  abbrev pub exists : (A → Bool) → List A → Bool
  exists p [] = false
  exists p (x ∷ xs) = let rest = exists p xs in if p x then true else rest

  -- `UPDATE`: the rows that a WHERE clause selects, changed.
  abbrev pub update : (A → Bool) → (A → A) → List A → List A
  update p f [] = []
  update p f (x ∷ xs) = (if p x then f x else x) ∷ update p f xs

  -- A predicate by recursion computes to tuples, which the tactics read.
  abbrev pub All {κ} : (A → Type κ) → List A → Type κ
  All P [] = Unit
  All P (x ∷ xs) = P x × All P xs

  -- Some entry has the property.
  abbrev pub Any {κ} : (A → Type κ) → List A → Type κ
  Any P [] = Unit {κ} → ⊥
  Any P (x ∷ xs) = P x ⊎ Any P xs

-- How often a number occurs.
abbrev pub occurrences : ℕ → List ℕ → ℕ
occurrences i [] = 0
occurrences i (x ∷ xs) = let rest = occurrences i xs in if x == i then suc rest else rest

pub occurrences-append :
    (i : ℕ) (xs ys : List ℕ) → occurrences i (xs ++ ys) ≡ occurrences i xs + occurrences i ys
occurrences-append i [] ys = omega arith
occurrences-append i (x ∷ xs) ys = ground (arith, occurrences-append i xs ys)

-- `ORDER BY ... DESC LIMIT 1`.
abbrev pub highest : List ℕ → Option ℕ
highest [] = none
highest (x ∷ xs) = elim (highest xs) [ none ↦ some x | some m ↦ some (max x m) ]

occurrences-none : (i : ℕ) (xs : List ℕ) → highest xs ≡ none → occurrences i xs ≡ 0
occurrences-none i [] e = refl
occurrences-none i (x ∷ xs) e = ground arith

-- Nothing occurs above the highest.
pub occurrences_above : (i m : ℕ) (xs : List ℕ) → highest xs ≡ some m → m < i → occurrences i xs ≡ 0
occurrences_above i m [] e h = cc
occurrences_above i m (x ∷ xs) e h = elim (Option-cases (highest xs)) [
  | inl none' ↦ ground (arith, occurrences-none i xs none')
  | inr (k, some') ↦ ground (arith, occurrences_above i k xs some')
]

pub highest-none : (xs : List ℕ) → highest xs ≡ none → xs ≡ []
highest-none [] e = refl
highest-none (x ∷ xs) e = ground arith
