-- ===== src/Prelude/Rows.antt =====
-- What selecting, counting and adding rows of a table come to.
use Prim.Native.Nat.{◌+◌, ◌≤◌}
use mathlib.Core.Path.{◌≡◌, refl}
use mathlib.Core.Bool.{Bool, true, not}
use mathlib.Core.List.{List, [], ◌∷◌, ◌++◌}
use native.Mathlib.Omega.{arith}
use kws.Prelude.Lists.{select, count, exists}

module _ {ℓ} {A : Type ℓ} where
  pub count-append : (p : A → Bool) (xs ys : List A) → count p (xs ++ ys) ≡ count p xs + count p ys
  count-append p [] ys = omega arith
  count-append p (x ∷ xs) ys = ground (arith, count-append p xs ys)

  pub count-select-le : (p q : A → Bool) (xs : List A) → count p (select q xs) ≤ count p xs
  count-select-le p q [] = omega arith
  count-select-le p q (x ∷ xs) = ground (arith, count-select-le p q xs)

  pub select-not-nothing :
      (p : A → Bool) (xs : List A) → select p xs ≡ [] → select (λ x. not (p x)) xs ≡ xs
  select-not-nothing p [] e = refl
  select-not-nothing p (x ∷ xs) e = ground (arith, select-not-nothing p xs)

  pub exists-append :
      (p : A → Bool) (xs ys : List A) → exists p xs ≡ true → exists p (xs ++ ys) ≡ true
  exists-append p [] ys h = cc
  exists-append p (x ∷ xs) ys h = ground (arith, exists-append p xs ys)
