-- ===== src/World/Frame.antt =====
-- What an operation leaves alone, a relation between the states before and after it, and what holds
-- where it ends without a crash; both are carried through the monad.
use kws.Prelude.{◌≡◌, refl, Bool, true, false, if◌then◌else◌}
use kws.World.Monad.{World, ⊤, Result, ok, err, M, attempt, attempted, is_crash, ◌>>=◌}

abbrev pub Keeps :
    {Memory : Type 0} → (World Memory → World Memory → Type 0) → {A : Type 0} → M Memory A → Type 0
Keeps R m = (w : _) → R w (m w).1

module _ {Memory : Type 0} (R : World Memory → World Memory → Type 0)
    (R-trans : (u v w : World Memory) → R u v → R v w → R u w) where
  pub Keeps-bind :
      {A B : Type 0} (m : M Memory A) (f : A → M Memory B)
      → Keeps R m
      → ((a : A) → Keeps R (f a))
      → Keeps R (m >>= f)
  Keeps-bind {A} {B} m f km kf w = by_result (m w) (km w)
    where
      by_result :
          (q : Result A × World Memory)
          → R w q.1
          → R w
              (elim q.0 as (λ x. Result B × World Memory) [
                | ok a ↦ f a q.1
                | err e ↦ (err e, q.1)
              ]).1
      by_result (ok a, v) h = R-trans w v (f a v).1 h (kf a v)
      by_result (err e, v) h = h

  pub Keeps-attempt : {A : Type 0} (m : M Memory A) → Keeps R m → Keeps R (attempt m)
  Keeps-attempt {A} m km w = by_result (m w) (km w)
    where
      by_result : (q : Result A × World Memory) → R w q.1 → R w (attempted q).1
      by_result (ok a, v) h = h
      by_result (err e, v) h = crash (is_crash e)
        where
          crash :
              (b : Bool)
              → R w
                  (if◌then◌else◌ {A = Result (Result A) × World Memory} b
                    (err e, v)
                    (ok (err e), v)).1
          crash true = h
          crash false = h

-- What holds of the value, an error that the code passes on excluded, and of the state; a crash has no
-- caller.
abbrev pub Ended :
    {Memory A : Type 0} → (A → World Memory → Type 0) → Result A × World Memory → Type 0
Ended Q (ok a, v) = Q a v
Ended Q (err e, v) = is_crash e ≡ true

abbrev pub Ends :
    {Memory A : Type 0} → M Memory A → World Memory → (A → World Memory → Type 0) → Type 0
Ends m w Q = Ended Q (m w)

pub Ends-bind :
    {Memory A B : Type 0} (m : M Memory A) (f : A → M Memory B) (w : World Memory)
    (Q : A → World Memory → Type 0) (R : B → World Memory → Type 0)
    → Ends m w Q
    → ((a : A) (v : World Memory) → Q a v → Ends (f a) v R)
    → Ends (m >>= f) w R
Ends-bind {Memory} {A} {B} m f w Q R km kf = by_result (m w) km
  where
    by_result :
        (q : Result A × World Memory)
        → Ended Q q
        → Ended R
            (elim q.0 as (λ x. Result B × World Memory) [ ok a ↦ f a q.1 | err e ↦ (err e, q.1) ])
    by_result (ok a, v) h = kf a v h
    by_result (err e, v) h = h

-- The process goes on: there is a value, or an error that the caller sees.
abbrev pub GoesOn : {A : Type 0} → Result A → Type 0
GoesOn (ok a) = ⊤
GoesOn (err e) = is_crash e ≡ false

-- An operation that handles every error but a crash.
abbrev pub OnlyCrashes : {Memory A : Type 0} → M Memory A → Type 0
OnlyCrashes m = (w : _) → Ends m w (λ a v. ⊤)

module _ {Memory : Type 0} where
  pub bind-OnlyCrashes :
      {A B : Type 0} (m : M Memory A) (f : A → M Memory B)
      → OnlyCrashes m
      → ((a : A) → OnlyCrashes (f a))
      → OnlyCrashes (m >>= f)
  bind-OnlyCrashes m f h k w = Ends-bind m f w (λ a v. ⊤) (λ b v. ⊤) (h w) (λ a v q. k a v)

  pub attempt-OnlyCrashes : {A : Type 0} (m : M Memory A) → OnlyCrashes (attempt m)
  attempt-OnlyCrashes {A} m w = by_result (m w)
    where
      by_result : (q : Result A × World Memory) → Ended (λ a v. ⊤) (attempted q)
      by_result (ok a, v) = tt
      by_result (err e, v) = crash (is_crash e) refl
        where
          crash :
              (b : Bool)
              → is_crash e ≡ b
              → Ended
                  (λ a v. ⊤)
                  (if◌then◌else◌ {A = Result (Result A) × World Memory} b
                    (err e, v)
                    (ok (err e), v))
          crash true h = h
          crash false h = tt

  -- What follows an operation by its result.
  pub after-OnlyCrashes :
      {A B : Type 0} (m : M Memory A) (f : Result A → M Memory B)
      → ((r : Result A) → OnlyCrashes (f r))
      → OnlyCrashes (attempt m >>= f)
  after-OnlyCrashes m f k = bind-OnlyCrashes (attempt m) f (attempt-OnlyCrashes m) k
