-- ===== src/Domains/Laws.antt =====
-- When AddUserDomain publishes a domain.
use kws.Prelude.{
  ℕ, ◌+◌, ◌≤◌, ◌≡◌, ◌⊎◌, Bool, true, false, Text, text_eq, [], ◌∷◌, ◌++◌, none, some, arith, count,
  exists, leb,
}
use kws.Prelude.Int.{ℤ}
use kws.World.{
  World, DomainRow, Error, Fault, to_error, domain_limit_exceeded, unique_violation, Result, ok,
  err, ⊤, Services,
}
use kws.Domains.{of_user, add_user_domain}

abbrev pub row : ℕ → Text → ℤ → Bool → DomainRow
row uid name port is_code = record {
  user_id = uid;
  domain_name = name;
  port = port;
  is_code = is_code;
}

abbrev pub is_named : Text → DomainRow → Bool
is_named name d = text_eq d.domain_name name

module _ (s : Services) where
  abbrev IsFull : ℕ → World s.Memory → Bool → Type 0
  IsFull uid w b = leb 3 (count (of_user uid) w.domains) ≡ b

  abbrev IsTaken : Text → World s.Memory → Bool → Type 0
  IsTaken name w b = exists (is_named name) w.domains ≡ b

  -- Why a domain is not published: three rows of the user, the name in a row of any user, or the
  -- failure of one of the two calls.
  abbrev pub Reason : ℕ → Text → World s.Memory → Error → Type 0
  Reason uid name w e =
      ((e ≡ domain_limit_exceeded) × (leb 3 (count (of_user uid) w.domains) ≡ true))
      ⊎ (((e ≡ unique_violation)
            × (leb 3 (count (of_user uid) w.domains) ≡ false)
            × (exists (is_named name) w.domains ≡ true))
          ⊎ ((n : ℕ) × (n ≤ 1)
              × ((f : Fault) × (s.fault (w.tick + n) ≡ some f) × (e ≡ to_error f))))

  abbrev pub Published : ℕ → Text → ℤ → World s.Memory → Result ⊤ × World s.Memory → Type 0
  Published uid name port w (ok _, v) =
      (v.domains ≡ w.domains ++ row uid name port false ∷ [])
      × (leb 3 (count (of_user uid) w.domains) ≡ false)
      × (exists (is_named name) w.domains ≡ false)
  Published uid name port w (err e, v) = (v.domains ≡ w.domains) × Reason uid name w e

  module _ (uid : ℕ) (name : Text) (port : ℤ) (w : World s.Memory)
      (counted : s.fault w.tick ≡ none) where
    taken :
        IsFull uid w false
        → s.fault (w.tick + 1) ≡ none
        → IsTaken name w true
        → add_user_domain s uid name port w
          ≡ (err unique_violation, record w { tick = w.tick + 1 + 1 })
    unfolding add_user_domain
    taken few up old = ground arith
