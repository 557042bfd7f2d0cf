-- ===== src/Tunnels.antt =====
-- `TunnelStore`, src/internal/store/tunnels.go: the table tunnels.
use kws.Prelude.{
  ℕ, Bool, true, false, Text, text_eq, List, [], ◌∷◌, ◌++◌, Option, none, some, not, ◌&&◌, ◌==◌,
  select, exists, if◌then◌else◌,
}
use kws.World.{
  TunnelRow, Error, unique_violation, tunnel_already_exists, no_domain_for_tunnel, M, Result, ok,
  err, pure, raise, gets, modify, raise_if, try, ⊤, ◌>>=◌, ◌>>◌, Services, call,
}

abbrev pub is_tunnel : Text → ℕ → TunnelRow → Bool
is_tunnel name uid t = text_eq t.tunnel_name name && t.user_id == uid

abbrev pub first_domain : List TunnelRow → Option Text
first_domain [] = none
first_domain (t ∷ ts) = some t.domain

abbrev is_duplicate : Error → Bool
is_duplicate unique_violation = true
is_duplicate _ = false

module _ (s : Services) where
  -- `INSERT INTO tunnels`, where domain is UNIQUE.
  insert_tunnel : TunnelRow → M s.Memory ⊤
  unfolding call
  insert_tunnel t = do
    call s
    taken ← gets (λ w. exists (λ r. text_eq r.domain t.domain) w.tunnels)
    raise_if taken unique_violation
    modify (λ w. record w { tunnels = w.tunnels ++ t ∷ [] })

  abbrev inserted : Result ⊤ → M s.Memory ⊤
  inserted (ok _) = pure tt
  inserted (err e) = if is_duplicate e then raise tunnel_already_exists else raise e

  unfoldable pub create_tunnel : TunnelRow → M s.Memory ⊤
  unfolding insert_tunnel
  create_tunnel t = do done ← try (insert_tunnel t); inserted done

  delete_tunnel : Text → ℕ → M s.Memory ⊤
  unfolding call
  delete_tunnel name uid = do
    call s
    modify (λ w. record w { tunnels = select (λ t. not (is_tunnel name uid t)) w.tunnels })

  -- An error is only logged.
  unfoldable pub destroy_tunnel : Text → ℕ → M s.Memory ⊤
  unfolding delete_tunnel
  destroy_tunnel name uid = do _ ← try (delete_tunnel name uid); pure tt

  -- Every failure, a missing row or a broken query, is the same error.
  unfoldable pub get_domain_from_tunnel : Text → ℕ → M s.Memory Text
  unfolding call
  get_domain_from_tunnel name uid = do
    asked ← try (call s)
    found ← gets (λ w. first_domain (select (is_tunnel name uid) w.tunnels))
    elim asked [
      | err e ↦ raise no_domain_for_tunnel
      | ok _ ↦ elim found [ none ↦ raise no_domain_for_tunnel | some domain ↦ pure domain ]
    ]
