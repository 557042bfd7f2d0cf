-- ===== src/Domains.antt =====
-- `Domain`, src/internal/store/domains.go: the table domains.
pub mod Laws
use kws.Prelude.{
  ℕ, Bool, true, false, Text, text_eq, List, [], ◌∷◌, ◌++◌, not, ◌&&◌, ◌||◌, ◌==◌, leb, select,
  count, exists, if◌then◌else◌,
}
use kws.Prelude.Int.{ℤ}
use kws.World.{
  World, DomainRow, Error, domain_already_exists, domain_limit_exceeded, unique_violation,
  user_domain_limit, M, Result, ok, err, pure, raise, gets, modify, raise_if, try, ⊤, ◌>>=◌, ◌>>◌,
  Services, call,
}

abbrev pub of_user : ℕ → DomainRow → Bool
of_user uid d = d.user_id == uid

abbrev pub is_domain : ℕ → Text → DomainRow → Bool
is_domain uid name d = text_eq d.domain_name name && d.user_id == uid

abbrev is_unique_violation : Error → Bool
is_unique_violation unique_violation = true
is_unique_violation _ = false

module _ (s : Services) where
  -- `INSERT INTO domains`, where domain_name is UNIQUE and is_code is TRUE by default.
  pub insert_domain : ℕ → Text → ℤ → Bool → M s.Memory ⊤
  unfolding call
  insert_domain uid name port is_code = do
    call s
    taken ← gets (λ w. exists (λ d. text_eq d.domain_name name) w.domains)
    raise_if taken unique_violation
    modify (λ w. record w {
      domains =
          w.domains
          ++ record { user_id = uid; domain_name = name; port = port; is_code = is_code } ∷ [];
    })

  abbrev name_conflict : Result ⊤ → M s.Memory ⊤
  name_conflict (ok _) = pure tt
  name_conflict (err e) = if is_unique_violation e then raise domain_already_exists else raise e

  unfoldable pub add_domain : ℕ → Text → ℤ → M s.Memory ⊤
  unfolding insert_domain
  add_domain uid name port = do
    inserted ← try (insert_domain uid name port true)
    name_conflict inserted

  unfoldable pub remove_domain : ℕ → Text → M s.Memory ⊤
  unfolding call
  remove_domain uid name = do
    call s
    modify (λ w. record w { domains = select (λ d. not (is_domain uid name d)) w.domains })

  -- The rows of published domains, without the code server's.
  unfoldable pub get_user_domains : ℕ → M s.Memory (List DomainRow)
  unfolding call
  get_user_domains uid = do
    call s
    gets (λ w. select (λ d. of_user uid d && not d.is_code) w.domains)

  unfoldable pub add_user_domain : ℕ → Text → ℤ → M s.Memory ⊤
  unfolding call insert_domain
  add_user_domain uid name port = do
    call s
    domains ← gets (λ w. count (of_user uid) w.domains)
    raise_if (leb user_domain_limit domains) domain_limit_exceeded
    insert_domain uid name port false

  unfoldable pub remove_user_domain : ℕ → Text → M s.Memory ⊤
  unfolding call
  remove_user_domain uid name = do
    call s
    modify (λ w. record w { domains = select (λ d. not (is_domain uid name d)) w.domains })

  unfoldable pub delete_user_domains : ℕ → M s.Memory ⊤
  unfolding call
  delete_user_domains uid = do
    call s
    modify (λ w. record w { domains = select (λ d. not (of_user uid d)) w.domains })
