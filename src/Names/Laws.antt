-- ===== src/Names/Laws.antt =====
-- Container and volume names fit LXD's limit, use its letters, and tell users apart.
use kws.Prelude.{
  ℕ, zero, suc, ◌^◌, ◌≤◌, ◌<◌, ◌≡◌, refl, sym, ap, ◌∙◌, ◌⊎◌, inr, true, Text, itoa, scan, scan-itoa,
  length, length-append, take, length-take, length-itoa, itoa-All-IsDigit, IsDigit, ltb, ◌++◌, List,
  [], ◌∷◌, All, arith, if◌then◌else◌,
}
use mathlib.Core.List.{append_assoc}
use kws.Names.{
  is_alphanumeric, sanitize, clip, create_instance_type, suffix_instance, suffix_volume,
}

length-clip : (n : ℕ) (base : Text) → length (clip n base) ≤ n
unfolding clip
length-clip n base = ground (arith, length-take n base)

-- The names of a user's container and volume have at most 63 bytes, whatever the user's id and
-- name.
pub create_instance_type_lengths :
    (uid : ℕ) (user_name : Text)
    → let i = create_instance_type uid user_name in
      (length i.container_name ≤ 63) × (length i.volume_name ≤ 63)
unfolding create_instance_type
create_instance_type_lengths uid user_name =
    let base = clip 54 (itoa uid ++ b'-' ∷ sanitize user_name) in
    (
      omega (
        arith,
        length-append {0} base suffix_instance,
        length-clip 54 (itoa uid ++ b'-' ∷ sanitize user_name),
      ),
      omega (arith, length-append {0} (clip 56 base) suffix_volume, length-clip 56 base),
    )

-- A letter that LXD allows in a name.
abbrev pub IsNameLetter : ℕ → Type 0
IsNameLetter c = (is_alphanumeric c ≡ true) ⊎ (c ≡ b'-')

module _ {ℓ κ} {A : Type ℓ} (P : A → Type κ) where
  pub All-append : (xs ys : List A) → All P xs → All P ys → All P (xs ++ ys)
  All-append [] ys hx hy = hy
  All-append (x ∷ xs) ys hx hy = (hx.0, All-append xs ys hx.1 hy)

  pub All-take : (n : ℕ) (xs : List A) → All P xs → All P (take n xs)
  All-take zero xs h = tt
  All-take (suc n) [] h = tt
  All-take (suc n) (x ∷ xs) h = (h.0, All-take n xs h.1)

All-clip : (n : ℕ) (base : Text) → All IsNameLetter base → All IsNameLetter (clip n base)
unfolding clip
All-clip n base h = ground (arith, All-take IsNameLetter n base h)

sanitize-All : (s : Text) → All IsNameLetter (sanitize s)
unfolding sanitize
sanitize-All [] = tt
sanitize-All (c ∷ s) = (ground arith, sanitize-All s)

digits-All : (s : Text) → All IsDigit s → All IsNameLetter s
digits-All [] h = tt
digits-All (c ∷ s) h = (ground arith, digits-All s h.1)

-- The name of a user's container is made of ASCII letters, digits and dashes only, whatever the
-- user's name holds.
pub container_name_letters :
    (uid : ℕ) (user_name : Text)
    → All IsNameLetter (create_instance_type uid user_name).container_name
unfolding create_instance_type
container_name_letters uid user_name =
    All-append IsNameLetter (clip 54 (itoa uid ++ b'-' ∷ sanitize user_name)) suffix_instance
      (All-clip 54 _ (
        All-append IsNameLetter (itoa uid) _ (digits-All _ (itoa-All-IsDigit uid))
          (inr refl, sanitize-All user_name)))
      (ground arith)

-- Clipping behind a prefix leaves the prefix.
take_behind :
    (n c : ℕ) (xs ys : Text) → length xs < n → (zs : Text) × (take n (xs ++ c ∷ ys) ≡ xs ++ c ∷ zs)
take_behind zero c xs ys h = elim h [ ]
take_behind (suc n) c [] ys h = (take n ys, refl)
take_behind (suc n) c (x ∷ xs) ys h =
    let (zs, e) = take_behind n c xs ys (omega arith) in (zs, ap (◌∷◌ x) e)

clip_behind :
    (n c : ℕ) (xs ys : Text) → length xs < n → (zs : Text) × (clip n (xs ++ c ∷ ys) ≡ xs ++ c ∷ zs)
unfolding clip
clip_behind n c xs ys h =
    let (zs, e) = take_behind n c xs ys h in
    (if ltb n (length (xs ++ c ∷ ys)) then zs else ys, ground arith)

-- Ids of less than eleven digits stand whole in front of the first dash.
container_name_form :
    (uid : ℕ) (user_name : Text)
    → uid < 10 ^ 10
    → (zs : Text) × ((create_instance_type uid user_name).container_name ≡ itoa uid ++ b'-' ∷ zs)
unfolding create_instance_type
container_name_form uid user_name h =
    let (zs, e) =
      clip_behind 54 b'-' (itoa uid) (sanitize user_name) (omega (arith, length-itoa 9 uid h)) in
    (zs ++ suffix_instance, ap (λ b. b ++ suffix_instance) e ∙ append_assoc (itoa uid) _ _)

-- Users with different ids below 10^10 have differently named containers, whatever their names
-- and however these are sanitized and clipped.
pub container_name_injective :
    (uid uid' : ℕ) (user_name user_name' : Text)
    → uid < 10 ^ 10
    → uid' < 10 ^ 10
    → (create_instance_type uid user_name).container_name
      ≡ (create_instance_type uid' user_name').container_name
    → uid ≡ uid'
container_name_injective uid uid' n n' h h' e =
    let (zs, p) = container_name_form uid n h in
    let (zs', p') = container_name_form uid' n' h' in
    ap (λ r. r.0)
      (sym (scan-itoa uid b'-' zs refl)
        ∙ ap (scan 0) (sym p ∙ e ∙ p')
        ∙ scan-itoa uid' b'-' zs' refl)
