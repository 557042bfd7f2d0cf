-- ===== src/Names.antt =====
-- `CreateInstanceType` and `sanitize`, src/models/instance.go.
pub mod Laws
use kws.Prelude.{
  ℕ, ◌-◌, Bool, Text, codes, itoa, length, take, ltb, leb, ◌&&◌, ◌||◌, ◌++◌, ◌∷◌, map, not,
  is_digit, if◌then◌else◌,
}

-- The fields that `CreateInstanceType` sets.
pub record Instance : Type 0 where
  pub uid : ℕ
  pub volume_name : Text
  pub container_name : Text
  pub instance_type : Text

-- `[a-zA-Z0-9]`.
abbrev pub is_alphanumeric : ℕ → Bool
is_alphanumeric c = (leb b'a' c && leb c b'z') || ((leb b'A' c && leb c b'Z') || is_digit c)

-- `regexp.ReplaceAllString` with the negated class, over a text of one byte per character.
unfoldable pub sanitize : Text → Text
sanitize = map (λ c. if is_alphanumeric c then c else b'-')

abbrev pub max_len : ℕ
max_len = 63

abbrev pub suffix_instance : Text
suffix_instance = codes "-instance"

abbrev pub suffix_volume : Text
suffix_volume = codes "_volume"

-- `base[:n]`, if `base` is longer.
pub clip : ℕ → Text → Text
clip n base = if ltb n (length base) then take n base else base

unfoldable pub create_instance_type : ℕ → Text → Instance
unfolding clip sanitize
create_instance_type uid user_name =
    let safe = sanitize user_name in
    let base = clip (max_len - length suffix_instance) (itoa uid ++ b'-' ∷ safe) in
    record {
      uid = uid;
      volume_name = clip (max_len - length suffix_volume) base ++ suffix_volume;
      container_name = base ++ suffix_instance;
      instance_type = codes "core";
    }
