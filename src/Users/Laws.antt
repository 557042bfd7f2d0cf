-- ===== src/Users/Laws.antt =====
-- What an accepted name and password look like.
use kws.Prelude.{
  ℕ, ◌≤◌, ◌≡◌, Bool, true, false, Text, codes, [], ◌∷◌, ◌&&◌, ◌||◌, ◌==◌, leb, length, exists, All,
  is_digit, arith,
}
use kws.Users.{
  is_name_char, is_lower, is_upper, is_special, every, validate_user_name, validate_password,
  byte_length, Seen, see, scan_password, nothing_seen,
}

-- A character that a shell reads as itself, in quotes or not.
abbrev pub IsPlain : ℕ → Type 0
IsPlain c = exists (λ d. d == c) (codes "'\"\\ $`;|&<>(){}*?!#~:/") ≡ false

name_char-IsPlain : (c : ℕ) → is_name_char c ≡ true → IsPlain c
name_char-IsPlain c e = ground arith

every-All : (cs : Text) → every is_name_char cs ≡ true → All IsPlain cs
every-All [] e = tt
every-All (c ∷ cs) e = (name_char-IsPlain c (ground arith), every-All cs (ground arith))

-- An accepted user name has five to thirty characters, and none of them is a quote, a backslash,
-- a blank or one of $`;|&<>(){}*?!#~:/.
pub validate_user_name-IsPlain :
    (user_name : Text)
    → validate_user_name user_name ≡ true
    → (5 ≤ length user_name) × (length user_name ≤ 30) × All IsPlain user_name
unfolding validate_user_name
validate_user_name-IsPlain [] e = cc
validate_user_name-IsPlain (c ∷ cs) e =
    (ground arith, ground arith, (name_char-IsPlain c (ground arith), every-All cs (ground arith)))

module _ (seen : Seen) (c : ℕ) where
  see_upper : (see c seen).has_upper ≡ (seen.has_upper || is_upper c)
  unfolding see
  see_upper = ground arith

  see_lower : (see c seen).has_lower ≡ (seen.has_lower || is_lower c)
  unfolding see
  see_lower = ground arith

  see_number : (see c seen).has_number ≡ (seen.has_number || is_digit c)
  unfolding see
  see_number = ground arith

  see_special : (see c seen).has_special ≡ (seen.has_special || is_special c)
  unfolding see
  see_special = ground arith

or_assoc : (a b c : Bool) → ((a || b) || c) ≡ (a || (b || c))
or_assoc a b c = ground arith

scan_upper :
    (p : Text) (seen : Seen)
    → (scan_password p seen).has_upper ≡ (seen.has_upper || exists is_upper p)
unfolding scan_password
scan_upper [] seen = ground arith
scan_upper (c ∷ cs) seen = ground (arith, scan_upper cs (see c seen), see_upper seen c)

scan_lower :
    (p : Text) (seen : Seen)
    → (scan_password p seen).has_lower ≡ (seen.has_lower || exists is_lower p)
unfolding scan_password
scan_lower [] seen = ground arith
scan_lower (c ∷ cs) seen = ground (arith, scan_lower cs (see c seen), see_lower seen c)

scan_number :
    (p : Text) (seen : Seen)
    → (scan_password p seen).has_number ≡ (seen.has_number || exists is_digit p)
unfolding scan_password
scan_number [] seen = ground arith
scan_number (c ∷ cs) seen = ground (arith, scan_number cs (see c seen), see_number seen c)

scan_special :
    (p : Text) (seen : Seen)
    → (scan_password p seen).has_special ≡ (seen.has_special || exists is_special p)
unfolding scan_password
scan_special [] seen = ground arith
scan_special (c ∷ cs) seen = ground (arith, scan_special cs (see c seen), see_special seen c)

-- A password is accepted exactly if its UTF-8 encoding has eight bytes or more, and an upper case
-- letter, a lower case letter, a digit and a special character among its characters.
pub validate_password_lem :
    (p : Text)
    → validate_password p ≡ (
        leb 8 (byte_length p)
        && (exists is_upper p && (exists is_lower p && (exists is_digit p && exists is_special p))))
unfolding validate_password
validate_password_lem p = ground (
  arith,
  scan_upper p nothing_seen,
  scan_lower p nothing_seen,
  scan_number p nothing_seen,
  scan_special p nothing_seen,
)
