-- ===== src/Users.antt =====
-- The checks of a user's input, src/models/users.go. A text is a list of code points.
pub mod Laws
pub mod Emails
use kws.Prelude.{
  ℕ, ◌+◌, Bool, true, false, Text, codes, List, [], ◌∷◌, ◌&&◌, ◌||◌, ◌==◌, not, leb, ltb, length,
  exists, is_digit, if◌then◌else◌,
}

pub record User : Type 0 where
  pub email : Text
  pub first_name : Text
  pub last_name : Text
  pub user_name : Text
  pub password : Text

abbrev pub is_lower : ℕ → Bool
is_lower c = leb b'a' c && leb c b'z'

abbrev pub is_upper : ℕ → Bool
is_upper c = leb b'A' c && leb c b'Z'

abbrev pub is_letter : ℕ → Bool
is_letter c = is_lower c || is_upper c

abbrev pub every : (ℕ → Bool) → Text → Bool
every p [] = true
every p (c ∷ cs) = p c && every p cs

-- `[a-zA-Z0-9._]`.
abbrev pub is_name_char : ℕ → Bool
is_name_char c = is_letter c || (is_digit c || (c == b'.' || c == b'_'))

-- `^[a-zA-Z][a-zA-Z0-9._]{4,29}$`.
unfoldable pub validate_user_name : Text → Bool
validate_user_name [] = false
validate_user_name (c ∷ cs) =
    is_letter c && (every is_name_char cs && (leb 4 (length cs) && leb (length cs) 29))

-- `^[A-Za-z'.-]{2,30}$`.
abbrev pub is_fl_char : ℕ → Bool
is_fl_char c = is_letter c || (c == b'\'' || (c == b'.' || c == b'-'))

abbrev matches_fl : Text → Bool
matches_fl s = every is_fl_char s && (leb 2 (length s) && leb (length s) 30)

unfoldable pub validate_fl_names : User → Bool
validate_fl_names u = matches_fl u.first_name && matches_fl u.last_name

-- `[a-zA-Z0-9._%+\-]` under (?i), which folds U+017F to s and U+212A to k.
abbrev pub is_email_char : ℕ → Bool
is_email_char c =
    is_name_char c || (c == b'%' || (c == b'+' || (c == b'-' || (c == 383 || c == 8490))))

-- A letter and its other case; none of those in `gmail.com` folds with a third one.
abbrev same_letter : ℕ → ℕ → Bool
same_letter c d = c == d || (is_upper c && c + 32 == d)

abbrev is_gmail : Text → Text → Bool
is_gmail [] [] = true
is_gmail [] (d ∷ ds) = false
is_gmail (c ∷ cs) [] = false
is_gmail (c ∷ cs) (d ∷ ds) = same_letter c d && is_gmail cs ds

-- The part after the first @, which no email character is.
abbrev email_rest : Text → Bool
email_rest [] = false
email_rest (c ∷ cs) =
    let rest = email_rest cs in
    if c == b'@' then is_gmail cs (codes "gmail.com") else is_email_char c && rest

-- `(?i)^[a-zA-Z0-9._%+\-]+@gmail\.com$`.
unfoldable pub validate_email : Text → Bool
validate_email [] = false
validate_email (c ∷ cs) = is_email_char c && email_rest cs

-- The bytes of a code point in UTF-8, which `len` counts.
abbrev rune_length : ℕ → ℕ
rune_length c = if ltb c 128 then 1 else if ltb c 2048 then 2 else if ltb c 65536 then 3 else 4

abbrev pub byte_length : Text → ℕ
byte_length [] = 0
byte_length (c ∷ cs) = rune_length c + byte_length cs

abbrev pub is_special : ℕ → Bool
is_special c = exists (λ d. d == c) (codes "!@#$%^&*()-_=+[]{}|;:'\",.<>/?")

pub record Seen : Type 0 where
  pub has_upper : Bool
  pub has_lower : Bool
  pub has_number : Bool
  pub has_special : Bool

-- The switch of the loop.
unfoldable pub see : ℕ → Seen → Seen
see c seen =
    if is_lower c
    then record seen { has_lower = true }
    else if is_upper c
    then record seen { has_upper = true }
    else if is_digit c
    then record seen { has_number = true }
    else if is_special c
    then record seen { has_special = true }
    else seen

unfoldable pub scan_password : Text → Seen → Seen
unfolding see
scan_password [] seen = seen
scan_password (c ∷ cs) seen = scan_password cs (see c seen)

abbrev pub nothing_seen : Seen
nothing_seen = record {
  has_upper = false;
  has_lower = false;
  has_number = false;
  has_special = false;
}

abbrev pub all_seen : Seen → Bool
all_seen seen = seen.has_upper && (seen.has_lower && (seen.has_number && seen.has_special))

unfoldable pub validate_password : Text → Bool
unfolding scan_password
validate_password password =
    if ltb (byte_length password) 8 then false else all_seen (scan_password password nothing_seen)
