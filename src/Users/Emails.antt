-- ===== src/Users/Emails.antt =====
-- An accepted address has no colon, at which the handler of src/cmd/auth_handler.go splits.
use kws.Prelude.{◌≡◌, refl, true, Text, codes, [], ◌∷◌, arith}
use kws.World.{colon_free}
use kws.Users.{is_gmail, email_rest, validate_email}

gmail_colon_free :
    (cs ds : Text) → colon_free ds ≡ true → is_gmail cs ds ≡ true → colon_free cs ≡ true
gmail_colon_free [] ds h e = refl
gmail_colon_free (c ∷ cs) [] h e = cc
gmail_colon_free (c ∷ cs) (d ∷ ds) h e = ground (arith, gmail_colon_free cs ds)

rest_colon_free : (cs : Text) → email_rest cs ≡ true → colon_free cs ≡ true
rest_colon_free [] e = cc
rest_colon_free (c ∷ cs) e =
    ground (arith, gmail_colon_free cs (codes "gmail.com") refl, rest_colon_free cs)

-- An accepted address has no colon.
pub email_colon_free : (email : Text) → validate_email email ≡ true → colon_free email ≡ true
unfolding validate_email
email_colon_free [] e = cc
email_colon_free (c ∷ cs) e = ground (arith, rest_colon_free cs)
