-- ===== src/Tests/Codec.antt =====
-- A way to write the result of a deployment as a text, and to read it back.
use kws.Prelude.{
  ℕ, zero, suc, ◌≡◌, refl, ap, ◌∙◌, Bool, true, false, Text, [], ◌∷◌, Option, none, some,
}
use kws.World.{WebInstance}

-- A text up to its end, and what follows.
abbrev encode : Text → Text → Text
encode [] after = 0 ∷ after
encode (c ∷ cs) after = suc c ∷ encode cs after

abbrev decode : Text → Text × Text
decode [] = ([], [])
decode (zero ∷ cs) = ([], cs)
decode (suc c ∷ cs) = let (t, after) = decode cs in (c ∷ t, after)

decode-encode : (t after : Text) → decode (encode t after) ≡ (t, after)
decode-encode [] after = refl
decode-encode (c ∷ cs) after = ap (λ p. (c ∷ p.0, p.1)) (decode-encode cs after)

abbrev flag : Bool → ℕ
flag true = 1
flag false = 0

abbrev is_set : ℕ → Bool
is_set zero = false
is_set (suc n) = true

is_set-flag : (b : Bool) → is_set (flag b) ≡ b
is_set-flag true = refl
is_set-flag false = refl

abbrev pub print_instance : WebInstance → Text
print_instance i =
    flag i.success ∷ encode i.container_id (encode i.username (encode i.password (encode i.ip [])))

abbrev fields : Bool → Text → WebInstance
fields success cs =
    let (container_id, us) = decode cs in
    let (username, ps) = decode us in
    let (password, rs) = decode ps in
    let (ip, end) = decode rs in
    record {
      container_id = container_id;
      success = success;
      username = username;
      password = password;
      ip = ip;
    }

abbrev pub read_instance : Text → Option WebInstance
read_instance [] = none
read_instance (b ∷ cs) = some (fields (is_set b) cs)

pub read-print : (i : WebInstance) → read_instance (print_instance i) ≡ some i
read-print i =
    ap
      (λ p. some (record {
        container_id = p.0;
        success = is_set (flag i.success);
        username = (decode p.1).0;
        password = (decode (decode p.1).1).0;
        ip = (decode (decode (decode p.1).1).1).0;
      }))
      (decode-encode i.container_id _)
    ∙ ap
        (λ p. some (record {
          container_id = i.container_id;
          success = is_set (flag i.success);
          username = p.0;
          password = (decode p.1).0;
          ip = (decode (decode p.1).1).0;
        }))
        (decode-encode i.username _)
    ∙ ap
        (λ p. some (record {
          container_id = i.container_id;
          success = is_set (flag i.success);
          username = i.username;
          password = p.0;
          ip = (decode p.1).0;
        }))
        (decode-encode i.password _)
    ∙ ap
        (λ p. some (record {
          container_id = i.container_id;
          success = is_set (flag i.success);
          username = i.username;
          password = i.password;
          ip = p.0;
        }))
        (decode-encode i.ip _)
    ∙ ap (λ b. some (record i { success = b })) (is_set-flag i.success)
