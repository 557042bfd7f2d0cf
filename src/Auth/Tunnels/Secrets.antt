-- ===== src/Auth/Tunnels/Secrets.antt =====
-- The secret of a tunnel's client, from its login to the middleware.
use kws.Prelude.{
  ℕ, ◌+◌, ◌^◌, ◌<◌, ◌≡◌, ap, ◌∙◌, sym, true, Text, [], ◌∷◌, none, some, itoa, scan, IsDigit, All,
  scan-itoa_end, itoa-All-IsDigit, itoa-cons, select, arith,
}
use mathlib.Core.Path.{subst}
use kws.Prelude.Int.{ℤ, pos}
use kws.World.{World, UserRow, M, ok, Services, LoginLaws, call}
use kws.Auth.{is_named, atoi, login_user, set_tunnel_login, get_uid_from_tunnel_secret}
use kws.Auth.Tunnels.{login_tunnel_user, is_tunnel_user_authorized}
use kws.Http.{Response, answered}

-- Digits alone are read as a natural number.
atoi_digits :
    (c : ℕ) (cs : Text) (n : ℕ)
    → All IsDigit (c ∷ cs)
    → scan 0 (c ∷ cs) ≡ (n, [])
    → n < 2 ^ 63
    → atoi (c ∷ cs) ≡ some (pos n)
unfolding atoi
atoi_digits c cs n (d, ds) e h = grind (arith, e)

-- strconv.Atoi reads back what was printed.
atoi-itoa : (n : ℕ) → n < 2 ^ 63 → atoi (itoa n) ≡ some (pos n)
atoi-itoa n h =
    let (c, cs, e) = itoa-cons n in
    ap atoi e
    ∙ atoi_digits c cs n (subst (All IsDigit) e (itoa-All-IsDigit n))
        (ap (scan 0) (sym e) ∙ scan-itoa_end n) h

module _ (s : Services) (laws : LoginLaws s) (calm : (n : ℕ) → s.fault n ≡ none) where
  -- The state after the login: four calls, of which the last stored the secret.
  abbrev pub logged_in : UserRow → World s.Memory → World s.Memory
  logged_in r w = record w {
    tick = w.tick + 1 + 1 + 1 + 1;
    redis = s.set w.redis (s.secret (w.tick + 1 + 1)) (itoa r.id);
  }

  login_runs :
      (user_name password : Text) (r : UserRow) (w : World s.Memory)
      → select (is_named user_name) w.users ≡ r ∷ []
      → r.verified ≡ true
      → s.compares r.password_hash password ≡ true
      → login_tunnel_user s true user_name password w
        ≡ (ok (answered (s.secret (w.tick + 1 + 1))), logged_in r w)
  unfolding login_tunnel_user login_user set_tunnel_login call
  login_runs user_name password r w e v c =
      grind
        (arith, calm w.tick, calm (w.tick + 1), calm (w.tick + 1 + 1), calm (w.tick + 1 + 1 + 1))

  -- If no call of a service fails, the form parses, exactly one user has the name, is verified
  -- and has a hash that the password fits, the drawn secret is not empty and the user's id is
  -- below 2^63, then the login of the tunnel's client is answered with the secret, and a request
  -- with it is handled with that user's id.
  pub login_tunnel_user-is_tunnel_user_authorized :
      {A : Type 0} (next : ℤ → M s.Memory (Response A)) (user_name password : Text) (c : ℕ)
      (cs : Text) (r : UserRow) (w : World s.Memory)
      → select (is_named user_name) w.users ≡ r ∷ []
      → r.verified ≡ true
      → s.compares r.password_hash password ≡ true
      → s.secret (w.tick + 1 + 1) ≡ c ∷ cs
      → r.id < 2 ^ 63
      → ((login_tunnel_user s true user_name password w).0 ≡ ok (answered (c ∷ cs)))
        × (is_tunnel_user_authorized s
              (c ∷ cs)
              next
              (login_tunnel_user s true user_name password w).1
            ≡ next (pos r.id) (record (logged_in r w) { tick = w.tick + 1 + 1 + 1 + 1 + 1 }))
  unfolding is_tunnel_user_authorized get_uid_from_tunnel_secret call
  login_tunnel_user-is_tunnel_user_authorized next user_name password c cs r w e v p secret small =
      rw (login_runs user_name password r w e v p) (
        ap (λ t. ok (answered t)) secret,
        grind (
          arith,
          secret,
          calm (w.tick + 1 + 1 + 1 + 1),
          laws.get-set w.redis (c ∷ cs) (itoa r.id),
          atoi-itoa r.id small,
        ),
      )
