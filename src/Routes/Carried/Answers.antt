-- ===== src/Routes/Carried/Answers.antt =====
-- The answer to a request, with the session that it leaves.
use kws.Prelude.{
  ℕ, ◌≡◌, inl, inr, Bool, true, false, Bool-cases, Text, text_eq_refl, List, [], ◌∷◌, some, select,
  exists, arith, if◌then◌else◌,
}
use kws.World.{World, UserRow, M, Result, ok, err, ⊤, Services}
use kws.World.Frame.{Keeps}
use kws.Address.{IpAllocator}
use kws.Auth.{is_named, first_user}
use kws.Auth.Handlers as AuthHandlers
use kws.Auth.Handlers.{Session, home, session_of, is_authorized}
use kws.Auth.Handlers.Login.{LoggedIn, login-LoggedIn}
use kws.Http.{Response, refused, redirected, internal_server_error}
use kws.Routes.{Body, Served, sends, worked_on, parsed_or, with_session, reply, recovered, is_panic}
use kws.Routes.Tables.{login-IsSame}
use kws.Routes.Carried.Base.{is_known, Known, Carries, same}

known_first :
    (name : Text) (r : UserRow) (us : List UserRow)
    → first_user (select (is_named name) us) ≡ some r
    → r.verified ≡ true
    → exists (is_known (session_of r)) us ≡ true
known_first name r [] h v = cc
known_first name r (x ∷ us) h v = ground (arith, known_first name r us, text_eq_refl r.user_name)

module _ (s : Services) (k : ℕ) where
  -- An authorized session names a verified user.
  abbrev pub Genuine : Session → World s.Memory → Type 0
  Genuine u w = u.is_authorized ≡ true → Known s k u w

  abbrev Speaks : {A : Type 0} → Result (A × Session) × World s.Memory → Type 0
  Speaks (ok (r, u), v) = Genuine u v
  Speaks (err e, v) = ⊤

  -- What one answer does, from a state and a session that names a verified user.
  abbrev pub Good : {A : Type 0} → World s.Memory → Result (A × Session) × World s.Memory → Type 0
  Good w q = Carries s k w q.1 × Speaks q

  pub unchanged :
      (r : Response Body) (u : Session) (w : World s.Memory) → Genuine u w → Good w (ok (r, u), w)
  unchanged r u w h = ((λ x. x, λ x y. y), h)

  module _ (a : IpAllocator) where
    pub sends-Good :
        {A : Type 0} (body : A → Body) (u : Session) (m : M s.Memory (Response A))
        → Keeps (Carries s k) m
        → (w : World s.Memory) → Genuine u w
        → Good w (sends s a body u m w)
    sends-Good {A} body u m h w g = by_result (m w) (h w)
      where
        by_result :
            (q : Result (Response A) × World s.Memory)
            → Carries s k w q.1
            → Good w (elim q.0 as (λ x. Result (Response Body × Session) × World s.Memory) [
              | ok r ↦ (ok (reply body r, u), q.1)
              | err e ↦ (err e, q.1)
            ])
        by_result (ok r, v) c = (c, λ x. c.1 u (g x))
        by_result (err e, v) c = (c, tt)

    pub worked_on-Good :
        (parsed : Bool) (m : Served s a) (w : World s.Memory)
        → Good w (m w)
        → Good w (worked_on s a parsed m w)
    worked_on-Good parsed m w h = by_result (m w) h
      where
        by_result :
            (q : Result (Response Body × Session) × World s.Memory)
            → Good w q
            → Good w (elim q.0 as (λ x. Result (Response Body × Session) × World s.Memory) [
              | ok r ↦ (ok (parsed_or s a parsed r), q.1)
              | err e ↦ (err e, q.1)
            ])
        by_result (ok (r, u), v) g = by_parsed parsed
          where
            by_parsed : (b : Bool) → Good w (ok (parsed_or s a b (r, u)), v)
            by_parsed true = g
            by_parsed false = g
        by_result (err e, v) g = g

    pub with_session-Good :
        (m : M s.Memory (Response ⊤ × Session)) (w : World s.Memory)
        → Good w (m w)
        → Good w (with_session s a m w)
    with_session-Good m w h = by_result (m w) h
      where
        by_result :
            (q : Result (Response ⊤ × Session) × World s.Memory)
            → Good w q
            → Good w (elim q.0 as (λ x. Result (Response Body × Session) × World s.Memory) [
              | ok r ↦ (ok (reply (λ _. Body.empty) r.0, r.1), q.1)
              | err e ↦ (err e, q.1)
            ])
        by_result (ok (r, u), v) g = g
        by_result (err e, v) g = g

    -- A panic is answered, and leaves the session.
    pub recovered-Good :
        (u : Session) (w : World s.Memory) (q : Result (Response Body × Session) × World s.Memory)
        → Genuine u w
        → Good w q
        → Good w (recovered s a u q)
    recovered-Good u w (ok answer, v) g h = h
    recovered-Good u w (err e, v) g (c, t) = by_panic (is_panic e)
      where
        by_panic :
            (b : Bool)
            → Good w (
                if◌then◌else◌ {A = Result (Response Body × Session) × World s.Memory} b
                  (ok (refused internal_server_error, u), v)
                  (err e, v))
        by_panic true = (c, λ x. c.1 u (g x))
        by_panic false = (c, tt)

  LoggedIn-Genuine :
      (u : Session) (n p : Text) (w : World s.Memory)
      (q : Result (Response ⊤ × Session) × World s.Memory)
      → Genuine u w
      → LoggedIn s u n p w q
      → Speaks q
  LoggedIn-Genuine u n p w (ok (r, x), v) g (inl e, users, redis) = ground (arith, g)
  LoggedIn-Genuine u n p w (ok (r, x), v) g (inr (row, (first, verified, hash), e), users, redis) =
      λ y. ground (arith, known_first n row w.users first verified)
  LoggedIn-Genuine u n p w (err e, v) g h = tt

  login_again :
      (u : Session) (n p : Text) (w : World s.Memory)
      → u.is_authorized ≡ true
      → AuthHandlers.login s u n p w ≡ (ok (redirected home, u), w)
  unfolding AuthHandlers.login
  login_again u n p w h = ground (arith, h)

  pub login-Good :
      (u : Session) (n p : Text) (w : World s.Memory)
      → Genuine u w
      → Good w (AuthHandlers.login s u n p w)
  login-Good u n p w g = (same s k (AuthHandlers.login s u n p) (login-IsSame s u n p) w, speaks)
    where
      speaks : Speaks (AuthHandlers.login s u n p w)
      speaks = elim (Bool-cases u.is_authorized) [
        | inl old ↦ rw (login_again u n p w old) g
        | inr new ↦
            LoggedIn-Genuine u n p w (AuthHandlers.login s u n p w) g (login-LoggedIn s u n p w new)
      ]

  pub log_out_user-Good :
      (u : Session) (w : World s.Memory) → Genuine u w → Good w (AuthHandlers.log_out_user s u w)
  unfolding AuthHandlers.log_out_user
  log_out_user-Good u w g = ground (arith, g)
