-- ===== src/Routes/Guarded.antt =====
-- Requests without an authorized session.
use kws.Prelude.{
  ◌≡◌, refl, ◌⊎◌, inl, inr, Bool, true, false, Text, text_eq, codes, List, [], ◌∷◌, ◌++◌, Option,
  none, some, exists, ◌&&◌, ◌||◌, if◌then◌else◌, arith,
}
use kws.World.{World, Result, ok, Services}
use kws.Address.{IpAllocator}
use kws.Auth.Handlers.{Session, signin, is_authorized}
use kws.Http.{Response, refused, redirected}
use kws.Routes.{
  Method, get, post, other, unknown, find_route, Entry, Group, protected, tunnel, public, Target,
  found, nothing_mounted, not_found, not_allowed, find, same_method, target, tunnel_table,
  protected_table, services_table, public_table, mounted, is_file, behind, Request, Body,
  not_found_code, not_allowed_code, dispatch, recovered, serve,
}

-- The paths that the router serves without IsAuthorized.
abbrev pub open_paths : List Text
open_paths =
    codes "/create_tunnel"
    ∷ codes "/destroy_tunnel"
    ∷ codes "/create_user"
    ∷ codes "/verify"
    ∷ codes "/login"
    ∷ codes "/kws_register"
    ∷ codes "/kws_signin"
    ∷ codes "/tunnel_login"
    ∷ []

abbrev pub is_open : Text → Bool
is_open path = exists (λ p. text_eq p path) open_paths || is_file path

-- What a request that finds nothing open comes to.
abbrev IsClosed : Target → Type 0
IsClosed (found protected route) = Unit
IsClosed (found _ route) = ⊥
IsClosed (nothing_mounted b) = Unit
IsClosed Target.file = ⊥
IsClosed not_found = Unit
IsClosed not_allowed = Unit

abbrev has_path : Text → Entry → Bool
has_path path e = text_eq e.path path

abbrev is_protected : Group → Bool
is_protected protected = true
is_protected _ = false

abbrev all_protected : List Entry → Bool
all_protected [] = true
all_protected (e ∷ es) = is_protected e.group && all_protected es

and_true : (a b : Bool) → (a && b) ≡ true → (a ≡ true) × (b ≡ true)
and_true true b h = (refl, h)
and_true false b h = cc

find-skip :
    (m : Method) (path : Text) (es fs : List Entry)
    → exists (has_path path) es ≡ false
    → find m path (es ++ fs) ≡ find m path fs
unfolding find
find-skip m path [] fs h = refl
find-skip m path (e ∷ es) fs h = ground (arith, find-skip m path es fs)

found-IsClosed :
    (e : Entry) (b : Bool)
    → is_protected e.group ≡ true
    → IsClosed (if b then found e.group e.route else not_allowed)
found-IsClosed e false h = tt
found-IsClosed e true h = by_group e.group h
  where
    by_group : (g : Group) → is_protected g ≡ true → IsClosed (found g e.route)
    by_group protected h = tt
    by_group tunnel h = cc
    by_group public h = cc

find-IsClosed :
    (m : Method) (path : Text) (es fs : List Entry)
    → all_protected es ≡ true
    → IsClosed (find m path fs)
    → IsClosed (find m path (es ++ fs))
unfolding find
find-IsClosed m path [] fs h k = k
find-IsClosed m path (e ∷ es) fs h k =
    let (here, rest) = and_true (is_protected e.group) (all_protected es) h in
    by_path (text_eq e.path path) here (find-IsClosed m path es fs rest k)
  where
    by_path :
        (b : Bool)
        → is_protected e.group ≡ true
        → IsClosed (find m path (es ++ fs))
        → IsClosed (
            if b
            then (if same_method e.method m then found e.group e.route else not_allowed)
            else find m path (es ++ fs))
    by_path true g rest = found-IsClosed e (same_method e.method m) g
    by_path false g rest = rest

behind-IsClosed : (t : Target) → IsClosed t → IsClosed (behind t)
behind-IsClosed (found g route) h = h
behind-IsClosed (nothing_mounted b) h = h
behind-IsClosed Target.file h = h
behind-IsClosed not_found h = tt
behind-IsClosed not_allowed h = tt

or_false : (a b : Bool) → (a || b) ≡ false → (a ≡ false) × (b ≡ false)
or_false true b h = cc
or_false false b h = (refl, h)

tunnel_paths :
    (path : Text)
    → exists (λ p. text_eq p path) open_paths ≡ false
    → exists (has_path path) tunnel_table ≡ false
tunnel_paths path h = ground arith

public_paths :
    (path : Text)
    → exists (λ p. text_eq p path) open_paths ≡ false
    → exists (has_path path) (public_table ++ []) ≡ false
public_paths path h = ground arith

-- The whole table, for a path that is not open.
table-IsClosed :
    (m : Method) (path : Text)
    → exists (λ p. text_eq p path) open_paths ≡ false
    → IsClosed (find m path (tunnel_table ++ (protected_table ++ public_table)))
unfolding find
table-IsClosed m path h =
    rw (find-skip m path tunnel_table (protected_table ++ public_table) (tunnel_paths path h)) (
      find-IsClosed m path protected_table public_table refl
        (rw (find-skip m path public_table [] (public_paths path h)) tt))

find_route-IsClosed :
    (m : Method) (path : Text) → is_open path ≡ false → IsClosed (find_route m path)
unfolding find_route
find_route-IsClosed m path h = by_mount (mounted path)
  where
    closed : (exists (λ p. text_eq p path) open_paths ≡ false) × (is_file path ≡ false)
    closed = or_false (exists (λ p. text_eq p path) open_paths) (is_file path) h

    by_file :
        (b : Bool)
        → b ≡ false
        → IsClosed (
            if b
            then Target.file
            else find m path (tunnel_table ++ (protected_table ++ public_table)))
    by_file true e = cc
    by_file false e = table-IsClosed m path closed.0

    by_mount :
        (o : Option Text)
        → IsClosed (elim o as (λ x. Target) [
          | some rest ↦ behind (find m rest services_table)
          | none ↦
              if is_file path
              then Target.file
              else find m path (tunnel_table ++ (protected_table ++ public_table))
        ])
    by_mount (some rest) =
        behind-IsClosed (find m rest services_table)
          (find-IsClosed m rest services_table [] refl tt)
    by_mount none = by_file (is_file path) closed.1

target-IsClosed : (m : Method) (path : Text) → is_open path ≡ false → IsClosed (target m path)
unfolding target
target-IsClosed unknown path h = tt
target-IsClosed get path h = find_route-IsClosed get path h
target-IsClosed post path h = find_route-IsClosed post path h
target-IsClosed other path h = find_route-IsClosed other path h

module _ (s : Services) (a : IpAllocator) where
  -- Sent to the sign-in page, or to no page at all.
  abbrev pub TurnedAway :
      Session → World s.Memory → Result (Response Body × Session) × World s.Memory → Type 0
  TurnedAway u w q =
      (q ≡ (ok (redirected signin, u), w))
      ⊎ ((q ≡ (ok (refused not_found_code, u), w)) ⊎ (q ≡ (ok (refused not_allowed_code, u), w)))

  closed-TurnedAway :
      (t : Target) (r : Request) (u : Session) (w : World s.Memory)
      → u.is_authorized ≡ false
      → IsClosed t
      → TurnedAway u w (recovered s a u (dispatch s a t r u w))
  unfolding dispatch is_authorized
  closed-TurnedAway (found protected route) r u w h c = inl (ground arith)
  closed-TurnedAway (found tunnel route) r u w h c = absurd c
  closed-TurnedAway (found public route) r u w h c = absurd c
  closed-TurnedAway (nothing_mounted b) r u w h c = inl (ground arith)
  closed-TurnedAway Target.file r u w h c = absurd c
  closed-TurnedAway not_found r u w h c = inr (inl refl)
  closed-TurnedAway not_allowed r u w h c = inr (inr refl)

  -- A request whose session is not authorized, for a path that is neither one of the eight that
  -- stand outside IsAuthorized nor below /js/ or /css/, changes nothing, its session included,
  -- and is answered with the redirection to the sign-in page, with 404 or with 405.
  pub serve-TurnedAway :
      (r : Request) (u : Session) (w : World s.Memory)
      → u.is_authorized ≡ false
      → is_open r.path ≡ false
      → TurnedAway u w (serve s a r u w)
  unfolding serve
  serve-TurnedAway r u w h c =
      closed-TurnedAway (target r.method r.path) r u w h (target-IsClosed r.method r.path c)
