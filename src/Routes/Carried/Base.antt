-- ===== src/Routes/Carried/Base.antt =====
-- A user's limits and the users that sessions name, over one operation.
use kws.Prelude.{ℕ, ◌≤◌, ◌≡◌, ◌==◌, ◌&&◌, Bool, true, text_eq, count, exists, arith}
use kws.World.{World, UserRow, M, attempt, ◌>>=◌, Services}
use kws.World.Frame.{Keeps, Keeps-bind, Keeps-attempt}
use kws.Auth.Handlers.{Session}
use kws.Peers
use kws.Postgres
use kws.Instances
use kws.Untouched.{Same, Rows, rows}

-- The row of a verified user whom a session names.
abbrev pub is_known : Session → UserRow → Bool
is_known u r = r.id == u.id && (text_eq r.user_name u.user_name && r.verified)

module _ (s : Services) (k : ℕ) where
  -- At most three devices, five roles and one instance.
  abbrev pub WithinLimits : World s.Memory → Type 0
  WithinLimits w =
      (count (Peers.owned_by k) w.peers ≤ 3)
      × (count (Postgres.of_user k) w.pg_users ≤ 5)
      × (count (Instances.of_user k) w.instances ≤ 1)

  abbrev pub Known : Session → World s.Memory → Type 0
  Known u w = exists (is_known u) w.users ≡ true

  abbrev pub Carries : World s.Memory → World s.Memory → Type 0
  Carries w v = (WithinLimits w → WithinLimits v) × ((u : Session) → Known u w → Known u v)

  pub Carries-trans : (u v w : World s.Memory) → Carries u v → Carries v w → Carries u w
  Carries-trans u v w (a, b) (c, d) = (λ h. c (a h), λ x h. d x (b x h))

  pub Carries-refl : (w : World s.Memory) → Carries w w
  Carries-refl w = (λ h. h, λ u h. h)

  pub bind :
      {A B : Type 0} (m : M s.Memory A) (f : A → M s.Memory B)
      → Keeps Carries m
      → ((a : A) → Keeps Carries (f a))
      → Keeps Carries (m >>= f)
  bind = Keeps-bind Carries Carries-trans

  pub attempt-Carries :
      {A : Type 0} (m : M s.Memory A) → Keeps Carries m → Keeps Carries (attempt m)
  attempt-Carries = Keeps-attempt Carries Carries-trans

  pub kept : {A : Type 0} (m : M s.Memory A) → Keeps (Rows s) m → Keeps Carries m
  kept m h w = let (users, peers, roles, instances) = h w in (λ h. ground arith, λ u h. rw users h)

  pub same : {A : Type 0} (m : M s.Memory A) → Keeps (Same s) m → Keeps Carries m
  same m h = kept m (rows s m h)
