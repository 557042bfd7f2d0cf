-- ===== src/Untouched/Frame.antt =====
-- What an operation leaves alone, through the monad.
use kws.Prelude.{◌≡◌, ◌∙◌, Bool, true, false, select, if◌then◌else◌}
use kws.World.{World, Event, acked, nacked, M, Result, attempt, ◌>>=◌, ◌>>◌, Services}
use kws.World.Frame.{Keeps, Keeps-bind, Keeps-attempt}

-- An answer to a delivery.
abbrev pub is_answer : Event → Bool
is_answer acked = true
is_answer nacked = true
is_answer _ = false

module _ (s : Services) where
  -- The rows of users, devices, roles and instances are as before.
  abbrev pub Rows : World s.Memory → World s.Memory → Type 0
  Rows w v =
      (v.users ≡ w.users)
      × (v.peers ≡ w.peers)
      × (v.pg_users ≡ w.pg_users)
      × (v.instances ≡ w.instances)

  pub Rows-trans : (u v w : World s.Memory) → Rows u v → Rows v w → Rows u w
  Rows-trans u v w (a, b, c, d) (e, f, g, h) = (e ∙ a, f ∙ b, g ∙ c, h ∙ d)

  -- So are the retry counters and the answers to deliveries.
  abbrev pub Quiet : World s.Memory → World s.Memory → Type 0
  Quiet w v = (v.retries ≡ w.retries) × (select is_answer v.log ≡ select is_answer w.log)

  pub Quiet-trans : (u v w : World s.Memory) → Quiet u v → Quiet v w → Quiet u w
  Quiet-trans u v w (a, b) (c, d) = (c ∙ a, d ∙ b)

  abbrev pub Same : World s.Memory → World s.Memory → Type 0
  Same w v = Rows w v × Quiet w v

  abbrev pub IsSame : {A : Type 0} → M s.Memory A → Type 0
  IsSame = Keeps Same

  pub Same-trans : (u v w : World s.Memory) → Same u v → Same v w → Same u w
  Same-trans u v w (a, b) (c, d) = (Rows-trans u v w a c, Quiet-trans u v w b d)

  pub bind :
      {A B : Type 0} (m : M s.Memory A) (f : A → M s.Memory B)
      → IsSame m
      → ((a : A) → IsSame (f a))
      → IsSame (m >>= f)
  bind = Keeps-bind Same Same-trans

  pub chain :
      {A B : Type 0} (m : M s.Memory A) (k : M s.Memory B) → IsSame m → IsSame k → IsSame (m >> k)
  chain m k h j = bind m (λ _. k) h (λ _. j)

  pub if-IsSame :
      {A : Type 0} (b : Bool) (m n : M s.Memory A)
      → IsSame m
      → IsSame n
      → IsSame (if b then m else n)
  if-IsSame true m n h j = h
  if-IsSame false m n h j = j

  pub attempt-IsSame : {A : Type 0} (m : M s.Memory A) → IsSame m → IsSame (attempt m)
  attempt-IsSame = Keeps-attempt Same Same-trans

  -- How the answer follows from a result.
  pub answer-IsSame :
      {A B : Type 0} (m : M s.Memory A) (f : Result A → M s.Memory B)
      → IsSame m
      → ((r : Result A) → IsSame (f r))
      → IsSame (attempt m >>= f)
  answer-IsSame m f h k = bind (attempt m) f (attempt-IsSame m h) k

  abbrev pub IsRows : {A : Type 0} → M s.Memory A → Type 0
  IsRows = Keeps Rows

  abbrev pub IsQuiet : {A : Type 0} → M s.Memory A → Type 0
  IsQuiet = Keeps Quiet

  pub rows : {A : Type 0} (m : M s.Memory A) → IsSame m → IsRows m
  rows m h w = (h w).0

  pub quiet : {A : Type 0} (m : M s.Memory A) → IsSame m → IsQuiet m
  quiet m h w = (h w).1

  pub rows_bind :
      {A B : Type 0} (m : M s.Memory A) (f : A → M s.Memory B)
      → IsRows m
      → ((a : A) → IsRows (f a))
      → IsRows (m >>= f)
  rows_bind = Keeps-bind Rows Rows-trans

  -- An attempt that leaves all of it alone, before the rest.
  pub rows_then :
      {A B : Type 0} (m : M s.Memory A) (k : M s.Memory B)
      → IsSame m
      → IsRows k
      → IsRows (attempt m >> k)
  rows_then m k h j =
      rows_bind (attempt m) (λ _. k) (rows (attempt m) (attempt-IsSame m h)) (λ _. j)
