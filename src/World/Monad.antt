-- ===== src/World/Monad.antt =====
-- The state of the program and its surroundings, and the monad of an operation: it returns a
-- value or an error, and the state after it. Each call of a service takes one tick.
use kws.Prelude.{ℕ, ◌+◌, Bool, true, false, Text, List, ◌∷◌, Option, none, some, if◌then◌else◌}
use kws.World.Errors.{
  Error, serialization, exited, nil_dereference, index_out_of_range, waits_forever, failed,
}
use kws.World.Tables.{
  UserRow, Peer, UserIp, InstanceRow, DomainRow, TunnelRow, PgUserRow, PgDbRow, Message,
  TunnelMessage, Event,
}
use kws.World.External.{Fault, conflict, broken, Services}

pub record World (Memory : Type 0) : Type 0 where
  pub tick : ℕ
  pub redis : Memory
  pub users : List UserRow
  pub peers : List Peer
  pub userips : List UserIp
  pub instances : List InstanceRow
  pub domains : List DomainRow
  pub tunnels : List TunnelRow
  pub pg_users : List PgUserRow
  pub pg_dbs : List PgDbRow
  pub next_id : ℕ
  pub next_user_id : ℕ
  -- The main queues of RabbitMQ, the next message first, and the channels of the pool.
  pub instance_queue : List Message
  pub tunnel_queue : List TunnelMessage
  pub pool : List ℕ
  -- The map `retries` of src/cmd/instance_utility.go; a missing key counts 0.
  pub retries : Text → ℕ
  -- The commands carried out so far, the latest first.
  pub log : List Event

abbrev pub ⊤ : Type 0
⊤ = Unit

pub data Result (A : Type 0) : Type 0 where
  ok : A → Result A
  err : Error → Result A

abbrev pub M : Type 0 → Type 0 → Type 0
M Memory A = World Memory → Result A × World Memory

module _ {Memory : Type 0} {A : Type 0} where
  abbrev pub pure : A → M Memory A
  pure a w = (ok a, w)

  abbrev pub raise : Error → M Memory A
  raise e w = (err e, w)

  abbrev pub gets : (World Memory → A) → M Memory A
  gets f w = (ok (f w), w)

  -- Go's `x, err := m`, where the code goes on by cases on the error.
  abbrev pub try : M Memory A → M Memory (Result A)
  try m w = let (r, w') = m w in (ok r, w')

-- The process is gone, the goroutine panics, or it waits: no caller sees an error value.
abbrev pub is_crash : Error → Bool
is_crash exited = true
is_crash nil_dereference = true
is_crash index_out_of_range = true
is_crash waits_forever = true
is_crash _ = false

-- `try` for an operation that may end the process.
abbrev pub attempted :
    {Memory A : Type 0} → Result A × World Memory → Result (Result A) × World Memory
attempted (ok a, w) = (ok (ok a), w)
attempted (err e, w) = if is_crash e then (err e, w) else (ok (err e), w)

abbrev pub attempt : {Memory A : Type 0} → M Memory A → M Memory (Result A)
attempt m w = attempted (m w)

infixl 5 ◌>>=◌ ◌>>◌
abbrev pub ◌>>=◌ : {Memory A B : Type 0} → M Memory A → (A → M Memory B) → M Memory B
◌>>=◌ m f w = let (r, w') = m w in elim r [ ok a ↦ f a w' | err e ↦ (err e, w') ]

abbrev pub ◌>>◌ : {Memory A B : Type 0} → M Memory A → M Memory B → M Memory B
m >> k = m >>= λ _. k

module _ {Memory : Type 0} where
  abbrev pub modify : (World Memory → World Memory) → M Memory ⊤
  modify f w = (ok tt, f w)

  abbrev pub raise_if : Bool → Error → M Memory ⊤
  raise_if b e w = (if b then err e else ok tt, w)

  -- A command that is carried out for certain, such as the answer to a delivery.
  abbrev pub note : Event → M Memory ⊤
  note e w = (ok tt, record w { log = e ∷ w.log })

abbrev pub to_error : Fault → Error
to_error conflict = serialization
to_error (broken n) = failed n

abbrev pub outcome : Option Fault → Result ⊤
outcome none = ok tt
outcome (some f) = err (to_error f)

module _ (s : Services) where
  -- A call of a service: it goes through, or fails and has had no effect.
  unfoldable pub call : M s.Memory ⊤
  call w = (outcome (s.fault w.tick), record w { tick = w.tick + 1 })

  -- The number of the next call, by which a service's answer to it is known.
  abbrev pub now : M s.Memory ℕ
  now w = (ok w.tick, w)

  unfoldable pub command : Event → M s.Memory ⊤
  unfolding call
  command e = do call; note e
