-- ===== src/Routes/History.antt =====
-- Histories of the whole program: requests of clients, each with its session, and deliveries of both
-- queues, one after the other.
use kws.Prelude.{ℕ, ◌==◌, Bool, true, false, List, [], ◌∷◌, if◌then◌else◌}
use kws.World.{World, Message, TunnelMessage, Result, ok, err, Services, RedisLaws}
use kws.Address.{IpAllocator}
use kws.Auth.Handlers.{Session}
use kws.TunnelHandlers.{Headers, consume_message_tunnel}
use kws.Jobs.{consume}
use kws.Http.{Response}
use kws.Routes.{Request, Body, serve}
use kws.Routes.Tables.{consume_message_tunnel-IsRows}
use kws.Routes.Carried.{WithinLimits, Carries, Genuine, Good, kept, serve-Good, consume-Carries}

pub data Happening : Type 0 where
  requests : ℕ → Request → Happening
  delivers : Message → Happening
  delivers_tunnel : TunnelMessage → Headers → Happening

-- The session of each client, as its cookie names it, and the state.
pub record System (Memory : Type 0) : Type 0 where
  pub sessions : ℕ → Session
  pub world : World Memory

abbrev pub set_session : ℕ → Session → (ℕ → Session) → ℕ → Session
set_session c u sessions d = if d == c then u else sessions d

module _ (s : Services) (a : IpAllocator) where
  -- LoadAndSave: what the handlers have put into the session is kept with the client's.
  abbrev pub saved :
      ℕ → (ℕ → Session) → Result (Response Body × Session) × World s.Memory → System s.Memory
  saved c sessions (ok (r, u), w) = record { sessions = set_session c u sessions; world = w }
  saved c sessions (err e, w) = record { sessions = sessions; world = w }

  abbrev pub happen : Happening → System s.Memory → System s.Memory
  happen (requests c r) y = saved c y.sessions (serve s a r (y.sessions c) y.world)
  happen (delivers m) y = record y { world = (consume s a m y.world).1 }
  happen (delivers_tunnel m h) y = record y { world = (consume_message_tunnel s m h y.world).1 }

  abbrev pub run : List Happening → System s.Memory → System s.Memory
  run [] y = y
  run (h ∷ hs) y = run hs (happen h y)

module _ (s : Services) (laws : RedisLaws s) (a : IpAllocator) (k : ℕ) where
  -- The user is within the limits, and every authorized session names a verified user.
  abbrev pub Sound : System s.Memory → Type 0
  Sound y = WithinLimits s k y.world × ((c : ℕ) → Genuine s k (y.sessions c) y.world)

  still_Genuine :
      (u : Session) (w v : World s.Memory) → Carries s k w v → Genuine s k u w → Genuine s k u v
  still_Genuine u w v c g x = c.1 u (g x)

  saved-Sound :
      (c : ℕ) (y : System s.Memory) (q : Result (Response Body × Session) × World s.Memory)
      → Good s k y.world q
      → Sound y
      → Sound (saved s a c y.sessions q)
  saved-Sound c y (ok (r, u), w) (carried, genuine) (limits, known) =
      (carried.0 limits, λ d. by_client d (d == c))
    where
      by_client : (d : ℕ) (b : Bool) → Genuine s k (if b then u else y.sessions d) w
      by_client d true = genuine
      by_client d false = still_Genuine (y.sessions d) y.world w carried (known d)
  saved-Sound c y (err e, w) (carried, t) (limits, known) =
      (carried.0 limits, λ d. still_Genuine (y.sessions d) y.world w carried (known d))

  delivered-Sound :
      (y : System s.Memory) (w : World s.Memory)
      → Carries s k y.world w
      → Sound y
      → Sound (record y { world = w })
  delivered-Sound y w carried (limits, known) =
      (carried.0 limits, λ d. still_Genuine (y.sessions d) y.world w carried (known d))

  happen-Sound : (h : Happening) (y : System s.Memory) → Sound y → Sound (happen s a h y)
  happen-Sound (requests c r) y sound =
      saved-Sound c y (serve s a r (y.sessions c) y.world)
        (serve-Good s laws a k r (y.sessions c) y.world (sound.1 c)) sound
  happen-Sound (delivers m) y sound =
      delivered-Sound y (consume s a m y.world).1 (consume-Carries s a k m y.world) sound
  happen-Sound (delivers_tunnel m h) y sound =
      delivered-Sound y (consume_message_tunnel s m h y.world).1
        (kept s k (consume_message_tunnel s m h) (consume_message_tunnel-IsRows s m h) y.world)
        sound

  -- Whatever requests clients send and whatever messages the two queues deliver, one after the
  -- other, and whatever the calls of the services answer: a user with at most three devices, five
  -- roles and one instance stays within these limits, and if every authorized session names a
  -- verified user by id and name, so do all sessions afterwards.
  pub run-Sound : (hs : List Happening) (y : System s.Memory) → Sound y → Sound (run s a hs y)
  run-Sound [] y sound = sound
  run-Sound (h ∷ hs) y sound = run-Sound hs (happen s a h y) (happen-Sound h y sound)
