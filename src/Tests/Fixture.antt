-- ===== src/Tests/Fixture.antt =====
-- A small Redis, and services that answer from given tables.
use kws.Prelude.{
  ℕ, ◌+◌, ◌==◌, ◌++◌, map, arith, ◌≡◌, refl, ap, ◌∙◌, ◌≢◌, true, false, Text, text_eq, text_eq_iff,
  text_eq_refl, codes, List, [], ◌∷◌, Option, none, some, if◌then◌else◌, Bool-cases, inl, inr,
}
use kws.World.{
  World, Fault, Reply, nil, number, Services, StringLaws, RedisLaws, LoginLaws, colon_free,
}
use kws.Tests.Codec.{print_instance, read_instance, read-print}

pub record Memory : Type 0 where
  pub stacks : Text → List ℕ
  pub strings : Text → Option Text

abbrev pub set_at : {A : Type 0} → Text → A → (Text → A) → Text → A
set_at k a f j = if text_eq j k then a else f j

abbrev front : List ℕ → Reply
front [] = nil
front (v ∷ vs) = number v

abbrev rest : List ℕ → List ℕ
rest [] = []
rest (v ∷ vs) = vs

abbrev show : Text → Option Text → Text
show k none = codes "get " ++ k ++ codes ": redis: nil"
show k (some v) = codes "get " ++ (k ++ (codes ": " ++ v))

abbrev present : Option Text → ℕ
present none = 0
present (some v) = 1

no_colon : (t : Text) → colon_free (map (λ c. if c == b':' then c + 1 else c) t) ≡ true
no_colon [] = refl
no_colon (c ∷ cs) = ground (arith, no_colon cs)

-- Which calls fail, and which containers LXD has.
abbrev pub services : (ℕ → Option Fault) → List Text → Services
services fault containers = record {
  Memory = Memory;
  lpush = λ m k v. record m { stacks = set_at k (v ∷ m.stacks k) m.stacks };
  lpop = λ m k. (front (m.stacks k), record m { stacks = set_at k (rest (m.stacks k)) m.stacks });
  set = λ m k v. record m { strings = set_at k (some v) m.strings };
  get = λ m k. m.strings k;
  del = λ m k. (present (m.strings k), record m { strings = set_at k none m.strings });
  fault = fault;
  containers = λ n. containers;
  is_running = λ n. false;
  container_ip = λ n. some (codes "172.30.0.2");
  conf_missing = λ n. false;
  marshal = print_instance;
  unmarshal = read_instance;
  parses = λ k. true;
  key_of = λ k. k;
  device = λ n. [];
  hash = λ n p. some p;
  compares = text_eq;
  sha256 = λ t. map (λ c. if c == b':' then c + 1 else c) t;
  time = λ n. codes "now";
  nanoseconds = λ n. n;
  uuid = λ n. codes "f0";
  secret = λ n. codes "5ec7e7";
  show_get = show;
  show_failure = λ n k. codes "get: refused";
  present = λ n. false;
  links = λ n. [];
  is_closed = λ n c. false;
  opened = λ n. n;
}

abbrev set_at_same : {A : Type 0} (k : Text) (a : A) (f : Text → A) → set_at k a f k ≡ a
set_at_same k a f = ap (λ b. if b then a else f k) (text_eq_refl k)

set_at_other : {A : Type 0} (k j : Text) (a : A) (f : Text → A) → j ≢ k → set_at k a f j ≡ f j
set_at_other k j a f ne = elim (Bool-cases (text_eq j k)) [
  | inl e ↦ absurd (ne ((text_eq_iff j k).0 e))
  | inr e ↦ ap (λ b. if b then a else f j) e
]

abbrev pub redis_laws : (fault : ℕ → Option Fault) (cs : List Text) → RedisLaws (services fault cs)
redis_laws fault cs = record {
  range = λ m k. m.stacks k;
  lpop-nil = λ m k e. (ap front e, set_at_same k _ m.stacks ∙ ap rest e);
  lpop-cons = λ m k v vs e. (ap front e, set_at_same k _ m.stacks ∙ ap rest e);
  lpush-cons = λ m k v. set_at_same k _ m.stacks;
}

pub string_laws : (fault : ℕ → Option Fault) (cs : List Text) → StringLaws (services fault cs)
string_laws fault cs = record {
  get-set = λ m k v. set_at_same k _ m.strings;
  get-set_ne = λ m k j v ne. set_at_other k j _ m.strings ne;
  get-del = λ m k. set_at_same k _ m.strings;
  unmarshal-marshal = read-print;
}

pub login_laws : (fault : ℕ → Option Fault) (cs : List Text) → LoginLaws (services fault cs)
login_laws fault cs = record {
  get-set = λ m k v. set_at_same k _ m.strings;
  del_present = λ m k v e. ap present e;
  del_absent = λ m k e. ap present e;
  show_get-some = λ k v. refl;
  sha256_letters = no_colon;
  compares-hash = λ n p h e. (text_eq_iff h p).1 cc;
}

abbrev pub no_fault : ℕ → Option Fault
no_fault n = none

abbrev pub empty_memory : Memory
empty_memory = record { stacks = λ k. []; strings = λ k. none }

-- A program that has just started.
abbrev pub started : World Memory
started = record {
  tick = 0;
  redis = empty_memory;
  users = [];
  peers = [];
  userips = [];
  instances = [];
  domains = [];
  tunnels = [];
  pg_users = [];
  pg_dbs = [];
  next_id = 1;
  next_user_id = 1;
  instance_queue = [];
  tunnel_queue = [];
  pool = 1 ∷ [];
  retries = λ j. 0;
  log = [];
}
