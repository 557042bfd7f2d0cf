-- ===== src/World/External.antt =====
-- The services that the program calls and that are not part of it: Redis, LXD, WireGuard, nginx
-- and the net. They are parameters; `RedisLaws` states what is relied on.
use kws.Prelude.{
  ℕ, Bool, true, false, Text, codes, List, [], ◌∷◌, ◌++◌, ◌==◌, Option, none, some, ◌≡◌, ◌≢◌,
  if◌then◌else◌,
}
use kws.World.Tables.{WebInstance}

-- How a call of a service fails: with a serialization conflict (code 40001), or otherwise.
pub data Fault : Type 0 where
  conflict : Fault
  broken : ℕ → Fault

-- What LPOP and strconv.Atoi make of the front of a list: no entry, a text that is no number, or
-- a number.
pub data Reply : Type 0 where
  nil garbled : Reply
  number : ℕ → Reply

pub record Services : Type 1 where
  -- Redis: its memory, LPUSH and LPOP of a number, SET, GET, and DEL with the number of keys gone.
  pub Memory : Type 0
  pub lpush : Memory → Text → ℕ → Memory
  pub lpop : Memory → Text → Reply × Memory
  pub set : Memory → Text → Text → Memory
  pub get : Memory → Text → Option Text
  pub del : Memory → Text → ℕ × Memory
  -- How the n-th call of any service ends.
  pub fault : ℕ → Option Fault
  -- What LXD answers to the n-th call, if that is GetInstances or GetInstanceState.
  pub containers : ℕ → List Text
  pub is_running : ℕ → Bool
  -- The address that GetContainerState shows, and whether a conf file was missing when os.Remove was
  -- called.
  pub container_ip : ℕ → Option Text
  pub conf_missing : ℕ → Bool
  -- encoding/json, on the result of a deployment.
  pub marshal : WebInstance → Text
  pub unmarshal : Text → Option WebInstance
  -- wgtypes.ParseKey: whether it accepts a key, and the key that it reads.
  pub parses : Text → Bool
  pub key_of : Text → Text
  -- The keys of the interface's peers at the n-th call, each with whether its last handshake is less
  -- than two minutes old.
  pub device : ℕ → List (Text × Bool)
  -- bcrypt at the n-th call, which refuses long passwords, and its comparison with a hash.
  pub hash : ℕ → Text → Option Text
  pub compares : Text → Text → Bool
  -- The sum by crypto/sha256 in hexadecimal, and at the n-th call: the time as a text and in
  -- nanoseconds, what uuidgen prints in hexadecimal, and a secret of crypto/rand in hexadecimal.
  pub sha256 : Text → Text
  pub time : ℕ → Text
  pub nanoseconds : ℕ → ℕ
  pub uuid : ℕ → Text
  pub secret : ℕ → Text
  -- How go-redis prints GET of a key with its answer, or its failure at the n-th call.
  pub show_get : Text → Option Text → Text
  pub show_failure : ℕ → Text → Text
  -- Whether LXD has what the n-th call asks for, and the names of the kernel's links at the n-th call.
  pub present : ℕ → Bool
  pub links : ℕ → List Text
  -- RabbitMQ: whether a channel is closed at the n-th call, and the channel that it opens.
  pub is_closed : ℕ → ℕ → Bool
  pub opened : ℕ → ℕ

-- What Redis documents of strings, and that encoding/json reads back what it wrote.
pub record StringLaws (s : Services) : Type 0 where
  pub get-set : (m : s.Memory) (k v : Text) → s.get (s.set m k v) k ≡ some v
  pub get-set_ne : (m : s.Memory) (k j v : Text) → j ≢ k → s.get (s.set m k v) j ≡ s.get m j
  pub get-del : (m : s.Memory) (k : Text) → s.get (s.del m k).1 k ≡ none
  pub unmarshal-marshal : (i : WebInstance) → s.unmarshal (s.marshal i) ≡ some i

-- What Redis documents of a list of numbers, seen through LRANGE.
pub record RedisLaws (s : Services) : Type 0 where
  pub range : s.Memory → Text → List ℕ
  pub lpop-nil :
      (m : s.Memory) (k : Text)
      → range m k ≡ []
      → ((s.lpop m k).0 ≡ nil) × (range (s.lpop m k).1 k ≡ [])
  pub lpop-cons :
      (m : s.Memory) (k : Text) (v : ℕ) (vs : List ℕ)
      → range m k ≡ v ∷ vs
      → ((s.lpop m k).0 ≡ number v) × (range (s.lpop m k).1 k ≡ vs)
  pub lpush-cons : (m : s.Memory) (k : Text) (v : ℕ) → range (s.lpush m k v) k ≡ v ∷ range m k

-- No colon among the characters.
abbrev pub colon_free : Text → Bool
colon_free [] = true
colon_free (c ∷ cs) = let rest = colon_free cs in if c == b':' then false else rest

-- What go-redis, Redis, bcrypt and crypto/sha256 document of the calls that a registration makes.
pub record LoginLaws (s : Services) : Type 0 where
  pub get-set : (m : s.Memory) (k v : Text) → s.get (s.set m k v) k ≡ some v
  pub del_present : (m : s.Memory) (k v : Text) → s.get m k ≡ some v → (s.del m k).0 ≡ 1
  pub del_absent : (m : s.Memory) (k : Text) → s.get m k ≡ none → (s.del m k).0 ≡ 0
  pub show_get-some :
      (k v : Text) → s.show_get k (some v) ≡ codes "get " ++ (k ++ (codes ": " ++ v))
  pub sha256_letters : (t : Text) → colon_free (s.sha256 t) ≡ true
  pub compares-hash : (n : ℕ) (p h : Text) → s.hash n p ≡ some h → s.compares h p ≡ true
