-- ===== src/TunnelHandlers.antt =====
-- The tunnels: the consumer of their queue, src/cmd/tunnel_utility.go, and the handlers CreateTunnel and
-- DestroyTunnel of src/cmd/tunnel_handler.go.
pub mod Deliveries
pub mod Destroyed
use kws.Prelude.{
  ℕ, suc, ◌+◌, ◌-◌, ◌^◌, Bool, true, false, Text, text_eq, codes, List, [], ◌∷◌, Option, none, some,
  ◌==◌, ltb, exists, if◌then◌else◌, scan, ◌&&◌,
}
use kws.Prelude.Int.{ℤ, pos, negsuc, neg}
use kws.World.{
  World, TunnelMessage, acked, nacked, nil_dereference, failed, M, Result, ok, err, pure, raise,
  try, attempt, note, ⊤, ◌>>=◌, ◌>>◌, Services, call,
}
use kws.Auth.{atoi}
use kws.Nginx.{domain_template, add_new_conf, remove_conf, reload_nginx_conf}
use kws.Tunnels
use kws.Queue.{Mq, tunnel_message, push_message_instance}
use kws.Http.{Response, refused, answered, bad_request, internal_server_error}

-- A header's value by its Go type, and the headers of a delivery, of which the code uses one. The
-- client's own values for integers of the protocol are int32 and int64.
pub data Value : Type 0 where
  of_int32 of_int64 of_int : ℤ → Value
  of_text : Text → Value
  other_value : Value

pub data Headers : Type 0 where
  no_table : Headers
  table : Option Value → Headers

-- What Atoi returns beside its error: the nearest number on a range error, and else 0.
abbrev is_empty : Text → Bool
is_empty [] = true
is_empty (c ∷ cs) = false

abbrev all_digits : Text → Bool
all_digits [] = false
all_digits (c ∷ cs) = let (n, rest) = scan 0 (c ∷ cs) in is_empty rest

abbrev pub clamped : Text → ℤ
clamped [] = pos 0
clamped (c ∷ cs) =
    if c == b'-' && all_digits cs
    then negsuc (2 ^ 63 - 1)
    else if (c == b'+' && all_digits cs)
    then pos (2 ^ 63 - 1)
    else if all_digits (c ∷ cs)
    then pos (2 ^ 63 - 1)
    else pos 0

abbrev pub or_clamped : Text → Option ℤ → ℤ
or_clamped t none = clamped t
or_clamped t (some n) = n

-- `retryCount`: int falls through the switch.
unfoldable pub retry_count : Option Value → ℤ
unfolding atoi
retry_count none = pos 0
retry_count (some (of_int32 n)) = n
retry_count (some (of_int64 n)) = n
retry_count (some (of_int n)) = pos 0
retry_count (some (of_text t)) = or_clamped t (atoi t)
retry_count (some other_value) = pos 0

-- `n + 1` on 64 bits.
abbrev pub successor : ℤ → ℤ
successor (pos n) = if ltb (n + 1) (2 ^ 63) then pos (n + 1) else negsuc (2 ^ 63 - 1)
successor (negsuc n) = neg n

-- `d.Headers[X_RETRY_COUNTER] == 3`: the constant is an int, so its type is compared as well.
unfoldable pub is_three : Headers → Bool
is_three (table (some (of_int (pos n)))) = n == 3
is_three _ = false

-- strconv.ParseBool.
unfoldable pub parse_bool : Text → Option Bool
parse_bool t =
    if exists (text_eq t)
      (codes "1" ∷ codes "t" ∷ codes "T" ∷ codes "true" ∷ codes "TRUE" ∷ codes "True" ∷ [])
    then some true
    else if exists (text_eq t)
        (codes "0" ∷ codes "f" ∷ codes "F" ∷ codes "false" ∷ codes "FALSE" ∷ codes "False" ∷ [])
    then some false
    else none

module _ (s : Services) where
  -- An assignment to a nil map is a panic.
  unfoldable pub increment_retry_counter : Headers → M s.Memory Headers
  unfolding retry_count
  increment_retry_counter no_table = raise nil_dereference
  increment_retry_counter (table v) = pure (table (some (of_int (successor (retry_count v)))))

  -- The counter, and the Nack.
  unfoldable pub retry : Headers → M s.Memory Headers
  unfolding increment_retry_counter
  retry h = do h' ← increment_retry_counter h; note nacked; pure h'

  abbrev pub roll_back : Text → Headers → M s.Memory Headers
  unfolding retry
  roll_back domain h = do
    _ ← attempt (remove_conf s domain)
    _ ← attempt (reload_nginx_conf s)
    retry h

  -- No early return: the code goes on after the Nack.
  abbrev pub unless_ok : Result ⊤ → M s.Memory Headers → Headers → M s.Memory Headers
  unless_ok (ok _) recover h = pure h
  unless_ok (err e) recover h = recover

  -- A negative id is no user's, so that the row's foreign key is violated.
  unfoldable pub store_tunnel : TunnelMessage → ℤ → M s.Memory ⊤
  unfolding call
  store_tunnel m (pos uid) =
      Tunnels.create_tunnel s
        (record { user_id = uid; tunnel_name = m.name; domain = m.domain; is_custom = m.is_custom })
  store_tunnel m (negsuc n) = do call s; raise (failed 0)

  unfoldable pub store_stage : TunnelMessage → Headers → M s.Memory Headers
  unfolding retry store_tunnel
  store_stage m h2 = do
    created ← attempt (store_tunnel m m.uid)
    h3 ← unless_ok created (roll_back m.domain h2) h2
    note acked
    pure h3

  unfoldable pub reload_stage : TunnelMessage → Headers → M s.Memory Headers
  unfolding retry store_stage
  reload_stage m h1 = do
    reloaded ← attempt (reload_nginx_conf s)
    h2 ← unless_ok reloaded (roll_back m.domain h1) h1
    store_stage m h2

  -- The conf, the reload and the row, in this order, and the Ack whatever became of them.
  unfoldable pub create_tunnel_utility : TunnelMessage → Headers → M s.Memory Headers
  unfolding retry reload_stage
  create_tunnel_utility m h0 = do
    written ←
        attempt (add_new_conf s domain_template (record { domain = m.domain; ip = []; port = [] }))
    h1 ← unless_ok written (retry h0) h0
    reload_stage m h1

  -- One round of the consumer's loop, with the goroutine it starts run to its end.
  unfoldable pub consume_message_tunnel : TunnelMessage → Headers → M s.Memory Headers
  unfolding create_tunnel_utility is_three
  consume_message_tunnel m h =
      if is_three h then (do note acked; pure h) else create_tunnel_utility m h

  abbrev pub pushed : Result ⊤ → M s.Memory (Response ⊤)
  pushed (ok _) = pure (answered tt)
  pushed (err e) = pure (refused internal_server_error)

  unfoldable pub create_tunnel : Mq → ℕ → Bool → ℤ → Text → Text → Text → M s.Memory (Response ⊤)
  unfolding parse_bool push_message_instance
  create_tunnel mq size false uid domain is_custom name = pure (refused bad_request)
  create_tunnel mq size true uid domain is_custom name = elim (parse_bool is_custom) [
    | none ↦ pure (refused bad_request)
    | some custom ↦ do
      sent ← attempt (
          push_message_instance s mq size (
            tunnel_message
              (record { domain = domain; is_custom = custom; name = name; uid = uid })))
      pushed sent
  ]

  -- `DELETE`, of which a negative id selects no row.
  abbrev pub destroy : Text → ℤ → M s.Memory ⊤
  unfolding call
  destroy name (pos uid) = Tunnels.destroy_tunnel s name uid
  destroy name (negsuc n) = do _ ← try (call s); pure tt

  -- The error of RemoveConf is overwritten.
  abbrev pub remove_tunnel_conf : Result Text → M s.Memory (Response ⊤)
  remove_tunnel_conf (err e) = pure (refused internal_server_error)
  remove_tunnel_conf (ok domain) = do
    _ ← attempt (remove_conf s domain)
    reloaded ← attempt (reload_nginx_conf s)
    pushed reloaded

  -- The domain is asked for after the row is gone, and with the zero value for the user.
  abbrev pub after_destroy : Text → Result ⊤ → M s.Memory (Response ⊤)
  after_destroy name (err e) = pure (refused internal_server_error)
  after_destroy name (ok _) = do
    domain ← attempt (Tunnels.get_domain_from_tunnel s name 0)
    remove_tunnel_conf domain

  unfoldable pub destroy_tunnel : Bool → ℤ → Text → M s.Memory (Response ⊤)
  destroy_tunnel false uid name = pure (refused bad_request)
  destroy_tunnel true uid name = do
    destroyed ← attempt (destroy name uid)
    after_destroy name destroyed
