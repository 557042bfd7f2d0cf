-- ===== src/Queue.antt =====
-- RabbitMQ: the pool of channels, src/internal/mq/pool.go, the declarations of
-- src/internal/mq/connect_mq.go, and `PushMessageInstance` of src/internal/store/messageQueue.go.
pub mod Laws
use kws.Prelude.{
  ℕ, zero, suc, Bool, true, false, Text, codes, List, [], ◌∷◌, ◌++◌, Option, none, some, length,
  ltb, if◌then◌else◌,
}
use kws.World.{
  World, Message, TunnelMessage, Error, nil_dereference, waits_forever, M, Result, ok, err, pure,
  raise, gets, modify, try, ⊤, ◌>>=◌, ◌>>◌, Services, call, now,
}

-- `QueueMessageInter` and its implementations.
pub data QueueMessage : Type 0 where
  instance_message : Message → QueueMessage
  tunnel_message : TunnelMessage → QueueMessage

-- `MQ`, by which of its pointers to queues are set.
pub record Mq : Type 0 where
  pub has_instance_queue : Bool
  pub has_tunnel_queue : Bool

abbrev pub routed : Mq → QueueMessage → Bool
routed mq (instance_message m) = mq.has_instance_queue
routed mq (tunnel_message m) = mq.has_tunnel_queue

module _ (s : Services) where
  -- The routing by `WhoAmI`: each kind of message has its main queue.
  unfoldable pub route : QueueMessage → World s.Memory → World s.Memory
  route (instance_message m) w = record w { instance_queue = w.instance_queue ++ m ∷ [] }
  route (tunnel_message m) w = record w { tunnel_queue = w.tunnel_queue ++ m ∷ [] }

  -- Go's `return nil, err` of a call, and a call whose error is dropped.
  abbrev dropped : M s.Memory ⊤
  unfolding call
  dropped = do _ ← try (call s); pure tt

  -- The prefetch count is set on a channel before the error of its opening is looked at.
  unfoldable pub create_channel_pool : ℕ → M s.Memory (List ℕ)
  unfolding call
  create_channel_pool zero = pure []
  create_channel_pool (suc size) = do
    n ← now s
    asked ← try (call s)
    elim asked [
      | err e ↦ raise nil_dereference
      | ok _ ↦ do dropped; rest ← create_channel_pool size; pure (s.opened n ∷ rest)
    ]

  -- A channel that the buffer of `size` has no room for is closed.
  unfoldable pub push_channel : ℕ → ℕ → M s.Memory ⊤
  unfolding call
  push_channel size ch = do
    free ← gets (λ w. length w.pool)
    if ltb free size then modify (λ w. record w { pool = w.pool ++ ch ∷ [] }) else dropped

  -- A closed channel is replaced; `none` is the nil channel where that fails.
  replaced : Bool → ℕ → M s.Memory (Option ℕ)
  unfolding call
  replaced false ch = pure (some ch)
  replaced true ch = do
    n ← now s
    asked ← try (call s)
    elim asked [ err e ↦ pure none | ok _ ↦ pure (some (s.opened n)) ]

  -- A receive from an empty buffer waits.
  taken : List ℕ → M s.Memory (Option ℕ)
  unfolding replaced
  taken [] = raise waits_forever
  taken (ch ∷ rest) = do
    modify (λ w. record w { pool = rest })
    n ← now s
    replaced (s.is_closed n ch) ch

  unfoldable pub get_free_channel : M s.Memory (Option ℕ)
  unfolding taken
  get_free_channel = do free ← gets (λ w. w.pool); taken free

  abbrev returned : Result ⊤ → M s.Memory ⊤
  returned (ok _) = pure tt
  returned (err e) = raise e

  -- Publishing on the channel, which is then given back; the nil channel is dereferenced.
  on_channel : ℕ → QueueMessage → Option ℕ → M s.Memory ⊤
  unfolding push_channel route call
  on_channel size message none = raise nil_dereference
  on_channel size message (some ch) = do
    sent ← try (do call s; modify (route message))
    push_channel size ch
    returned sent

  -- The queue's name is read first, from a pointer that may be nil.
  publish : Mq → ℕ → QueueMessage → Option ℕ → M s.Memory ⊤
  unfolding on_channel
  publish mq size message ch =
      if routed mq message then on_channel size message ch else raise nil_dereference

  unfoldable pub push_message_instance : Mq → ℕ → QueueMessage → M s.Memory ⊤
  unfolding get_free_channel publish call
  push_message_instance mq size message = do
    call s
    ch ← get_free_channel
    publish mq size message ch

  -- amqp.Dial, as often as there are attempts; the last error is returned.
  unfoldable pub connect_to_mq : ℕ → Result ⊤ → M s.Memory ⊤
  unfolding call
  connect_to_mq zero last = returned last
  connect_to_mq (suc attempts) last = do
    dialed ← try (call s)
    elim dialed [ ok _ ↦ pure tt | err e ↦ connect_to_mq attempts (err e) ]

  -- CreateQueueInstance and CreateRetryQueue: the channel is given back in either case.
  unfoldable pub declare_queue : ℕ → Option ℕ → M s.Memory ⊤
  unfolding push_channel call
  declare_queue size none = raise nil_dereference
  declare_queue size (some ch) = do declared ← try (call s); push_channel size ch; returned declared
