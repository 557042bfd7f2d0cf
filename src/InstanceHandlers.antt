-- ===== src/InstanceHandlers.antt =====
-- The handlers that publish a job on an instance and poll its result: src/cmd/instance_handler.go.
pub mod Published
pub mod Drained
use kws.Prelude.{
  ℕ, Bool, true, false, Text, text_eq, codes, [], ◌++◌, Option, none, some, not, ◌||◌, itoa,
  if◌then◌else◌,
}
use kws.World.{
  WebInstance, Message, deploy_action, stop_action, kill_action, M, Result, ok, err, pure, attempt,
  ⊤, ◌>>=◌, ◌>>◌, Services, now,
}
use kws.Users.{validate_user_name, validate_password}
use kws.Results.{get_deploy_result, get_stop_result, get_kill_result}
use kws.Queue.{Mq, QueueMessage, instance_message, push_message_instance}
use kws.Auth.Handlers.{Session}
use kws.Http.{Response, refused, answered, bad_request, internal_server_error}

pub record InstanceResponse : Type 0 where
  pub job_id : Text
  pub action : Text

-- The form of a deployment, where it parses.
pub record Form : Type 0 where
  pub ins_user : Text
  pub ins_password : Text

abbrev pub no_form : Form
no_form = record { ins_user = []; ins_password = [] }

-- The queue's struct in the store as `NewStore` makes it, src/internal/store/store.go: both pointers
-- are nil.
abbrev pub store_mq : Mq
store_mq = record { has_instance_queue = false; has_tunnel_queue = false }

-- `JobResponseDeploy` and `JobResponseSK`, src/models/web/web.go.
pub record JobResponseDeploy : Type 0 where
  pub done : Bool
  pub instance_data : WebInstance

pub record JobResponseSk : Type 0 where
  pub done : Bool
  pub success : Bool

abbrev pub no_instance : WebInstance
no_instance = record { container_id = []; success = false; username = []; password = []; ip = [] }

abbrev pub or_empty : Option WebInstance → WebInstance
or_empty none = no_instance
or_empty (some i) = i

-- What a request puts into the message, or that it is refused; only a deployment reads the form.
unfoldable pub collect : Text → Option Form → Option Form
collect action form = if not (text_eq action deploy_action) then some no_form else elim form [
  | none ↦ none
  | some f ↦
      if not (validate_user_name f.ins_user) || not (validate_password f.ins_password)
      then none
      else some f
]

abbrev pub job_message : Session → Text → Form → Text → Message
job_message session action form job = record {
  ins_user = form.ins_user;
  ins_password = form.ins_password;
  user_id = session.id;
  user_name = session.user_name;
  job_id = job;
  action = action;
}

module _ (s : Services) where
  -- `generateHashedJobID`, src/cmd/instance_utility.go.
  unfoldable pub generate_hashed_job_id : ℕ → Text → ℕ → Text
  generate_hashed_job_id uid user_name n =
      s.sha256 (itoa (s.nanoseconds n) ++ codes "-" ++ itoa uid ++ codes "-" ++ user_name)

  abbrev pub pushed : Text → Text → Result ⊤ → M s.Memory (Response InstanceResponse)
  pushed job action (ok _) = pure (answered (record { job_id = job; action = action }))
  pushed job action (err e) = pure (refused internal_server_error)

  unfoldable pub push : Mq → ℕ → Session → Text → Form → M s.Memory (Response InstanceResponse)
  unfolding push_message_instance generate_hashed_job_id
  push mq size session action form = do
    n ← now s
    let job = generate_hashed_job_id session.id session.user_name n
    sent ←
        attempt
          (push_message_instance s mq size (instance_message (job_message session action form job)))
    pushed job action sent

  unfoldable pub handle_instance_action :
      Mq → ℕ → Session → Text → Option Form → M s.Memory (Response InstanceResponse)
  unfolding collect push
  handle_instance_action mq size session action form = elim (collect action form) [
    | none ↦ pure (refused bad_request)
    | some f ↦ push mq size session action f
  ]

  abbrev pub deploy : Mq → ℕ → Session → Option Form → M s.Memory (Response InstanceResponse)
  deploy mq size session form = handle_instance_action mq size session deploy_action form

  abbrev pub stop_instance : Mq → ℕ → Session → M s.Memory (Response InstanceResponse)
  stop_instance mq size session = handle_instance_action mq size session stop_action none

  abbrev pub delete_instance : Mq → ℕ → Session → M s.Memory (Response InstanceResponse)
  delete_instance mq size session = handle_instance_action mq size session kill_action none

  abbrev pub polled_deploy :
      Result (Bool × Option WebInstance) → M s.Memory (Response JobResponseDeploy)
  polled_deploy (ok (done, i)) =
      pure (answered (record { done = done; instance_data = or_empty i }))
  polled_deploy (err e) = pure (refused internal_server_error)

  unfoldable pub handle_deploy_result : Text → M s.Memory (Response JobResponseDeploy)
  unfolding get_deploy_result
  handle_deploy_result job = do got ← attempt (get_deploy_result s job); polled_deploy got

  abbrev polled : Result (Bool × Bool) → M s.Memory (Response JobResponseSk)
  polled (ok (done, success)) = pure (answered (record { done = done; success = success }))
  polled (err e) = pure (refused internal_server_error)

  unfoldable pub handle_sk_result : M s.Memory (Bool × Bool) → M s.Memory (Response JobResponseSk)
  handle_sk_result get_result = do got ← attempt get_result; polled got

  abbrev pub stop_result : Text → M s.Memory (Response JobResponseSk)
  stop_result job = handle_sk_result (get_stop_result s job)

  abbrev pub kill_result : Text → M s.Memory (Response JobResponseSk)
  kill_result job = handle_sk_result (get_kill_result s job)
