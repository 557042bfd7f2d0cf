-- ===== src/InstanceHandlers/Published.antt =====
-- What a request may put into the queue of instances.
use kws.Prelude.{
  ℕ, ◌≡◌, refl, ◌⊎◌, inl, inr, Bool, true, false, Text, text_eq, [], ◌∷◌, ◌++◌, Option, none, some,
  arith, if◌then◌else◌,
}
use kws.World.{
  World, Message, Error, pure, attempted, deploy_action, M, Result, ok, err, is_crash, ⊤, ◌>>=◌,
  Services,
}
use kws.Users.{validate_user_name, validate_password}
use kws.Queue.{Mq, instance_message, route}
use kws.Queue.Laws.{Routed, push_message_instance-Routed}
use kws.Auth.Handlers.{Session}
use kws.InstanceHandlers.{
  Form, InstanceResponse, collect, push, pushed, generate_hashed_job_id, handle_instance_action,
}
use kws.Http.{Response, refused, answered, bad_request, internal_server_error}

module _ (s : Services) where
  -- The session's user, the action that was asked for, and for a deployment a name and a password
  -- that the validators accept.
  abbrev pub IsRequest : Session → Text → Message → Type 0
  IsRequest session action m =
      (m.user_id ≡ session.id)
      × (m.user_name ≡ session.user_name)
      × (m.action ≡ action)
      × ((text_eq action deploy_action ≡ false)
          ⊎ ((validate_user_name m.ins_user ≡ true) × (validate_password m.ins_password ≡ true)))

  -- One message and its job in the answer, or no message.
  abbrev pub Published :
      Session → Text → World s.Memory → Result (Response InstanceResponse) × World s.Memory → Type 0
  Published session action w (r, v) =
      ((m : Message) × IsRequest session action m
        × (v.instance_queue ≡ w.instance_queue ++ m ∷ [])
        × (r ≡ ok (answered (record { job_id = m.job_id; action = action }))))
      ⊎ ((v.instance_queue ≡ w.instance_queue)
          × ((r ≡ ok (refused bad_request))
              ⊎ ((r ≡ ok (refused internal_server_error))
                  ⊎ ((e : Error) × (is_crash e ≡ true) × (r ≡ err e)))))

  collect-valid :
      (action : Text) (form : Option Form) (f : Form)
      → collect action form ≡ some f
      → (text_eq action deploy_action ≡ false)
        ⊎ ((validate_user_name f.ins_user ≡ true) × (validate_password f.ins_password ≡ true))
  unfolding collect
  collect-valid action form f e = ground arith

  -- The answer, by how the message was sent.
  answer-Published :
      (mq : Mq) (size : ℕ) (session : Session) (m : Message) (w : World s.Memory)
      → IsRequest session m.action m
      → (q : Result ⊤ × World s.Memory) → Routed s mq size (instance_message m) w q
      → Published session m.action w (((λ _. attempted q) >>= pushed s m.job_id m.action) w)
  unfolding route
  answer-Published mq size session m w h (ok _, v) (e, f) = inl (m, h, e, refl)
  answer-Published mq size session m w h (err x, v) (e, f) = by_crash (is_crash x) refl
    where
      by_crash :
          (b : Bool)
          → is_crash x ≡ b
          → Published session m.action w (
              ((λ _.
                    if◌then◌else◌ {A = Result (Result ⊤) × World s.Memory} b
                      (err x, v)
                      (ok (err x), v))
                  >>= pushed s m.job_id m.action)
                w)
      by_crash true c = inr (e, inr (inr (x, c, refl)))
      by_crash false c = inr (e, inr (inl refl))

  request : Session → Text → Form → World s.Memory → Message
  unfolding generate_hashed_job_id
  request session action f w = record {
    ins_user = f.ins_user;
    ins_password = f.ins_password;
    user_id = session.id;
    user_name = session.user_name;
    job_id = generate_hashed_job_id s session.id session.user_name w.tick;
    action = action;
  }

  -- A request for an action publishes one message, of the session's user and with the job that is
  -- answered, and for a deployment with a name and a password that the validators accept; or it
  -- publishes none and is refused, or ends in a crash.
  pub handle_instance_action-Published :
      (mq : Mq) (size : ℕ) (session : Session) (action : Text) (form : Option Form)
      (w : World s.Memory)
      → Published session action w (handle_instance_action s mq size session action form w)
  unfolding handle_instance_action push request
  handle_instance_action-Published mq size session action form w =
      by_form (collect action form) refl
    where
      by_form :
          (o : Option Form)
          → collect action form ≡ o
          → Published session action w (
              (elim o as (λ x. M s.Memory (Response InstanceResponse)) [
                | none ↦ pure (refused bad_request)
                | some f ↦ push s mq size session action f
              ])
                w)
      by_form none e = inr (refl, inl refl)
      by_form (some f) e =
          answer-Published mq size session (request session action f w) w
            (refl, refl, refl, collect-valid action form f e) _
            (push_message_instance-Routed s mq size (instance_message (request session action f w))
              w)
