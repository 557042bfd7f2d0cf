-- ===== src/Tests/Sessions.antt =====
-- Users, sessions and messages at concrete values.
use kws.Prelude.{◌≡◌, refl, true, text_eq, scan, codes, [], ◌∷◌, some, arith}
use kws.Prelude.Int.{ℤ, pos}
use kws.World.{
  M, pure, UserRow, World, TunnelMessage, mail_sent, deploy_action, Services, LoginLaws, ok, err,
  waits_forever, Message,
}
use kws.World.Frame.{Ends}
use kws.Users.{User, validate_user_name, validate_password, validate_email, validate_fl_names}
use kws.Auth.{user_row, atoi}
use kws.Auth.Handlers.{Session, new_session, is_valid, home, create_user, verify_user, login}
use kws.Auth.Handlers.Journey.{token, create_user-login}
use kws.Auth.Handlers.Login.{LoggedIn, login-LoggedIn}
use kws.Auth.Tunnels.{login_tunnel_user, is_tunnel_user_authorized}
use kws.Auth.Tunnels.Secrets.{logged_in, login_tunnel_user-is_tunnel_user_authorized}
use kws.Http.{Response, answered, refused, redirected, bad_request, internal_server_error}
use kws.InstanceHandlers.Drained.{requests, requests_wait}
use kws.Pages.{pg_database, render_pg_databases_page}
use kws.Pages.Leaks.{render_pg_databases_page_leaks}
use kws.Start.{start}
use kws.Start.Channels.{Free, start-Ends}
use kws.InstanceHandlers.{store_mq, collect, Form, handle_instance_action}
use kws.InstanceHandlers.Published.{Published, handle_instance_action-Published}
use kws.Queue.{Mq, instance_message, push_message_instance}
use kws.Queue.Laws.{PoolKept, push_message_instance-PoolKept}
use kws.TunnelHandlers.{table, of_int32, consume_message_tunnel, destroy_tunnel}
use kws.TunnelHandlers.Deliveries.{Answered, consume_message_tunnel-Answered}
use kws.TunnelHandlers.Destroyed.{destroy_tunnel-Refused}
use kws.Tests.Fixture.{Memory, services, login_laws, no_fault, started}

abbrev calm : Services
calm = services no_fault []

abbrev calm_laws : LoginLaws calm
calm_laws = login_laws no_fault []

abbrev ada : User
ada = record {
  email = codes "ada@gmail.com";
  first_name = codes "Ada";
  last_name = codes "Lovelace";
  user_name = codes "ada_l";
  password = codes "S3cret!!";
}

create_user-login_example :
    ((create_user calm new_session ada started).1.log
      ≡ mail_sent ada.email (token calm (λ n. refl) ada started) ∷ [])
    × ((login calm new_session ada.user_name ada.password
          (create_user calm new_session ada started).1).0
        ≡ ok (refused bad_request, new_session))
    × ((login calm new_session ada.user_name ada.password
          (verify_user calm
            (token calm (λ n. refl) ada started)
            (create_user calm new_session ada started).1).1).0
        ≡ ok (redirected home, record { id = 1; user_name = ada.user_name; is_authorized = true }))
unfolding is_valid validate_user_name validate_password validate_email validate_fl_names text_eq
create_user-login_example =
    create_user-login calm (λ n. refl) ada calm_laws ada.password started refl refl refl

-- A user who has opened the link of the mail.
abbrev ada_row : UserRow
ada_row = record (user_row ada ada.password 1) { verified = true }

abbrev with_user : World Memory
with_user = record started { users = ada_row ∷ []; next_user_id = 2 }

login-LoggedIn_example :
    LoggedIn calm new_session ada.user_name ada.password with_user
      (login calm new_session ada.user_name ada.password with_user)
login-LoggedIn_example = login-LoggedIn calm new_session ada.user_name ada.password with_user refl

abbrev declared : Mq
declared = record { has_instance_queue = true; has_tunnel_queue = true }

abbrev session : Session
session = record { id = 1; user_name = ada.user_name; is_authorized = true }

abbrev form : Form
form = record { ins_user = codes "ada_l"; ins_password = ada.password }

form_accepted : collect deploy_action (some form) ≡ some form
unfolding collect validate_user_name validate_password text_eq
form_accepted = refl

handle_instance_action-Published_example :
    Published calm session deploy_action with_user
      (handle_instance_action calm declared 1 session deploy_action (some form) with_user)
handle_instance_action-Published_example =
    handle_instance_action-Published calm declared 1 session deploy_action (some form) with_user

abbrev deploy_message : Message
deploy_message = record {
  ins_user = codes "ada_l";
  ins_password = ada.password;
  user_id = 1;
  user_name = ada.user_name;
  job_id = codes "job";
  action = deploy_action;
}

push_message_instance-PoolKept_example :
    PoolKept calm declared 1
      (instance_message deploy_message)
      started
      (push_message_instance calm declared 1 (instance_message deploy_message) started)
push_message_instance-PoolKept_example =
    push_message_instance-PoolKept calm declared 1 (instance_message deploy_message) started
      (omega arith)

abbrev tunnel : TunnelMessage
tunnel = record { domain = codes "a.kws"; is_custom = true; name = codes "a"; uid = pos 1 }

consume_message_tunnel-Answered_example :
    Ends
      (consume_message_tunnel calm tunnel (table (some (of_int32 (pos 3)))))
      started
      (λ h v. Answered calm tunnel started v)
consume_message_tunnel-Answered_example =
    consume_message_tunnel-Answered calm tunnel (table (some (of_int32 (pos 3)))) started
      (some (of_int32 (pos 3)), refl, refl)

abbrev with_tunnel : World Memory
with_tunnel = record started {
  tunnels =
      record { user_id = 1; tunnel_name = codes "a"; domain = codes "a.kws"; is_custom = true }
      ∷ [];
}

destroy_tunnel-Refused_example :
    ((destroy_tunnel calm true (pos 1) (codes "a") with_tunnel).0
      ≡ ok (refused internal_server_error))
    × ((destroy_tunnel calm true (pos 1) (codes "a") with_tunnel).1.log ≡ [])
    × ((destroy_tunnel calm true (pos 1) (codes "a") with_tunnel).1.tunnels ≡ [])
unfolding text_eq
destroy_tunnel-Refused_example =
    destroy_tunnel-Refused calm 1 (codes "a") with_tunnel (refl, tt) refl

abbrev another_role : World Memory
another_role = record started {
  pg_users =
      record { id = 7; user_id = 2; pg_user_name = codes "bob"; pg_user_password = codes "hidden" }
      ∷ [];
}

render_pg_databases_page_leaks_example :
    (render_pg_databases_page calm session (codes "7") (codes "bob") another_role).0
    ≡ ok (answered (pg_database calm session (codes "bob") (0, []) (codes "hidden")))
unfolding atoi scan
render_pg_databases_page_leaks_example =
    render_pg_databases_page_leaks calm (λ n. refl) session (codes "7") (codes "bob") 7
      (record {
        id = 7;
        user_id = 2;
        pg_user_name = codes "bob";
        pg_user_password = codes "hidden";
      })
      another_role refl refl refl

requests_wait_example :
    ((requests calm
        (λ n. refl)
        (λ n c. refl)
        1
        session
        deploy_action
        (some form)
        form
        form_accepted
        1
        started).instance_queue
      ≡ [])
    × ((handle_instance_action calm store_mq 1 session deploy_action (some form) (
          requests calm
            (λ n. refl)
            (λ n c. refl)
            1
            session
            deploy_action
            (some form)
            form
            form_accepted
            1
            started)).0
        ≡ err waits_forever)
requests_wait_example =
    requests_wait calm (λ n. refl) (λ n c. refl) 1 session deploy_action (some form) form
      form_accepted started

start-Ends_example : Ends (start calm (codes "key")) started (λ _ v. Free calm 30 v)
start-Ends_example = start-Ends calm (codes "key") started

abbrev tunnel_page : ℤ → M Memory (Response ℤ)
tunnel_page uid = pure (answered uid)

login_tunnel_user-is_tunnel_user_authorized_example :
    ((login_tunnel_user calm true ada.user_name ada.password with_user).0
      ≡ ok (answered (codes "5ec7e7")))
    × (is_tunnel_user_authorized calm
          (codes "5ec7e7")
          tunnel_page
          (login_tunnel_user calm true ada.user_name ada.password with_user).1
        ≡ tunnel_page
            (pos 1)
            (record (logged_in calm calm_laws (λ n. refl) ada_row with_user) { tick = 5 }))
unfolding text_eq
login_tunnel_user-is_tunnel_user_authorized_example =
    login_tunnel_user-is_tunnel_user_authorized calm calm_laws (λ n. refl) tunnel_page ada.user_name
      ada.password b'5' (codes "ec7e7") ada_row with_user refl refl refl refl (omega arith)
