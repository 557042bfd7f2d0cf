-- ===== src/Tests/Histories.antt =====
-- Histories: the operations on instances, and the steps of the broker.
use kws.Prelude.{◌≡◌, ◌≤◌, ◌+◌, ◌*◌, refl, inl, inr, text_eq, codes, [], ◌∷◌, some, arith, List}
use kws.World.{Message, Services, stop_action}
use kws.Address.{IpAllocator}
use kws.Instances.{stop_instance}
use kws.Instances.View.{Operation, creates, starts, stops, replay, accepted, view, run, run-Refines}
use kws.Lxd
use kws.Wireguard.Devices.{Request, registers, removes, Sound, serve_all, serve_all-Sound}
use kws.Jobs.{consume}
use kws.Jobs.Broker.{sent_back, here, later}
use kws.Jobs.Broker.Ends.{Next, run_ends}
use kws.Tests.Fixture.{redis_laws, services, no_fault, started}

abbrev net : IpAllocator
net = record { cidr_value = 24 }

abbrev calm : Services
calm = services no_fault []

abbrev history : List Operation
history =
    creates 1 (codes "ada_l") (codes "ada") (codes "S3cret!!") ∷ starts 1 ∷ stops 1 ∷ starts 1 ∷ []

run-Refines_example :
    replay 1 (accepted calm history started) (view started 1)
    ≡ some (view (run calm history started) 1)
run-Refines_example = run-Refines calm history 1 started

abbrev stop_message : Message
stop_message = record {
  ins_user = [];
  ins_password = [];
  user_id = 1;
  user_name = codes "ada";
  job_id = codes "job";
  action = stop_action;
}

run_ends_example :
    (1 ≤ 8 * 1 + 9 * 0)
    × Next calm net (record {
      world = (consume calm net stop_message started).1;
      main = [];
      waiting = stop_message ∷ [];
    })
unfolding consume text_eq Lxd.update_instance_state stop_instance
run_ends_example =
    run_ends calm net (later (sent_back started stop_message [] [] tt refl) (here _))
      ((((inr (inl refl)), omega arith), tt), (tt, tt))

abbrev requests : List Request
requests = registers 1 (codes "key") ∷ removes 1 (codes "key") ∷ registers 2 (codes "other") ∷ []

serve_all-Sound_example :
    Sound calm (redis_laws no_fault []) 1 1 (serve_all calm net requests started)
serve_all-Sound_example =
    serve_all-Sound calm (redis_laws no_fault []) 1 1 net requests started
      (omega arith, omega arith)
