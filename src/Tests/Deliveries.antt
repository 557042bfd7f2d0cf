-- ===== src/Tests/Deliveries.antt =====
-- Deliveries of a job whose services are all down.
use kws.Prelude.{◌≤◌, refl, inl, inr, text_eq, codes, [], some, arith}
use kws.World.{broken, Services, stop_action}
use kws.Address.{IpAllocator}
use kws.Lxd
use kws.Results.{put_stop_result}
use kws.World.{Message}
use kws.Jobs.{consume}
use kws.Jobs.Requests.{Settled, consume-Settled}
use kws.Jobs.Retries.{AckedWithin, consume-bounded, AckedWithin-four}
use kws.Tests.Fixture.{services, no_fault, started}

abbrev net : IpAllocator
net = record { cidr_value = 24 }

abbrev down : Services
down = services (λ n. some (broken 1)) []

abbrev calm : Services
calm = services no_fault []

abbrev stop_message : Message
stop_message = record {
  ins_user = [];
  ins_password = [];
  user_id = 1;
  user_name = codes "ada";
  job_id = codes "job";
  action = stop_action;
}

consume-Settled_example :
    Settled calm net stop_message started (consume calm net stop_message started)
consume-Settled_example = consume-Settled calm net stop_message started (inr (inl refl))

consume-bounded_example : (consume down net stop_message started).1.retries (codes "job") ≤ 3
unfolding consume text_eq Lxd.update_instance_state
consume-bounded_example =
    consume-bounded down net stop_message (codes "job") started (inr (inl refl)) tt (omega arith)
      (omega arith)

AckedWithin-four_example : AckedWithin down net 4 stop_message started
unfolding consume text_eq Lxd.update_instance_state put_stop_result
AckedWithin-four_example =
    AckedWithin-four down net stop_message started (inr (inl refl)) refl (tt, (tt, (tt, (tt, tt))))
