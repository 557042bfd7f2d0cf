-- ===== src/Tests/Requests.antt =====
-- Requests of clients at concrete values.
use kws.Prelude.{◌≡◌, refl, true, Text, text_eq, codes, List, [], ◌∷◌, if◌then◌else◌, arith}
use kws.World.{Message, stop_action, Services}
use kws.Address.{IpAllocator}
use kws.Auth.Handlers.{new_session}
use kws.Routes.{
  Method, get, post, Request, target, found, protected, nothing_mounted, not_allowed, Route, serve,
}
use kws.Routes.History.{Happening, requests, delivers, System, Sound, run, run-Sound}
use kws.Routes.Guarded.{TurnedAway, serve-TurnedAway}
use kws.Tests.Fixture.{Memory, redis_laws, services, no_fault, started}

abbrev calm : Services
calm = services no_fault []

abbrev net : IpAllocator
net = record { cidr_value = 24 }

-- The values of a registration's form.
abbrev ada_form : Text → Text
ada_form field =
    if text_eq field (codes "email")
    then codes "ada@gmail.com"
    else if text_eq field (codes "password")
    then codes "S3cret!!"
    else if text_eq field (codes "user_name")
    then codes "ada_l"
    else if text_eq field (codes "public_key")
    then codes "key"
    else codes "Ada"

abbrev request : Method → Text → Request
request method path = record {
  method = method;
  path = path;
  parsed = true;
  form_value = ada_form;
  query = λ field. codes "none";
  secret = [];
}

abbrev stop_message : Message
stop_message = record {
  ins_user = [];
  ins_password = [];
  user_id = 1;
  user_name = codes "ada_l";
  job_id = codes "job";
  action = stop_action;
}

abbrev happenings : List Happening
happenings =
    requests 0 (request post (codes "/create_user"))
    ∷ requests 0 (request post (codes "/login"))
    ∷ requests 1 (request post (codes "/register"))
    ∷ delivers stop_message
    ∷ []

abbrev opened : System Memory
opened = record { sessions = λ c. new_session; world = started }

run-Sound_example : Sound calm (redis_laws no_fault []) net 1 (run calm net happenings opened)
run-Sound_example =
    run-Sound calm (redis_laws no_fault []) net 1 happenings opened (omega arith, λ c h. cc)

serve-TurnedAway_example :
    TurnedAway calm net new_session started
      (serve calm net (request post (codes "/register")) new_session started)
unfolding text_eq
serve-TurnedAway_example =
    serve-TurnedAway calm net (request post (codes "/register")) new_session started refl refl

-- The mounted router answers with and without the slash, and turns other methods away behind the
-- middleware.
services_at_root : target get (codes "/kws_services") ≡ found protected Route.render_services_page
unfolding target text_eq
services_at_root = refl

services_at_slash : target get (codes "/kws_services/") ≡ found protected Route.render_services_page
unfolding target text_eq
services_at_slash = refl

services_posted : target post (codes "/kws_services/postgres/db") ≡ nothing_mounted true
unfolding target text_eq
services_posted = refl

stop_posted : target post (codes "/stop") ≡ not_allowed
unfolding target text_eq
stop_posted = refl
