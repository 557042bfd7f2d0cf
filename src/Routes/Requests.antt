-- ===== src/Routes/Requests.antt =====
-- What the handlers read of a request, and the contents of the responses.
use kws.Prelude.{Bool, Text, codes, Option, none, some, if◌then◌else◌}
use kws.Users.{User}
use kws.Auth.Handlers.{Session}
use kws.InstanceHandlers.{InstanceResponse, Form, JobResponseDeploy, JobResponseSk}
use kws.Wireguard
use kws.Publish.{DomainResponse}
use kws.Postgres.{PgServiceUser}
use kws.Postgres.Handlers.{ResponseCreateUser}
use kws.Pages.{
  Data, ServicesData, PgUserPageData, PgDatabase, InstancePage, PublishInstancePageData,
}
use kws.Http.{Response, refused, redirected, answered}
use kws.Routes.Table.{Method}

-- What the handlers read of a request: `parsed` says whether ParseForm goes through.
pub record Request : Type 0 where
  pub method : Method
  pub path : Text
  pub parsed : Bool
  pub form_value : Text → Text
  pub query : Text → Text
  pub secret : Text

-- The content of a response that went well. A file is what http.FileServer answers for its path.
pub data Body : Type 0 where
  empty : Body
  text : Text → Body
  job : InstanceResponse → Body
  deployed : JobResponseDeploy → Body
  polled : JobResponseSk → Body
  device : Wireguard.ResponseBody → Body
  active : Bool → Body
  role : ResponseCreateUser → Body
  domain : DomainResponse → Body
  public_page : Body
  home_page : Text → Body
  devices_page : Data → Body
  services_page : ServicesData → Body
  pg_users_page : PgUserPageData → Body
  pg_databases_page : PgDatabase → Body
  instance_page : InstancePage → Body
  publish_page : PublishInstancePageData → Body
  file_at : Text → Body

abbrev pub reply : {A : Type 0} → (A → Body) → Response A → Response Body
reply body (refused code) = refused code
reply body (redirected place) = redirected place
reply body (answered a) = answered (body a)

abbrev pub user_of : Request → User
user_of r = record {
  email = r.form_value (codes "email");
  first_name = r.form_value (codes "first_name");
  last_name = r.form_value (codes "last_name");
  user_name = r.form_value (codes "user_name");
  password = r.form_value (codes "password");
}

abbrev pub role_of : Session → Request → PgServiceUser
role_of session r = record {
  uid = session.id;
  user_name = r.form_value (codes "user_name");
  password = r.form_value (codes "password");
}

abbrev pub form_of : Request → Option Form
form_of r =
    if r.parsed
    then some (record {
      ins_user = r.form_value (codes "insUser");
      ins_password = r.form_value (codes "insPassword");
    })
    else none
