-- ===== src/Pages/Models.antt =====
-- What the pages show: src/models/web/web.go, src/consts/services/services.go and the types of
-- src/cmd/web_handler.go.
use kws.Prelude.{ℕ, ◌-◌, ◌*◌, Bool, Text, codes, List, [], ◌∷◌, leb, if◌then◌else◌}
use kws.Prelude.Int.{ℤ, pos, neg}
use kws.World.{DomainRow, PgUserRow}
use kws.Postgres.{Database}
use kws.Instances.{InsData}

pub record WebService : Type 0 where
  pub service_name : Text
  pub name : Text
  pub description : Text
  pub icon_url : Text
  pub ip : Text
  pub hostname : Text
  pub port : Text

abbrev pub adminer : WebService
adminer = record {
  service_name = codes "adminer";
  name = codes "Adminer";
  description = codes "Web Based SQL client";
  icon_url = codes "https://www.adminer.org/static/images/logo.png";
  ip = codes "172.25.0.4";
  hostname = codes "adminer.kws.services";
  port = codes "8080";
}

abbrev pub get_pg_service_data : WebService
get_pg_service_data = record {
  service_name = codes "postgres";
  name = codes "PostgreSQL";
  description = codes "Relational database service";
  icon_url = codes "https://www.postgresql.org/media/img/about/press/elephant.png";
  ip = codes "172.25.0.2";
  hostname = codes "postgres.kws.services";
  port = codes "5432";
}

abbrev pub get_service_list : List WebService
get_service_list = get_pg_service_data ∷ []

pub record Device : Type 0 where
  pub public_key : Text
  pub ip : Text
  pub active : Bool

pub record Data : Type 0 where
  pub username : Text
  pub devices : List Device

pub record ServicesData : Type 0 where
  pub username : Text
  pub services : List WebService
  pub adminer_data : WebService

-- `web.User`, without the field that is never set.
pub record WebUser : Type 0 where
  pub role : Text
  pub username : Text
  pub password : Text
  pub id : ℕ

pub record PgUserPageData : Type 0 where
  pub host_name : Text
  pub service_ip : Text
  pub port : Text
  pub logged_in_user : Text
  pub user_limit : ℕ
  pub users : List WebUser

pub record PgDatabase : Type 0 where
  pub password : Text
  pub host_name : Text
  pub username : Text
  pub total_databases : ℕ
  pub owner : Text
  pub available_slots : ℤ
  pub limit : ℕ
  pub usage_percent : ℕ
  pub databases : List Database

pub record InstancePage : Type 0 where
  pub ins_data : InsData
  pub username : Text
  pub ip : Text

pub record WebDomain : Type 0 where
  pub name : Text
  pub port : ℤ
  pub status : Text

pub record PublishInstancePageData : Type 0 where
  pub logged_in_user : Text
  pub domains : List WebDomain
  pub has_domains : Bool

abbrev pub web_user : PgUserRow → WebUser
web_user r = record {
  role = codes "Limited";
  username = r.pg_user_name;
  password = r.pg_user_password;
  id = r.id;
}

abbrev pub web_domain : DomainRow → WebDomain
web_domain d = record { name = d.domain_name; port = d.port; status = codes "Active" }

-- The difference of two ints.
abbrev pub difference : ℕ → ℕ → ℤ
difference a b = if leb b a then pos (a - b) else neg (b - a)

-- In float64 it is this for up to 22 databases; a role has at most ten.
abbrev pub percent : ℕ → ℕ
percent count = count * 10
