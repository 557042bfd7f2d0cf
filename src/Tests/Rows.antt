-- ===== src/Tests/Rows.antt =====
-- Rows, results and checks on concrete users.
use kws.Prelude.{
  ℕ, Option, ◌==◌, if◌then◌else◌, ◌≤◌, ◌≡◌, refl, true, false, Text, text_eq, codes, [], ◌∷◌, none,
  some, length, All, exists, leb, ◌&&◌, is_digit,
}
use kws.Prelude.Int.{pos}
use kws.World.{World, WebInstance, Services, StringLaws, ok}
use kws.Instances.{start_instance, remove_instance}
use kws.Instances.Rows.{
  row, Started, RowRemoved, start_instance-Started, remove_instance-RowRemoved,
}
use kws.Domains
use kws.Results.{put_deploy_result, get_deploy_result}
use kws.Results.Laws.{get_deploy_result-put_deploy_result}
use kws.Postgres.{PgServiceUser, add_user}
use kws.Postgres.Limits.{RoleAdded, user_row, add_user-RoleAdded}
use kws.Http.{refused}
use kws.World.{Fault, broken, database_dropped}
use kws.Postgres.Handlers.{remove_pg_database, create_pg_user}
use kws.Postgres.Rollback.{Created, create_pg_user-Created}
use kws.Postgres.Ownership.{remove_pg_database_unowned}
use kws.Users.{validate_user_name, validate_password, is_upper, is_lower, is_special, byte_length}
use kws.Users.Laws.{IsPlain, validate_user_name-IsPlain, validate_password_lem}
use kws.Lxd
use kws.Lxd.Stuck.{Refused, create_instance-Refused}
use kws.Tests.Fixture.{Memory, services, string_laws, no_fault, started}

abbrev calm : Services
calm = services no_fault []

abbrev calm_laws : StringLaws calm
calm_laws = string_laws no_fault []

abbrev ada : Text
ada = codes "ada_l"

abbrev secret : Text
secret = codes "S3cret!!"

-- One instance, one domain and one role, all of user 1; and an address without a container.
abbrev one_user : World Memory
one_user = record started {
  instances = row 1 ada ada secret ∷ [];
  domains =
      record { user_id = 1; domain_name = codes "a.kws"; port = pos 80; is_code = false } ∷ [];
  pg_users = user_row (record { uid = 1; user_name = ada; password = secret }) 1 ∷ [];
  userips = record { user_id = 1; ip_address = 2 } ∷ [];
  next_id = 2;
}

start_instance-Started_example : Started calm 1 one_user (start_instance calm 1 one_user)
start_instance-Started_example = start_instance-Started calm 1 one_user

remove_instance-RowRemoved_example : RowRemoved calm 1 one_user (remove_instance calm 1 one_user)
remove_instance-RowRemoved_example = remove_instance-RowRemoved calm 1 one_user

abbrev result : WebInstance
result = record {
  container_id = codes "1-ada-l-instance";
  success = true;
  username = ada;
  password = secret;
  ip = codes "172.30.0.2";
}

get_deploy_result-put_deploy_result_example :
    let v = (put_deploy_result calm (codes "job") result started).1 in
    ((get_deploy_result calm (codes "job") v).0 ≡ ok (true, some result))
    × ((get_deploy_result calm (codes "job") (get_deploy_result calm (codes "job") v).1).0
        ≡ ok (false, none))
get_deploy_result-put_deploy_result_example =
    get_deploy_result-put_deploy_result calm calm_laws (λ n. refl) started (codes "job") result

abbrev bob : PgServiceUser
bob = record { uid = 1; user_name = codes "bob"; password = secret }

add_user-RoleAdded_example : RoleAdded calm bob one_user (add_user calm bob one_user)
add_user-RoleAdded_example = add_user-RoleAdded calm bob one_user

-- The server of roles does not answer.
abbrev role_down : ℕ → Option Fault
role_down n = if n == 2 then some (broken 0) else none

abbrev unlucky : Services
unlucky = services role_down []

create_pg_user-Created_example :
    Created unlucky bob one_user (create_pg_user unlucky true bob one_user)
create_pg_user-Created_example = create_pg_user-Created unlucky bob one_user refl

abbrev stranger : PgServiceUser
stranger = record { uid = 2; user_name = codes "eve"; password = secret }

remove_pg_database_unowned_example :
    let (r, v) = remove_pg_database calm true stranger (codes "shop") one_user in
    (r ≡ ok (refused 500))
    × (v.log ≡ database_dropped (codes "shop") ∷ one_user.log)
    × (v.pg_dbs ≡ one_user.pg_dbs)
unfolding text_eq
remove_pg_database_unowned_example =
    remove_pg_database_unowned calm stranger (codes "shop") one_user refl refl

validate_user_name-IsPlain_example : (5 ≤ length ada) × (length ada ≤ 30) × All IsPlain ada
unfolding validate_user_name
validate_user_name-IsPlain_example = validate_user_name-IsPlain ada refl

validate_password_lem_example : validate_password secret ≡ (
    leb 8 (byte_length secret)
    && (exists is_upper secret
        && (exists is_lower secret && (exists is_digit secret && exists is_special secret))))
validate_password_lem_example = validate_password_lem secret

create_instance-Refused_example :
    Refused calm 1
      (Lxd.create_instance calm (record { cidr_value = 24 }) (codes "1-ada-l-instance") 1 one_user)
create_instance-Refused_example =
    create_instance-Refused calm (λ n. refl) 1 (record { cidr_value = 24 })
      (codes "1-ada-l-instance") one_user refl refl
