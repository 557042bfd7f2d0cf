-- ===== src/World/Errors.antt =====
-- The errors that the code compares, src/consts/status/status.go and the literals of the stores,
-- and the config constants of src/consts/config/config.go.
use kws.Prelude.{ℕ, Text, codes}

-- The names follow status.go. `no_rows` is pgx.ErrNoRows, `unique_violation` a PgError with code
-- 23505, `serialization` one with code 40001, `null_violation` one with code 23502; `failed n` is any other
-- error of a service. `exited` is the end of the process by log.Fatal, `nil_dereference` and
-- `index_out_of_range` are panics, and `waits_forever` is a receive from a channel that nothing is sent to.
pub data Error : Type 0 where
  user_name_invalid user_not_verified wrong_credentials : Error
  container_already_running container_already_exists : Error
  container_not_found_to_stop container_not_found_to_delete : Error
  container_start_failed container_stop_failed container_delete_failed : Error
  peer_does_not_exist invalid_cidr host_exhaustion empty_ip_stack wg_device_limit : Error
  pg_max_user_limit pg_max_db_limit pg_user_already_exists pg_db_already_exists : Error
  pg_user_not_found pg_db_not_found : Error
  domain_already_exists domain_limit_exceeded : Error
  user_already_exists tunnel_already_exists no_domain_for_tunnel key_expired : Error
  no_rows unique_violation serialization not_a_number invalid_key : Error
  no_ip_found malformed null_violation interface_already_exists : Error
  exited nil_dereference index_out_of_range waits_forever : Error
  failed : ℕ → Error

-- config.go.
abbrev pub stack_key : Text
stack_key = codes "ip_stack"

abbrev pub lxc_ip : Text
lxc_ip = codes "lxc_ip"

abbrev pub cidr : ℕ
cidr = 24

abbrev pub max_wg_devices_per_user : ℕ
max_wg_devices_per_user = 3

abbrev pub max_service_db_users : ℕ
max_service_db_users = 5

abbrev pub max_service_db_db : ℕ
max_service_db_db = 10

abbrev pub user_domain_limit : ℕ
user_domain_limit = 3

abbrev pub dns_ip : Text
dns_ip = codes "172.30.0.102"

abbrev pub deploy_action : Text
deploy_action = codes "deploy"

abbrev pub stop_action : Text
stop_action = codes "stop"

abbrev pub kill_action : Text
kill_action = codes "kill"
