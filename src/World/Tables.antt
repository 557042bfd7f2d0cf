-- ===== src/World/Tables.antt =====
-- The rows of the tables in src/internal/database/migrations, with the columns that the code
-- reads, and the commands that it sends to the services.
use kws.Prelude.{ℕ, Bool, Text, List}
use kws.Prelude.Int.{ℤ}

-- wgpeer: public_key and ip_address are UNIQUE.
pub record Peer : Type 0 where
  pub user_id : ℕ
  pub public_key : Text
  pub ip_address : ℕ

-- userip: user_id is UNIQUE, ip_address is not.
pub record UserIp : Type 0 where
  pub user_id : ℕ
  pub ip_address : ℕ

-- instance: user_id, volume_name and container_name are UNIQUE.
pub record InstanceRow : Type 0 where
  pub user_id : ℕ
  pub volume_name : Text
  pub container_name : Text
  pub is_running : Bool
  pub ins_user : Text
  pub ins_password : Text

-- domains: domain_name is UNIQUE.
pub record DomainRow : Type 0 where
  pub user_id : ℕ
  pub domain_name : Text
  pub port : ℤ
  pub is_code : Bool

-- tunnels: domain is UNIQUE.
pub record TunnelRow : Type 0 where
  pub user_id : ℕ
  pub tunnel_name : Text
  pub domain : Text
  pub is_custom : Bool

-- pg_service_user: pg_user_name is UNIQUE.
pub record PgUserRow : Type 0 where
  pub id : ℕ
  pub user_id : ℕ
  pub pg_user_name : Text
  pub pg_user_password : Text

-- pg_service_db: the pair (pid, db_name) is UNIQUE; a row goes with its owner (ON DELETE CASCADE).
pub record PgDbRow : Type 0 where
  pub pid : ℕ
  pub db_name : Text

-- users: email and user_name are UNIQUE, password_hash is NOT NULL.
pub record UserRow : Type 0 where
  pub id : ℕ
  pub first_name : Text
  pub last_name : Text
  pub email : Text
  pub password_hash : Text
  pub verified : Bool
  pub user_name : Text

-- `InstanceQueueMessage`, src/internal/store/messageQueue.go.
pub record Message : Type 0 where
  pub ins_user : Text
  pub ins_password : Text
  pub user_id : ℕ
  pub user_name : Text
  pub job_id : Text
  pub action : Text

-- `TunnelQueueMessage`, the same file.
pub record TunnelMessage : Type 0 where
  pub domain : Text
  pub is_custom : Bool
  pub name : Text
  pub uid : ℤ

-- `web.Instance`, src/models/web/web.go: the result of a deployment.
pub record WebInstance : Type 0 where
  pub container_id : Text
  pub success : Bool
  pub username : Text
  pub password : Text
  pub ip : Text

-- A command that a service has carried out, with what identifies its effect.
pub data Event : Type 0 where
  peer_configured : Text → Text → Event  -- public key, address
  peer-Removed : Text → Event
  container_created : Text → Text → Event  -- name, address
  container_started container_stopped container_deleted : Text → Event
  command_run : Text → List Text → Event  -- container, words of the command
  conf_written : Text → Text → Text → Event  -- domain, address, port
  conf_removed : Text → Event
  tunnel_conf_written : Text → Event
  nginx_reloaded : Event
  role_created role_dropped : Text → Event
  database_created : Text → Text → Event  -- name, owner
  connect_revoked database_dropped : Text → Event
  image_copied bridge_created : Event
  storage_pool_created : Text → Event
  link_added address_added link_set_up device_configured forward_bit_set : Event
  mail_sent : Text → Text → Event  -- address, token
  acked nacked : Event
