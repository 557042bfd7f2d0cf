-- ===== src/Untouched/Stores.antt =====
-- The tables that the stores and the services leave alone.
use kws.Prelude.{ℕ, ◌≡◌, refl, false, Bool, Text, List, [], ◌∷◌, arith}
use kws.Prelude.Int.{ℤ}
use kws.World.{role_dropped, WebInstance, Event, Services, call, command}
use kws.Untouched.Frame.{is_answer, IsSame}
use kws.Domains
use kws.Tunnels
use kws.Instances
use kws.Peers
use kws.Results.{
  put_deploy_result, put_stop_result, put_kill_result, get_deploy_result, get_stop_result,
  get_kill_result,
}
use kws.Nginx.{TemplateType, Template, add_new_conf, remove_conf, reload_nginx_conf}
use kws.Postgres.{
  PgServiceUser, add_database, remove_database, get_user_databases, get_users, get_databases,
  get_password,
}
use kws.Postgres.Service.{
  create_postgres_user, create_database, drop_database, drop_databases, drop_postgres_user,
}
use kws.Queue.{Mq, QueueMessage, push_message_instance}
use kws.Auth

module _ (s : Services) where
  pub command-IsSame : (e : Event) → is_answer e ≡ false → IsSame s (command s e)
  unfolding command call
  command-IsSame e quiet w = ground arith

  pub add_user_domain-IsSame :
      (uid : ℕ) (d : Text) (p : ℤ) → IsSame s (Domains.add_user_domain s uid d p)
  unfolding Domains.add_user_domain
  add_user_domain-IsSame uid d p w = ground arith

  pub add_domain-IsSame : (uid : ℕ) (d : Text) (p : ℤ) → IsSame s (Domains.add_domain s uid d p)
  unfolding Domains.add_domain
  add_domain-IsSame uid d p w = ground arith

  pub remove_domain-IsSame : (uid : ℕ) (d : Text) → IsSame s (Domains.remove_domain s uid d)
  unfolding Domains.remove_domain
  remove_domain-IsSame uid d w = ground arith

  pub get_user_domains-IsSame : (uid : ℕ) → IsSame s (Domains.get_user_domains s uid)
  unfolding Domains.get_user_domains
  get_user_domains-IsSame uid w = ground arith

  pub delete_user_domains-IsSame : (uid : ℕ) → IsSame s (Domains.delete_user_domains s uid)
  unfolding Domains.delete_user_domains
  delete_user_domains-IsSame uid w = ground arith

  pub add_new_conf-IsSame : (k : TemplateType) (t : Template) → IsSame s (add_new_conf s k t)
  unfolding add_new_conf
  add_new_conf-IsSame k t w = ground arith

  pub remove_conf-IsSame : (d : Text) → IsSame s (remove_conf s d)
  unfolding remove_conf
  remove_conf-IsSame d w = ground arith

  pub reload_nginx_conf-IsSame : IsSame s (reload_nginx_conf s)
  unfolding reload_nginx_conf
  reload_nginx_conf-IsSame w = ground arith

  pub get_ip_from_uid-IsSame : (uid : ℕ) → IsSame s (Instances.get_ip_from_uid s uid)
  unfolding Instances.get_ip_from_uid call
  get_ip_from_uid-IsSame uid w = ground arith

  pub get_data-IsSame : (uid : ℕ) → IsSame s (Instances.get_data s uid)
  unfolding Instances.get_data call
  get_data-IsSame uid w = ground arith

  pub instance_exists-IsSame : (uid : ℕ) → IsSame s (Instances.instance_exists s uid)
  unfolding Instances.instance_exists
  instance_exists-IsSame uid w = ground arith

  pub get_devices-IsSame : (uid : ℕ) → IsSame s (Peers.get_devices s uid)
  unfolding Peers.get_devices call
  get_devices-IsSame uid w = ground arith

  pub put_deploy_result-IsSame : (j : Text) (i : WebInstance) → IsSame s (put_deploy_result s j i)
  unfolding put_deploy_result
  put_deploy_result-IsSame j i w = ground arith

  pub put_stop_result-IsSame : (b : Bool) (j : Text) → IsSame s (put_stop_result s b j)
  unfolding put_stop_result
  put_stop_result-IsSame b j w = ground arith

  pub put_kill_result-IsSame : (b : Bool) (j : Text) → IsSame s (put_kill_result s b j)
  unfolding put_kill_result
  put_kill_result-IsSame b j w = ground arith

  pub get_deploy_result-IsSame : (j : Text) → IsSame s (get_deploy_result s j)
  unfolding get_deploy_result call
  get_deploy_result-IsSame j w = ground arith

  pub get_stop_result-IsSame : (j : Text) → IsSame s (get_stop_result s j)
  unfolding get_stop_result call
  get_stop_result-IsSame j w = ground arith

  pub get_kill_result-IsSame : (j : Text) → IsSame s (get_kill_result s j)
  unfolding get_kill_result call
  get_kill_result-IsSame j w = ground arith

  pub add_database-IsSame : (u : PgServiceUser) (n : Text) → IsSame s (add_database s u n)
  unfolding add_database
  add_database-IsSame u n w = ground arith

  pub remove_database-IsSame : (u : PgServiceUser) (n : Text) → IsSame s (remove_database s u n)
  unfolding remove_database
  remove_database-IsSame u n w = ground arith

  pub get_user_databases-IsSame : (u : PgServiceUser) → IsSame s (get_user_databases s u)
  unfolding get_user_databases
  get_user_databases-IsSame u w = ground arith

  pub get_users-IsSame : (uid : ℕ) → IsSame s (get_users s uid)
  unfolding get_users
  get_users-IsSame uid w = ground arith

  pub get_databases-IsSame : (pid uid : ℕ) → IsSame s (get_databases s pid uid)
  unfolding get_databases
  get_databases-IsSame pid uid w = ground arith

  pub get_password-IsSame : (pid : ℕ) → IsSame s (get_password s pid)
  unfolding get_password
  get_password-IsSame pid w = ground arith

  pub create_postgres_user-IsSame : (n : Text) → IsSame s (create_postgres_user s n)
  unfolding create_postgres_user
  create_postgres_user-IsSame n w = ground arith

  pub create_database-IsSame : (n o : Text) → IsSame s (create_database s n o)
  unfolding create_database
  create_database-IsSame n o w = ground arith

  pub drop_database-IsSame : (n : Text) → IsSame s (drop_database s n)
  unfolding drop_database
  drop_database-IsSame n w = ground arith

  pub drop_databases-IsSame : (ns : List Text) → IsSame s (drop_databases s ns)
  unfolding drop_databases
  drop_databases-IsSame [] w = ground arith
  drop_databases-IsSame (n ∷ ns) w = grind (arith, drop_database-IsSame, drop_databases-IsSame ns)

  pub drop_postgres_user-IsSame : (u : PgServiceUser) → IsSame s (drop_postgres_user s u)
  unfolding drop_postgres_user
  drop_postgres_user-IsSame u w = grind (
    arith,
    get_user_databases-IsSame,
    drop_databases-IsSame,
    command-IsSame (role_dropped u.user_name) refl,
  )

  pub push_message_instance-IsSame :
      (mq : Mq) (size : ℕ) (m : QueueMessage) → IsSame s (push_message_instance s mq size m)
  unfolding push_message_instance
  push_message_instance-IsSame mq size m w = ground arith

  pub create_tunnel-IsSame : (t : _) → IsSame s (Tunnels.create_tunnel s t)
  unfolding Tunnels.create_tunnel call
  create_tunnel-IsSame t w = ground arith

  pub destroy_tunnel-IsSame : (n : Text) (uid : ℕ) → IsSame s (Tunnels.destroy_tunnel s n uid)
  unfolding Tunnels.destroy_tunnel call
  destroy_tunnel-IsSame n uid w = ground arith

  pub get_domain_from_tunnel-IsSame :
      (n : Text) (uid : ℕ) → IsSame s (Tunnels.get_domain_from_tunnel s n uid)
  unfolding Tunnels.get_domain_from_tunnel call
  get_domain_from_tunnel-IsSame n uid w = ground arith

  pub login_user-IsSame : (n p : Text) → IsSame s (Auth.login_user s n p)
  unfolding Auth.login_user call
  login_user-IsSame n p w = ground arith

  pub set_tunnel_login-IsSame : (k : Text) (uid : ℕ) → IsSame s (Auth.set_tunnel_login s k uid)
  unfolding Auth.set_tunnel_login
  set_tunnel_login-IsSame k uid w = ground arith

  pub get_uid_from_tunnel_secret-IsSame :
      (k : Text) → IsSame s (Auth.get_uid_from_tunnel_secret s k)
  unfolding Auth.get_uid_from_tunnel_secret
  get_uid_from_tunnel_secret-IsSame k w = ground arith

  pub generate_token-IsSame : (e : Text) → IsSame s (Auth.generate_token s e)
  unfolding Auth.generate_token
  generate_token-IsSame e w = ground arith

  pub set_email_token-IsSame : (e t : Text) → IsSame s (Auth.set_email_token s e t)
  unfolding Auth.set_email_token
  set_email_token-IsSame e t w = ground arith

  pub get_email_from_token-IsSame : (t : Text) → IsSame s (Auth.get_email_from_token s t)
  unfolding Auth.get_email_from_token
  get_email_from_token-IsSame t w = ground arith

  pub delete_email_token-IsSame : (t : Text) → IsSame s (Auth.delete_email_token s t)
  unfolding Auth.delete_email_token
  delete_email_token-IsSame t w = ground arith
