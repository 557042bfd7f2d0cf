-- ===== src/Untouched/Containers.antt =====
-- The operations on containers, which leave the tables of users, devices, roles and instances alone.
use kws.Prelude.{ℕ, refl, Bool, true, false, Text, List, highest, arith}
use kws.World.{
  container_created, container_deleted, M, Result, ok, err, raise, dns_ip, ◌>>◌, Services,
}
use kws.Instances
use kws.Address.{IpAllocator, find_no_of_usable_hosts_docker}
use kws.Allocation.Frame.{loop-Keeps}
use kws.Allocator.{
  is_empty_stack, pop_free_ip, push_free_ip, place_instance, allocate_free_lxc_ip,
  deallocate_lxc_ip,
}
use kws.Lxd
use kws.Lxd.Setup.{
  run_command, create_user, install_essentials, set_netplan_dns, config_ssh, install_code_server,
  configure_code_server, start_code_server, find_container_ip, set_up_system, set_up_server, set_up,
}
use kws.Untouched.Frame.{Same, IsSame, IsRows, IsQuiet, Same-trans, chain}
use kws.Untouched.Stores.{
  add_domain-IsSame, remove_domain-IsSame, add_new_conf-IsSame, remove_conf-IsSame,
  reload_nginx_conf-IsSame,
}

module _ (s : Services) where
  remove_ip-IsSame : (uid : ℕ) → IsSame s (Instances.remove_ip s uid)
  unfolding Instances.remove_ip
  remove_ip-IsSame uid w = ground arith

  pub push_free_ip-IsSame : (ip : ℕ) (key : Text) → IsSame s (push_free_ip s ip key)
  unfolding push_free_ip
  push_free_ip-IsSame ip key w = ground arith

  deallocate_lxc_ip-IsSame : (uid : ℕ) → IsSame s (deallocate_lxc_ip s uid)
  unfolding deallocate_lxc_ip
  deallocate_lxc_ip-IsSame uid w = grind (arith, remove_ip-IsSame, push_free_ip-IsSame)

  run_command-IsSame : (c : Text) (ws : List Text) → IsSame s (run_command s c ws)
  unfolding run_command
  run_command-IsSame c ws w = ground arith

  create_user-IsSame : (c u p : Text) → IsSame s (create_user s c u p)
  unfolding create_user
  create_user-IsSame c u p w = grind (arith, run_command-IsSame)

  install_essentials-IsSame : (c : Text) → IsSame s (install_essentials s c)
  unfolding install_essentials
  install_essentials-IsSame c w = grind (arith, run_command-IsSame)

  set_netplan_dns-IsSame : (c ip : Text) → IsSame s (set_netplan_dns s c ip)
  unfolding set_netplan_dns
  set_netplan_dns-IsSame c ip w = grind (arith, run_command-IsSame)

  config_ssh-IsRows : (c : Text) → IsRows s (config_ssh s c)
  unfolding config_ssh
  config_ssh-IsRows c w = grind (arith, run_command-IsSame)

  config_ssh-IsQuiet : (c : Text) → IsQuiet s (config_ssh s c)
  unfolding config_ssh
  config_ssh-IsQuiet c w = grind (arith, run_command-IsSame)

  config_ssh-IsSame : (c : Text) → IsSame s (config_ssh s c)
  config_ssh-IsSame c w = (config_ssh-IsRows c w, config_ssh-IsQuiet c w)

  install_code_server-IsSame : (c : Text) → IsSame s (install_code_server s c)
  unfolding install_code_server
  install_code_server-IsSame c w = grind (arith, run_command-IsSame)

  configure_code_server-IsSame : (c u p : Text) → IsSame s (configure_code_server s c u p)
  unfolding configure_code_server
  configure_code_server-IsSame c u p w = grind (arith, run_command-IsSame)

  start_code_server-IsSame : (c u : Text) → IsSame s (start_code_server s c u)
  unfolding start_code_server
  start_code_server-IsSame c u w = grind (arith, run_command-IsSame)

  find_container_ip-IsSame : (c : Text) → IsSame s (find_container_ip s c)
  unfolding find_container_ip
  find_container_ip-IsSame c w = ground arith

  set_up_system-IsSame : (c u p : Text) → IsSame s (set_up_system s c u p)
  unfolding set_up_system
  set_up_system-IsSame c u p =
      chain s (create_user s c u p) (install_essentials s c >> set_netplan_dns s c dns_ip)
        (create_user-IsSame c u p)
        (chain s (install_essentials s c) (set_netplan_dns s c dns_ip) (install_essentials-IsSame c)
          (set_netplan_dns-IsSame c dns_ip))

  configured-IsSame :
      (c u p : Text) → IsSame s (configure_code_server s c u p >> start_code_server s c u)
  configured-IsSame c u p =
      chain s (configure_code_server s c u p) (start_code_server s c u)
        (configure_code_server-IsSame c u p) (start_code_server-IsSame c u)

  set_up_server-IsSame : (c u p : Text) → IsSame s (set_up_server s c u p)
  unfolding set_up_server
  set_up_server-IsSame c u p =
      chain s (install_code_server s c)
        (config_ssh s c >> (configure_code_server s c u p >> start_code_server s c u))
        (install_code_server-IsSame c)
        (chain s (config_ssh s c) (configure_code_server s c u p >> start_code_server s c u)
          (config_ssh-IsSame c) (configured-IsSame c u p))

  set_up-IsSame : (c u p : Text) → IsSame s (set_up s c u p)
  unfolding set_up
  set_up-IsSame c u p =
      chain s (set_up_system s c u p) (set_up_server s c u p) (set_up_system-IsSame c u p)
        (set_up_server-IsSame c u p)

  container_exists-IsSame : (c : Text) → IsSame s (Lxd.container_exists s c)
  unfolding Lxd.container_exists
  container_exists-IsSame c w = ground arith

  expose-IsSame : (c : Text) (uid : ℕ) → IsSame s (Lxd.expose s c uid)
  unfolding Lxd.expose
  expose-IsSame c uid w = grind (
    arith,
    find_container_ip-IsSame,
    add_domain-IsSame s,
    add_new_conf-IsSame s,
    reload_nginx_conf-IsSame s,
    remove_domain-IsSame s,
  )

  operate_change-IsSame : (st : Lxd.State) (c : Text) → IsSame s (Lxd.operate s (Lxd.changed st c))
  unfolding Lxd.operate
  operate_change-IsSame st c w = ground arith

  operate_create-IsSame : (c ip : Text) → IsSame s (Lxd.operate s (container_created c ip))
  unfolding Lxd.operate
  operate_create-IsSame c ip w = ground arith

  operate_delete-IsSame : (c : Text) → IsSame s (Lxd.operate s (container_deleted c))
  unfolding Lxd.operate
  operate_delete-IsSame c w = ground arith

  pub update_instance_state-IsSame :
      (u p : Text) (st : Lxd.State) (c : Text) (b : Bool) (uid : ℕ)
      → IsSame s (Lxd.update_instance_state s u p st c b uid)
  unfolding Lxd.update_instance_state
  update_instance_state-IsSame u p st c b uid w =
      grind (arith, container_exists-IsSame, operate_change-IsSame, set_up-IsSame, expose-IsSame)

  pub delete_instance-IsSame : (uid : ℕ) (c : Text) → IsSame s (Lxd.delete_instance s uid c)
  unfolding Lxd.delete_instance
  delete_instance-IsSame uid c w = grind (
    arith,
    container_exists-IsSame,
    update_instance_state-IsSame,
    deallocate_lxc_ip-IsSame,
    operate_delete-IsSame,
    remove_domain-IsSame s,
    remove_conf-IsSame s,
    reload_nginx_conf-IsSame s,
  )

  add_ip-IsSame : (uid ip : ℕ) → IsSame s (Instances.add_ip s uid ip)
  unfolding Instances.add_ip
  add_ip-IsSame uid ip w = ground arith

  pub pop_free_ip-IsSame : (key : Text) → IsSame s (pop_free_ip s key)
  unfolding pop_free_ip
  pop_free_ip-IsSame key w = ground arith

  allocate_next_free_ip-IsSame :
      (limit uid : ℕ) → IsSame s (Instances.allocate_next_free_ip s limit uid)
  unfolding Instances.allocate_next_free_ip
  allocate_next_free_ip-IsSame limit uid =
      loop-Keeps s (λ w. highest (Instances.ips w.userips)) (Instances.add_ip s uid) limit (Same s)
        (Same-trans s) (λ w t. ((refl, refl, refl, refl), (refl, refl))) (add_ip-IsSame uid) 5 0

  place_instance-IsSame :
      (a : IpAllocator) (uid : ℕ) (r : Result ℕ) → IsSame s (place_instance s a uid r)
  unfolding place_instance
  place_instance-IsSame a uid (ok ip) w = grind (arith, add_ip-IsSame)
  place_instance-IsSame a uid (err e) w = branch (is_empty_stack e)
    where
      branch :
          (b : Bool)
          → Same s w
              ((elim b as (λ x. M s.Memory ℕ) [
                | true ↦ Instances.allocate_next_free_ip s (find_no_of_usable_hosts_docker a) uid
                | false ↦ raise e
              ])
                w).1
      branch true = allocate_next_free_ip-IsSame (find_no_of_usable_hosts_docker a) uid w
      branch false = ((refl, refl, refl, refl), (refl, refl))

  allocate_free_lxc_ip-IsSame :
      (a : IpAllocator) (uid : ℕ) → IsSame s (allocate_free_lxc_ip s a uid)
  unfolding allocate_free_lxc_ip
  allocate_free_lxc_ip-IsSame a uid w = grind (arith, pop_free_ip-IsSame, place_instance-IsSame)

  pub lxd_create_instance-IsSame :
      (a : IpAllocator) (c : Text) (uid : ℕ) → IsSame s (Lxd.create_instance s a c uid)
  unfolding Lxd.create_instance
  lxd_create_instance-IsSame a c uid w =
      grind (arith, container_exists-IsSame, allocate_free_lxc_ip-IsSame, operate_create-IsSame)
