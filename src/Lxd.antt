-- ===== src/Lxd.antt =====
-- The state-changing methods of `LXDKWS`, src/lxd/lxd.go, on the container of a user.
pub mod Setup
pub mod Stuck
pub mod Boot
use kws.Prelude.{
  ℕ, Bool, true, false, Text, text_eq, codes, List, [], ◌∷◌, Option, none, some, exists,
  if◌then◌else◌,
}
use kws.Prelude.Int.{pos}
use kws.World.{
  World, Event, container_created, container_started, container_stopped, container_deleted,
  DomainRow, Error, container_already_exists, container_already_running,
  container_not_found_to_stop, container_not_found_to_delete, M, Result, ok, err, pure, raise,
  raise_if, try, attempt, ⊤, ◌>>=◌, ◌>>◌, Services, call, command, now,
}
use kws.Address.{IpAllocator}
use kws.Allocator.{allocate_free_lxc_ip, deallocate_lxc_ip}
use kws.Domains.{add_domain, remove_domain}
use kws.Nginx.{Template, instance_template, add_new_conf, remove_conf, reload_nginx_conf}
use kws.Lxd.Setup.{set_up, find_container_ip}

-- config.INSTANCE_START and config.INSTANCE_STOP.
pub data State : Type 0 where
  instance_start instance_stop : State

-- The port of the code server.
abbrev pub code_port : ℕ
code_port = 8099

abbrev pub changed : State → Text → Event
changed instance_start = container_started
changed instance_stop = container_stopped

module _ (s : Services) where
  unfoldable pub container_exists : Text → M s.Memory Bool
  unfolding call
  container_exists name = do n ← now s; call s; pure (exists (λ c. text_eq c name) (s.containers n))

  -- The request to LXD and the wait for the operation: two calls.
  unfoldable pub operate : Event → M s.Memory ⊤
  unfolding call command
  operate e = do call s; command s e

  unfoldable pub create_instance : IpAllocator → Text → ℕ → M s.Memory ⊤
  unfolding container_exists operate
  create_instance a name uid = do
    found ← container_exists name
    raise_if found container_already_exists
    ip ← allocate_free_lxc_ip s a uid
    operate (container_created name ip)

  -- What is asked before the state is changed.
  check_state : State → Text → M s.Memory ⊤
  unfolding call container_exists
  check_state instance_start name = do
    n ← now s
    call s
    raise_if (s.is_running n) container_already_running
  check_state instance_stop name = do
    found ← container_exists name
    raise_if (if found then false else true) container_not_found_to_stop

  -- The proxy's reload; had it returned an error, the domain would have been removed.
  expose_after : ℕ → Text → Result ⊤ → M s.Memory ⊤
  expose_after uid name (ok _) = pure tt
  expose_after uid name (err e) = remove_domain s uid name

  -- The code server is exposed under the container's name.
  unfoldable pub expose : Text → ℕ → M s.Memory ⊤
  unfolding expose_after
  expose name uid = do
    ip ← find_container_ip s name
    add_domain s uid name (pos code_port)
    add_new_conf s instance_template (record { domain = name; ip = ip; port = codes "8099" })
    reloaded ← attempt (reload_nginx_conf s)
    expose_after uid name reloaded

  -- A container without a row is set up after its start.
  finish_state : Text → Text → State → Text → Bool → ℕ → M s.Memory ⊤
  unfolding expose
  finish_state user_name password instance_start name false uid = do
    set_up s name user_name password
    expose name uid
  finish_state user_name password instance_start name true uid = pure tt
  finish_state user_name password instance_stop name present uid = pure tt

  unfoldable pub update_instance_state : Text → Text → State → Text → Bool → ℕ → M s.Memory ⊤
  unfolding check_state operate finish_state
  update_instance_state user_name password state name present uid = do
    check_state state name
    operate (changed state name)
    finish_state user_name password state name present uid

  -- The container's stop may fail; its address is given back before it is deleted.
  unfoldable pub delete_instance : ℕ → Text → M s.Memory ⊤
  unfolding container_exists operate
  delete_instance uid name = do
    found ← container_exists name
    raise_if (if found then false else true) container_not_found_to_delete
    _ ← try (update_instance_state [] [] instance_stop name true uid)
    deallocate_lxc_ip s uid
    operate (container_deleted name)
    remove_domain s uid name
    remove_conf s name
    reload_nginx_conf s
