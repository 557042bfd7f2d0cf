-- ===== src/Instances.antt =====
-- `InstanceStore`, src/internal/store/instance.go: the tables instance and userip.
pub mod Ips
pub mod Rows
pub mod View
use kws.Prelude.{
  ℕ, zero, suc, Bool, true, false, Text, text_eq, List, [], ◌∷◌, ◌++◌, Option, none, some, map, not,
  ◌||◌, ◌==◌, select, count, exists, update, highest, if◌then◌else◌,
}
use kws.Prelude.Int.{ℤ, pos, negsuc}
use kws.World.{
  World, UserIp, InstanceRow, Error, container_already_running, container_start_failed,
  container_stop_failed, container_delete_failed, peer_does_not_exist, no_rows, unique_violation, M,
  Result, ok, err, pure, raise, gets, modify, raise_if, try, ⊤, ◌>>=◌, ◌>>◌, Services, call,
}
use kws.Allocation.{allocate_loop}
use kws.Names.{Instance, create_instance_type}

-- The rows of a user.
abbrev pub of_user : ℕ → InstanceRow → Bool
of_user uid r = r.user_id == uid

abbrev pub ip_of_user : ℕ → UserIp → Bool
ip_of_user uid r = r.user_id == uid

abbrev pub ips : List UserIp → List ℕ
ips = map (λ r. r.ip_address)

-- What `QueryRow(...).Scan` reads of the first row.
abbrev pub first_running : List InstanceRow → Option Bool
first_running [] = none
first_running (r ∷ rs) = some r.is_running

abbrev pub first_ip : List UserIp → Option ℕ
first_ip [] = none
first_ip (r ∷ rs) = some r.ip_address

abbrev pub first_row : List InstanceRow → Option InstanceRow
first_row [] = none
first_row (r ∷ rs) = some r

-- `InsData`, without the page's user name and address, which its caller fills in.
pub data InstanceStatus : Type 0 where
  inactive active stopped : InstanceStatus

pub record InsData : Type 0 where
  pub status : InstanceStatus
  pub container_name : Text
  pub username : Text
  pub password : Text

abbrev pub ins_data : Option InstanceRow → InsData
ins_data none = record { status = inactive; container_name = []; username = []; password = [] }
ins_data (some r) = record {
  status = if r.is_running then active else stopped;
  container_name = r.container_name;
  username = r.ins_user;
  password = r.ins_password;
}

module _ (s : Services) where
  -- `INSERT INTO instance`: user_id, volume_name and container_name are UNIQUE.
  unfoldable pub create_instance : ℕ → Text → Text → Text → M s.Memory ⊤
  unfolding call
  create_instance uid user_name ins_user ins_password = do
    let instance_type = create_instance_type uid user_name
    call s
    taken ← gets (λ w.
        exists
          (λ r.
            r.user_id == uid
            || (text_eq r.volume_name instance_type.volume_name
                || text_eq r.container_name instance_type.container_name))
          w.instances)
    raise_if taken unique_violation
    modify (λ w. record w {
      instances =
          w.instances
          ++ record {
            user_id = uid;
            volume_name = instance_type.volume_name;
            container_name = instance_type.container_name;
            is_running = true;
            ins_user = ins_user;
            ins_password = ins_password;
          }
            ∷ [];
    })

  -- `UPDATE instance SET is_running`, and how many rows it changed.
  set_running : ℕ → Bool → M s.Memory ℕ
  unfolding call
  set_running uid running = do
    call s
    rows ← gets (λ w. count (of_user uid) w.instances)
    modify (λ w. record w {
      instances = update (of_user uid) (λ r. record r { is_running = running }) w.instances;
    })
    pure rows

  -- By what the SELECT read: no row is pgx.ErrNoRows.
  start_after : ℕ → Option Bool → M s.Memory ⊤
  unfolding set_running
  start_after uid none = raise no_rows
  start_after uid (some true) = raise container_already_running
  start_after uid (some false) = do
    rows ← set_running uid true
    raise_if (rows == 0) container_start_failed

  unfoldable pub start_instance : ℕ → M s.Memory ⊤
  unfolding call start_after
  start_instance uid = do
    call s
    running ← gets (λ w. first_running (select (of_user uid) w.instances))
    start_after uid running

  unfoldable pub remove_instance : ℕ → M s.Memory ⊤
  unfolding call
  remove_instance uid = do
    call s
    rows ← gets (λ w. count (of_user uid) w.instances)
    modify (λ w. record w { instances = select (λ r. not (of_user uid r)) w.instances })
    raise_if (rows == 0) container_stop_failed

  unfoldable pub stop_instance : ℕ → M s.Memory ⊤
  unfolding set_running
  stop_instance uid = do rows ← set_running uid false; raise_if (rows == 0) container_delete_failed

  unfoldable pub instance_exists : ℕ → M s.Memory Bool
  unfolding call
  instance_exists uid = do call s; gets (λ w. count (of_user uid) w.instances == 1)

  unfoldable pub get_data : ℕ → M s.Memory InsData
  unfolding call
  get_data uid = do call s; gets (λ w. ins_data (first_row (select (of_user uid) w.instances)))

  -- `INSERT INTO userip`, where user_id is UNIQUE.
  unfoldable pub add_ip : ℕ → ℕ → M s.Memory ⊤
  unfolding call
  add_ip uid ip = do
    call s
    taken ← gets (λ w. exists (ip_of_user uid) w.userips)
    raise_if taken unique_violation
    modify (λ w. record w { userips = w.userips ++ record { user_id = uid; ip_address = ip } ∷ [] })

  unfoldable pub remove_ip : ℕ → M s.Memory ℕ
  unfolding call
  remove_ip uid = do
    call s
    found ← gets (λ w. first_ip (select (ip_of_user uid) w.userips))
    modify (λ w. record w { userips = select (λ r. not (ip_of_user uid r)) w.userips })
    elim found [ none ↦ raise peer_does_not_exist | some ip ↦ pure ip ]

  unfoldable pub allocate_next_free_ip : ℕ → ℕ → M s.Memory ℕ
  allocate_next_free_ip max_host_number uid =
      allocate_loop s (λ w. highest (ips w.userips)) (add_ip uid) max_host_number 5 0

  -- Every failure is answered with -1 and no error.
  unfoldable pub get_ip_from_uid : ℕ → M s.Memory ℤ
  unfolding call
  get_ip_from_uid uid = do
    asked ← try (call s)
    found ← gets (λ w. first_ip (select (ip_of_user uid) w.userips))
    elim asked [
      | err e ↦ pure (negsuc 0)
      | ok _ ↦ elim found [ none ↦ pure (negsuc 0) | some ip ↦ pure (pos ip) ]
    ]
