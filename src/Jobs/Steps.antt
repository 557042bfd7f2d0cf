-- ===== src/Jobs/Steps.antt =====
-- The work on a container and on the records of it, up to the answer of the delivery:
-- src/cmd/instance_utility.go.
use kws.Prelude.{Bool, true, false, Text, []}
use kws.World.{
  Message, Error, container_already_exists, container_already_running, container_start_failed,
  container_not_found_to_stop, container_not_found_to_delete, M, Result, ok, err, pure, attempt, ⊤,
  ◌>>=◌, Services,
}
use kws.Address.{IpAllocator}
use kws.Names.{create_instance_type}
use kws.Instances
use kws.Lxd
use kws.Lxd.{instance_start, instance_stop}

abbrev pub is_exists : Error → Bool
is_exists container_already_exists = true
is_exists _ = false

abbrev pub is_already_running : Error → Bool
is_already_running container_already_running = true
is_already_running _ = false

abbrev pub is_start_failed : Error → Bool
is_start_failed container_start_failed = true
is_start_failed _ = false

abbrev pub is_no_container_to_stop : Error → Bool
is_no_container_to_stop container_not_found_to_stop = true
is_no_container_to_stop _ = false

abbrev pub is_no_container_to_delete : Error → Bool
is_no_container_to_delete container_not_found_to_delete = true
is_no_container_to_delete _ = false

-- How a job's work ends: settled with Nack, or gone through and to be acknowledged.
pub data Work : Type 0 where
  retried finished : Work

-- An error that the job lets pass, or the Nack.
abbrev pub passing : (Error → Bool) → Result ⊤ → Bool
passing ignored (ok _) = true
passing ignored (err e) = ignored e

abbrev pub container_of : Message → Text
container_of m = (create_instance_type m.user_id m.user_name).container_name

module _ (s : Services) (a : IpAllocator) where
  -- Go's `if err != nil { d.Nack(false, false); return }`.
  abbrev pub or_retry : {A : Type 0} → Result A → (A → M s.Memory Work) → M s.Memory Work
  or_retry (ok a) f = f a
  or_retry (err e) f = pure retried

  -- StartInstance found no row: the row is made anew.
  unfoldable pub recover : Message → M s.Memory Work
  recover m = do
    created ← attempt (Instances.create_instance s m.user_id m.user_name m.ins_user m.ins_password)
    or_retry created (λ _. do
      started ← attempt (Instances.start_instance s m.user_id)
      or_retry started (λ _. pure finished))

  unfoldable pub after_start : Message → Result ⊤ → M s.Memory Work
  unfolding recover
  after_start m (ok _) = pure finished
  after_start m (err e) = elim (is_start_failed e) [ true ↦ recover m | false ↦ pure retried ]

  -- The records of the database, by whether LXD had the container before.
  unfoldable pub record_deploy : Message → Bool → M s.Memory Work
  unfolding after_start
  record_deploy m false = do
    created ← attempt (Instances.create_instance s m.user_id m.user_name m.ins_user m.ins_password)
    or_retry created (λ _. pure finished)
  record_deploy m true = do
    started ← attempt (Instances.start_instance s m.user_id)
    after_start m started

  unfoldable pub start_container : Message → Bool → M s.Memory Work
  unfolding record_deploy
  start_container m container_exists = do
    present ← attempt (Instances.instance_exists s m.user_id)
    or_retry present (λ p. do
      started ← attempt (
          Lxd.update_instance_state s m.ins_user m.ins_password instance_start (container_of m) p
            m.user_id)
      elim (passing is_already_running started) [
        | false ↦ pure retried
        | true ↦ record_deploy m container_exists
      ])

  unfoldable pub after_create : Message → Result ⊤ → M s.Memory Work
  unfolding start_container
  after_create m (ok _) = start_container m false
  after_create m (err e) = elim (is_exists e) [
    | true ↦ start_container m true
    | false ↦ pure retried
  ]

  -- What a deployment does up to its answer.
  unfoldable pub deploy_work : Message → M s.Memory Work
  unfolding after_create
  deploy_work m = do
    created ← attempt (Lxd.create_instance s a (container_of m) m.user_id)
    after_create m created

  unfoldable pub stop_work : Message → M s.Memory Work
  stop_work m = do
    stopped ←
        attempt (Lxd.update_instance_state s [] [] instance_stop (container_of m) true m.user_id)
    elim (passing is_no_container_to_stop stopped) [
      | false ↦ pure retried
      | true ↦ do
        updated ← attempt (Instances.stop_instance s m.user_id)
        or_retry updated (λ _. pure finished)
    ]

  unfoldable pub kill_work : Message → M s.Memory Work
  kill_work m = do
    deleted ← attempt (Lxd.delete_instance s m.user_id (container_of m))
    elim (passing is_no_container_to_delete deleted) [
      | false ↦ pure retried
      | true ↦ do
        updated ← attempt (Instances.remove_instance s m.user_id)
        or_retry updated (λ _. pure finished)
    ]
