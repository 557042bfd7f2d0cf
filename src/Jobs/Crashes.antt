-- ===== src/Jobs/Crashes.antt =====
-- The work of a delivery and its reports handle every error that does not end the process.
use kws.Prelude.{ℕ, arith, refl, Bool, true, false, List, [], ◌∷◌}
use kws.World.{Message, DomainRow, M, Result, ok, err, attempt, ⊤, ◌>>=◌, Services}
use kws.World.Frame.{OnlyCrashes, after-OnlyCrashes}
use kws.Address.{IpAllocator}
use kws.Instances
use kws.Lxd
use kws.Lxd.{instance_start, instance_stop}
use kws.Nginx.{remove_conf}
use kws.Jobs.{
  Work, finished, retried, container_of, or_retry, passing, is_start_failed, is_exists,
  is_already_running, is_no_container_to_stop, is_no_container_to_delete, recover, after_start,
  record_deploy, start_container, after_create, deploy_work, stop_work, kill_work, remove_confs,
  dereference,
}

module _ (s : Services) (a : IpAllocator) where
  or_retry-OnlyCrashes :
      {A : Type 0} (f : A → M s.Memory Work)
      → ((x : A) → OnlyCrashes (f x))
      → (r : Result A) → OnlyCrashes (or_retry s a r f)
  or_retry-OnlyCrashes f h (ok x) w = h x w
  or_retry-OnlyCrashes f h (err e) w = tt

  finish_after :
      {A : Type 0} (m : M s.Memory A)
      → OnlyCrashes (attempt m >>= λ r. or_retry s a r (λ _ w. (ok finished, w)))
  finish_after m =
      after-OnlyCrashes m (λ r. or_retry s a r (λ _ w. (ok finished, w)))
        (or_retry-OnlyCrashes (λ _ w. (ok finished, w)) (λ x w. tt))

  recover-OnlyCrashes : (m : Message) → OnlyCrashes (recover s a m)
  unfolding recover
  recover-OnlyCrashes m =
      after-OnlyCrashes
        (Instances.create_instance s m.user_id m.user_name m.ins_user m.ins_password) _
        (or_retry-OnlyCrashes _ (λ x. finish_after (Instances.start_instance s m.user_id)))

  after_start-OnlyCrashes : (m : Message) (r : Result ⊤) → OnlyCrashes (after_start s a m r)
  unfolding after_start
  after_start-OnlyCrashes m (ok _) w = tt
  after_start-OnlyCrashes m (err e) w = by_error (is_start_failed e) w
    where
      by_error :
          (b : Bool)
          → OnlyCrashes (elim b as (λ x. M s.Memory Work) [
            | true ↦ recover s a m
            | false ↦ λ w. (ok retried, w)
          ])
      by_error true v = recover-OnlyCrashes m v
      by_error false v = tt

  record_deploy-OnlyCrashes : (m : Message) (b : Bool) → OnlyCrashes (record_deploy s a m b)
  unfolding record_deploy
  record_deploy-OnlyCrashes m false =
      finish_after (Instances.create_instance s m.user_id m.user_name m.ins_user m.ins_password)
  record_deploy-OnlyCrashes m true =
      after-OnlyCrashes (Instances.start_instance s m.user_id) (after_start s a m)
        (after_start-OnlyCrashes m)

  -- The Nack, or what comes next.
  passed-OnlyCrashes :
      (next : M s.Memory Work)
      → OnlyCrashes next
      → (b : Bool)
      → OnlyCrashes
          (elim b as (λ x. M s.Memory Work) [ false ↦ λ w. (ok retried, w) | true ↦ next ])
  passed-OnlyCrashes next h true w = h w
  passed-OnlyCrashes next h false w = tt

  start_container-OnlyCrashes : (m : Message) (b : Bool) → OnlyCrashes (start_container s a m b)
  unfolding start_container
  start_container-OnlyCrashes m b = after-OnlyCrashes (Instances.instance_exists s m.user_id) _ (
      or_retry-OnlyCrashes _ λ p.
        after-OnlyCrashes
          (Lxd.update_instance_state s m.ins_user m.ins_password instance_start (container_of m) p
            m.user_id)
          _
          (λ r.
            passed-OnlyCrashes (record_deploy s a m b) (record_deploy-OnlyCrashes m b)
              (passing is_already_running r)))

  after_create-OnlyCrashes : (m : Message) (r : Result ⊤) → OnlyCrashes (after_create s a m r)
  unfolding after_create
  after_create-OnlyCrashes m (ok _) = start_container-OnlyCrashes m false
  after_create-OnlyCrashes m (err e) =
      passed-OnlyCrashes (start_container s a m true) (start_container-OnlyCrashes m true)
        (is_exists e)

  pub deploy_work-OnlyCrashes : (m : Message) → OnlyCrashes (deploy_work s a m)
  unfolding deploy_work
  deploy_work-OnlyCrashes m =
      after-OnlyCrashes (Lxd.create_instance s a (container_of m) m.user_id) (after_create s a m)
        (after_create-OnlyCrashes m)

  pub stop_work-OnlyCrashes : (m : Message) → OnlyCrashes (stop_work s a m)
  unfolding stop_work
  stop_work-OnlyCrashes m =
      after-OnlyCrashes
        (Lxd.update_instance_state s [] [] instance_stop (container_of m) true m.user_id) _
        (λ r.
          passed-OnlyCrashes _ (finish_after (Instances.stop_instance s m.user_id))
            (passing is_no_container_to_stop r))

  pub kill_work-OnlyCrashes : (m : Message) → OnlyCrashes (kill_work s a m)
  unfolding kill_work
  kill_work-OnlyCrashes m =
      after-OnlyCrashes (Lxd.delete_instance s m.user_id (container_of m)) _ (λ r.
        passed-OnlyCrashes _ (finish_after (Instances.remove_instance s m.user_id))
          (passing is_no_container_to_delete r))

  pub remove_confs-OnlyCrashes : (ds : List DomainRow) → OnlyCrashes (remove_confs s a ds)
  unfolding remove_confs
  remove_confs-OnlyCrashes [] w = tt
  remove_confs-OnlyCrashes (d ∷ ds) w =
      after-OnlyCrashes (remove_conf s d.domain_name) (λ _. remove_confs s a ds)
        (λ _. remove_confs-OnlyCrashes ds) w

  pub dereference-OnlyCrashes :
      (asked : Result (List DomainRow)) → OnlyCrashes (dereference s a asked)
  unfolding dereference
  dereference-OnlyCrashes (ok ds) w = tt
  dereference-OnlyCrashes (err e) w = refl

  pub get_ip_from_uid-OnlyCrashes : (uid : ℕ) → OnlyCrashes (Instances.get_ip_from_uid s uid)
  unfolding Instances.get_ip_from_uid
  get_ip_from_uid-OnlyCrashes uid w = ground arith
