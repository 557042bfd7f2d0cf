-- ===== src/Jobs.antt =====
-- The jobs on instances, src/cmd/instance_utility.go: what the consumer does with one delivery.
pub mod Answers
mod Crashes
pub mod Requests
pub mod Retries
pub mod Quiet
pub mod Broker
mod Steps
unfoldable pub use Steps.*
use kws.Prelude.{ℕ, ◌+◌, Bool, true, false, Text, text_eq, List, [], ◌∷◌, not, ◌==◌, if◌then◌else◌}
use kws.Prelude.Int.{ℤ}
use kws.World.{
  World, WebInstance, DomainRow, Message, acked, nacked, Error, container_already_exists,
  container_already_running, container_start_failed, container_not_found_to_stop,
  container_not_found_to_delete, nil_dereference, deploy_action, stop_action, kill_action, M,
  Result, ok, err, pure, raise, gets, modify, try, attempt, ⊤, ◌>>=◌, ◌>>◌, note, Services,
}
use kws.Address.{IpAllocator, generate_ip_lxc}
use kws.Names.{create_instance_type}
use kws.Instances
use kws.Domains.{get_user_domains, delete_user_domains}
use kws.Nginx.{remove_conf, reload_nginx_conf}
use kws.Results.{put_deploy_result, put_stop_result, put_kill_result}
use kws.Lxd
use kws.Lxd.{instance_start, instance_stop}

-- The map of counters, with one key set.
pub set_retries : Text → ℕ → (Text → ℕ) → Text → ℕ
set_retries job n retries j = if text_eq j job then n else retries j

module _ (s : Services) (a : IpAllocator) where
  -- delete(retries, jobID).
  abbrev forget : Text → M s.Memory ⊤
  forget job = modify (λ w. record w { retries = set_retries job 0 w.retries })

  unfoldable pub report_deploy : Message → M s.Memory ⊤
  unfolding set_retries
  report_deploy m = do
    ip ← Instances.get_ip_from_uid s m.user_id
    _ ← attempt (
        put_deploy_result s m.job_id (record {
          container_id = container_of m;
          success = true;
          username = m.ins_user;
          password = m.ins_password;
          ip = generate_ip_lxc ip;
        }))
    forget m.job_id

  unfoldable pub report_stop : Message → M s.Memory ⊤
  unfolding set_retries
  report_stop m = do _ ← attempt (put_stop_result s true m.job_id); forget m.job_id

  unfoldable pub remove_confs : List DomainRow → M s.Memory ⊤
  remove_confs [] = pure tt
  remove_confs (d ∷ ds) = do _ ← attempt (remove_conf s d.domain_name); remove_confs ds

  -- `*domains`, where the query failed, is the nil pointer's.
  unfoldable pub dereference : Result (List DomainRow) → M s.Memory (List DomainRow)
  dereference (ok ds) = pure ds
  dereference (err e) = raise nil_dereference

  unfoldable pub report_killed : Message → M s.Memory ⊤
  unfolding set_retries
  report_killed m = do _ ← attempt (put_kill_result s true m.job_id); forget m.job_id

  unfoldable pub finish_clean_up : Message → M s.Memory ⊤
  unfolding report_killed
  finish_clean_up m = do
    _ ← attempt (reload_nginx_conf s)
    _ ← attempt (delete_user_domains s m.user_id)
    report_killed m

  unfoldable pub clean_up : Message → List DomainRow → M s.Memory ⊤
  unfolding finish_clean_up remove_confs
  clean_up m domains = do remove_confs domains; finish_clean_up m

  unfoldable pub report_kill : Message → M s.Memory ⊤
  unfolding clean_up dereference
  report_kill m = do
    asked ← try (get_user_domains s m.user_id)
    domains ← dereference asked
    clean_up m domains

  -- The answer to the delivery, and what follows an acknowledgement.
  unfoldable pub answer : M s.Memory ⊤ → Work → M s.Memory ⊤
  answer report retried = note nacked
  answer report finished = do note acked; report

  unfoldable pub deploy : Message → M s.Memory ⊤
  unfolding deploy_work report_deploy answer
  deploy m = do work ← deploy_work s a m; answer (report_deploy m) work

  unfoldable pub stop : Message → M s.Memory ⊤
  unfolding stop_work report_stop answer
  stop m = do work ← stop_work s a m; answer (report_stop m) work

  unfoldable pub kill : Message → M s.Memory ⊤
  unfolding kill_work report_kill answer
  kill m = do work ← kill_work s a m; answer (report_kill m) work

  -- The failure that a job's third retry has put into Redis.
  unfoldable pub put_failure : Message → M s.Memory ⊤
  put_failure m =
      if text_eq m.action deploy_action
      then put_deploy_result s m.job_id
          (record { container_id = []; success = false; username = []; password = []; ip = [] })
      else if text_eq m.action stop_action
      then put_stop_result s false m.job_id
      else if text_eq m.action kill_action
      then put_kill_result s false m.job_id
      else pure tt

  unfoldable pub give_up : Message → M s.Memory ⊤
  unfolding put_failure set_retries
  give_up m = do note acked; _ ← attempt (put_failure m); forget m.job_id

  -- An action of another name is left without an answer.
  unfoldable pub dispatch : Message → M s.Memory ⊤
  unfolding deploy stop kill
  dispatch m =
      if text_eq m.action deploy_action
      then deploy m
      else if text_eq m.action stop_action
      then stop m
      else if text_eq m.action kill_action
      then kill m
      else pure tt

  -- One round of the consumer's loop, with the goroutine it starts run to its end.
  unfoldable pub consume : Message → M s.Memory ⊤
  unfolding give_up dispatch set_retries
  consume m = do
    count ← gets (λ w. w.retries m.job_id)
    elim (count == 3) [
      | true ↦ give_up m
      | false ↦ do
        modify (λ w. record w { retries = set_retries m.job_id (count + 1) w.retries })
        dispatch m
    ]
