-- ===== src/Untouched/Failures.antt =====
-- The parts of a report that answer nothing: the files of a user's domains, and a failure.
use kws.Prelude.{refl, false, text_eq, List, [], ◌∷◌, if◌then◌else◌, arith}
use kws.World.{
  WebInstance, DomainRow, Message, deploy_action, stop_action, kill_action, M, attempt, ⊤, Services,
  pure,
}
use kws.Address.{IpAllocator}
use kws.Nginx.{remove_conf}
use kws.Jobs.{remove_confs, put_failure}
use kws.Results.{put_deploy_result, put_stop_result, put_kill_result}
use kws.Untouched.Frame.{IsSame, chain, if-IsSame, attempt-IsSame}
use kws.Untouched.Stores.{
  remove_conf-IsSame, put_deploy_result-IsSame, put_stop_result-IsSame, put_kill_result-IsSame,
}

module _ (s : Services) (a : IpAllocator) where
  pub remove_confs-IsSame : (ds : List DomainRow) → IsSame s (remove_confs s a ds)
  unfolding remove_confs
  remove_confs-IsSame [] w = ground arith
  remove_confs-IsSame (d ∷ ds) w =
      chain s (attempt (remove_conf s d.domain_name)) (remove_confs s a ds)
        (attempt-IsSame s (remove_conf s d.domain_name) (remove_conf-IsSame s d.domain_name))
        (remove_confs-IsSame ds) w

  pub put_failure-IsSame : (m : Message) → IsSame s (put_failure s a m)
  unfolding put_failure
  put_failure-IsSame m =
      if-IsSame s (text_eq m.action deploy_action) (put_deploy_result s m.job_id no_result) stopped
        (put_deploy_result-IsSame s m.job_id no_result)
        (if-IsSame s (text_eq m.action stop_action) (put_stop_result s false m.job_id) killed
          (put_stop_result-IsSame s false m.job_id)
          (if-IsSame s (text_eq m.action kill_action) (put_kill_result s false m.job_id) (pure tt)
            (put_kill_result-IsSame s false m.job_id)
            (λ w. ((refl, refl, refl, refl), (refl, refl)))))
    where
      no_result : WebInstance
      no_result = record {
        container_id = [];
        success = false;
        username = [];
        password = [];
        ip = [];
      }

      killed : M s.Memory ⊤
      killed = if text_eq m.action kill_action then put_kill_result s false m.job_id else pure tt

      stopped : M s.Memory ⊤
      stopped = if text_eq m.action stop_action then put_stop_result s false m.job_id else killed
