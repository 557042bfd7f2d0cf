-- ===== src/Routes/Tables/Reports.antt =====
-- What follows a job of src/cmd/instance_utility.go leaves these tables alone.
use kws.Prelude.{refl, List, ◌∷◌, arith}
use kws.World.{
  DomainRow, Message, Result, ok, err, try, attempt, modify, ◌>>=◌, ◌>>◌, Services, acked,
}
use kws.Address.{IpAllocator}
use kws.Domains.{get_user_domains, delete_user_domains}
use kws.Nginx.{reload_nginx_conf}
use kws.Jobs.{
  set_retries, report_deploy, report_stop, report_kill, report_killed, remove_confs, dereference,
  finish_clean_up, clean_up, put_failure, give_up,
}
use kws.Untouched.{
  IsRows, rows, rows_bind, rows_then, get_user_domains-IsSame, delete_user_domains-IsSame,
  reload_nginx_conf-IsSame, get_ip_from_uid-IsSame, put_deploy_result-IsSame,
  put_stop_result-IsSame, put_kill_result-IsSame, remove_confs-IsSame, put_failure-IsSame,
}

module _ (s : Services) (a : IpAllocator) where
  pub report_deploy-IsRows : (m : Message) → IsRows s (report_deploy s a m)
  unfolding report_deploy
  report_deploy-IsRows m w = grind (arith, get_ip_from_uid-IsSame s, put_deploy_result-IsSame s)

  pub report_stop-IsRows : (m : Message) → IsRows s (report_stop s a m)
  unfolding report_stop
  report_stop-IsRows m w = grind (arith, put_stop_result-IsSame s)

  report_killed-IsRows : (m : Message) → IsRows s (report_killed s a m)
  unfolding report_killed
  report_killed-IsRows m w = grind (arith, put_kill_result-IsSame s)

  finish_clean_up-IsRows : (m : Message) → IsRows s (finish_clean_up s a m)
  unfolding finish_clean_up
  finish_clean_up-IsRows m =
      rows_then s (reload_nginx_conf s)
        (attempt (delete_user_domains s m.user_id) >> report_killed s a m)
        (reload_nginx_conf-IsSame s)
        (rows_then s (delete_user_domains s m.user_id) (report_killed s a m)
          (delete_user_domains-IsSame s m.user_id) (report_killed-IsRows m))

  clean_up-IsRows :
      (m : Message) (asked : Result (List DomainRow))
      → IsRows s (dereference s a asked >>= clean_up s a m)
  unfolding clean_up dereference
  clean_up-IsRows m (err e) w = ground arith
  clean_up-IsRows m (ok ds) w =
      rows_bind s (remove_confs s a ds) (λ _. finish_clean_up s a m)
        (rows s (remove_confs s a ds) (remove_confs-IsSame s a ds)) (λ _. finish_clean_up-IsRows m)
        w

  pub report_kill-IsRows : (m : Message) → IsRows s (report_kill s a m)
  unfolding report_kill
  report_kill-IsRows m =
      rows_bind s (try (get_user_domains s m.user_id))
        (λ asked. dereference s a asked >>= clean_up s a m)
        (rows s (try (get_user_domains s m.user_id)) (get_user_domains-IsSame s m.user_id))
        (clean_up-IsRows m)

  pub give_up-IsRows : (m : Message) → IsRows s (give_up s a m)
  unfolding give_up
  give_up-IsRows m w =
      rows_then s (put_failure s a m)
        (modify (λ v. record v { retries = set_retries m.job_id 0 v.retries }))
        (put_failure-IsSame s a m) (λ v. (refl, refl, refl, refl))
        (record w { log = acked ∷ w.log })
