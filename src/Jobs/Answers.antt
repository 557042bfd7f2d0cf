-- ===== src/Jobs/Answers.antt =====
-- How the work of a delivery is answered: once, and what it does to the retry counters.
use kws.Prelude.{true, ◌≡◌, refl, ap, ◌∙◌, ◌⊎◌, inr, List, ◌∷◌, select, arith}
use kws.World.{
  World, DomainRow, Message, acked, nacked, M, Result, ok, err, is_crash, try, attempt, ⊤, ◌>>=◌,
  Services,
}
use kws.Address.{IpAllocator}
use kws.Jobs.{
  Work, retried, finished, set_retries, deploy_work, stop_work, kill_work, report_deploy,
  report_stop, report_kill, answer, deploy, stop, kill, remove_confs, dereference, clean_up,
  finish_clean_up, report_killed,
}
use kws.Domains.{get_user_domains, delete_user_domains}
use kws.Nginx.{reload_nginx_conf}
use kws.Untouched.{
  is_answer, Quiet, IsSame, IsQuiet, quiet, attempt-IsSame, instance_exists-IsSame,
  get_ip_from_uid-IsSame, put_deploy_result-IsSame, put_stop_result-IsSame, put_kill_result-IsSame,
  get_user_domains-IsSame, delete_user_domains-IsSame, reload_nginx_conf-IsSame,
  update_instance_state-IsSame, delete_instance-IsSame, lxd_create_instance-IsSame,
  remove_confs-IsSame,
}
use kws.World.Frame.{Ended, OnlyCrashes, attempt-OnlyCrashes}
use kws.Jobs.Crashes.{
  deploy_work-OnlyCrashes, stop_work-OnlyCrashes, kill_work-OnlyCrashes, remove_confs-OnlyCrashes,
  dereference-OnlyCrashes, get_ip_from_uid-OnlyCrashes,
}
use kws.Jobs.Quiet.{
  create_instance-IsQuiet, start_instance-IsQuiet, remove_instance-IsQuiet, stop_instance-IsQuiet,
}

module _ (s : Services) (a : IpAllocator) where
  stop_work-IsQuiet : (m : Message) → IsQuiet s (stop_work s a m)
  unfolding stop_work
  stop_work-IsQuiet m w = grind (arith, update_instance_state-IsSame s, stop_instance-IsQuiet s)

  kill_work-IsQuiet : (m : Message) → IsQuiet s (kill_work s a m)
  unfolding kill_work
  kill_work-IsQuiet m w = grind (arith, delete_instance-IsSame s, remove_instance-IsQuiet s)

  deploy_work-IsQuiet : (m : Message) → IsQuiet s (deploy_work s a m)
  unfolding deploy_work
  deploy_work-IsQuiet m w = grind (
    arith,
    lxd_create_instance-IsSame s,
    instance_exists-IsSame s,
    update_instance_state-IsSame s,
    create_instance-IsQuiet s,
    start_instance-IsQuiet s,
  )

  -- A report answers nothing and resets the counter, unless it crashes.
  abbrev pub Reported : Message → World s.Memory → Result ⊤ × World s.Memory → Type 0
  Reported m w (ok _, v) =
      (select is_answer v.log ≡ select is_answer w.log)
      × (v.retries ≡ set_retries m.job_id 0 w.retries)
  Reported m w (err e, v) = is_crash e ≡ true

  report_stop-Reported : (m : Message) (w : World s.Memory) → Reported m w (report_stop s a m w)
  unfolding report_stop
  report_stop-Reported m w = grind (arith, put_stop_result-IsSame s)

  report_deploy-Reported : (m : Message) (w : World s.Memory) → Reported m w (report_deploy s a m w)
  unfolding report_deploy
  report_deploy-Reported m w = grind (
    arith,
    get_ip_from_uid-IsSame s,
    get_ip_from_uid-OnlyCrashes s a m.user_id w,
    put_deploy_result-IsSame s,
  )

  lift :
      (m : Message) (w v : World s.Memory) (r : Result ⊤ × World s.Memory)
      → Quiet s w v
      → Reported m v r
      → Reported m w r
  lift m w v (ok _, x) (same, log) (l, c) = (l ∙ log, c ∙ ap (set_retries m.job_id 0) same)
  lift m w v (err e, x) q h = h

  pub after_quiet :
      {A : Type 0} (m : Message) (q : M s.Memory A) (f : A → M s.Memory ⊤)
      → IsSame s q
      → OnlyCrashes q
      → ((x : A) (v : World s.Memory) → Reported m v (f x v))
      → (w : World s.Memory) → Reported m w ((q >>= f) w)
  after_quiet {A} m q f same ends then_reported w = by_result (q w) (quiet s q same w) (ends w)
    where
      by_result :
          (r : Result A × World s.Memory)
          → Quiet s w r.1
          → Ended (λ x v. ⊤) r
          → Reported m w (elim r.0 as (λ x. Result ⊤ × World s.Memory) [
            | ok x ↦ f x r.1
            | err e ↦ (err e, r.1)
          ])
      by_result (ok x, v) h _ = lift m w v (f x v) h (then_reported x v)
      by_result (err e, v) h crash = crash

  report_killed-Reported : (m : Message) (w : World s.Memory) → Reported m w (report_killed s a m w)
  unfolding report_killed
  report_killed-Reported m w = grind (arith, put_kill_result-IsSame s)

  -- What follows the removal of the files.
  finish_clean_up-Reported :
      (m : Message) (w : World s.Memory) → Reported m w (finish_clean_up s a m w)
  unfolding finish_clean_up
  finish_clean_up-Reported m =
      after_quiet m (attempt (reload_nginx_conf s))
        (λ _. attempt (delete_user_domains s m.user_id) >>= λ _. report_killed s a m)
        (attempt-IsSame s (reload_nginx_conf s) (reload_nginx_conf-IsSame s))
        (attempt-OnlyCrashes (reload_nginx_conf s))
        (λ _.
          after_quiet m (attempt (delete_user_domains s m.user_id)) (λ _. report_killed s a m)
            (attempt-IsSame s (delete_user_domains s m.user_id)
              (delete_user_domains-IsSame s m.user_id))
            (attempt-OnlyCrashes (delete_user_domains s m.user_id)) (λ _. report_killed-Reported m))

  clean_up-Reported :
      (m : Message) (ds : List DomainRow) (w : World s.Memory) → Reported m w (clean_up s a m ds w)
  unfolding clean_up
  clean_up-Reported m ds =
      after_quiet m (remove_confs s a ds) (λ _. finish_clean_up s a m) (remove_confs-IsSame s a ds)
        (remove_confs-OnlyCrashes s a ds) (λ _. finish_clean_up-Reported m)

  domains_known-IsSame : (asked : Result (List DomainRow)) → IsSame s (dereference s a asked)
  unfolding dereference
  domains_known-IsSame (ok ds) w = ((refl, refl, refl, refl), (refl, refl))
  domains_known-IsSame (err e) w = ((refl, refl, refl, refl), (refl, refl))

  report_kill-Reported : (m : Message) (w : World s.Memory) → Reported m w (report_kill s a m w)
  unfolding report_kill
  report_kill-Reported m =
      after_quiet m (try (get_user_domains s m.user_id))
        (λ asked. dereference s a asked >>= clean_up s a m) (get_user_domains-IsSame s m.user_id)
        (λ w. tt)
        (λ asked.
          after_quiet m (dereference s a asked) (clean_up s a m) (domains_known-IsSame asked)
            (dereference-OnlyCrashes s a asked) (clean_up-Reported m))

  -- One delivery, unless it crashes: acknowledged, and the counter of its job reset; or
  -- sent to the retry queue, and the counters as they are.
  abbrev pub Answered : Message → World s.Memory → Result ⊤ × World s.Memory → Type 0
  Answered m w (ok _, v) =
      ((select is_answer v.log ≡ acked ∷ select is_answer w.log)
        × (v.retries ≡ set_retries m.job_id 0 w.retries))
      ⊎ ((select is_answer v.log ≡ nacked ∷ select is_answer w.log) × (v.retries ≡ w.retries))
  Answered m w (err e, v) = is_crash e ≡ true

  answer-Answered :
      (m : Message) (report : M s.Memory ⊤) (work : Work) (u w : World s.Memory)
      → Quiet s u w
      → ((v : World s.Memory) → Reported m v (report v))
      → Answered m u (answer s a report work w)
  unfolding answer
  answer-Answered m report retried u w (same, log) h = inr (ap (◌∷◌ nacked) log, same)
  answer-Answered m report finished u w (same, log) h =
      grind (arith, h (record w { log = acked ∷ w.log }))

  -- A job's work, and then its answer.
  work-Answered :
      (m : Message) (q : M s.Memory Work) (report : M s.Memory ⊤)
      → IsQuiet s q
      → OnlyCrashes q
      → ((v : World s.Memory) → Reported m v (report v))
      → (w : World s.Memory) → Answered m w ((q >>= answer s a report) w)
  work-Answered m q report kept ends h w = by_result (q w) (kept w) (ends w)
    where
      by_result :
          (r : Result Work × World s.Memory)
          → Quiet s w r.1
          → Ended (λ x v. ⊤) r
          → Answered m w (elim r.0 as (λ x. Result ⊤ × World s.Memory) [
            | ok x ↦ answer s a report x r.1
            | err e ↦ (err e, r.1)
          ])
      by_result (ok x, v) k _ = answer-Answered m report x w v k h
      by_result (err e, v) k crash = crash

  pub deploy-Answered : (m : Message) (w : World s.Memory) → Answered m w (deploy s a m w)
  unfolding deploy
  deploy-Answered m =
      work-Answered m (deploy_work s a m) (report_deploy s a m) (deploy_work-IsQuiet m)
        (deploy_work-OnlyCrashes s a m) (report_deploy-Reported m)

  pub stop-Answered : (m : Message) (w : World s.Memory) → Answered m w (stop s a m w)
  unfolding stop
  stop-Answered m =
      work-Answered m (stop_work s a m) (report_stop s a m) (stop_work-IsQuiet m)
        (stop_work-OnlyCrashes s a m) (report_stop-Reported m)

  pub kill-Answered : (m : Message) (w : World s.Memory) → Answered m w (kill s a m w)
  unfolding kill
  kill-Answered m =
      work-Answered m (kill_work s a m) (report_kill s a m) (kill_work-IsQuiet m)
        (kill_work-OnlyCrashes s a m) (report_kill-Reported m)
