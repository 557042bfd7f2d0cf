-- ===== src/Routes/Carried/Deliveries.antt =====
-- The deliveries of the queue of instances.
use kws.Prelude.{ℕ, Bool, true, false, text_eq, ◌∷◌, ◌==◌, ◌+◌, if◌then◌else◌}
use kws.World.{
  World, Message, deploy_action, stop_action, kill_action, M, modify, ⊤, ◌>>=◌, ◌>>◌, Services,
  acked, pure,
}
use kws.World.Frame.{Keeps}
use kws.Address.{IpAllocator}
use kws.Jobs.{
  Work, retried, finished, set_retries, deploy_work, stop_work, kill_work, report_deploy,
  report_stop, report_kill, answer, deploy, stop, kill, give_up, dispatch, consume,
}
use kws.Untouched.{IsRows}
use kws.Routes.Tables.{report_deploy-IsRows, report_stop-IsRows, report_kill-IsRows, give_up-IsRows}
use kws.Routes.Carried.Base.{Carries, bind, kept}
use kws.Routes.Carried.Work.{Once, deploy_work-Once, stop_work-Once, kill_work-Once}

module _ (s : Services) (a : IpAllocator) (k : ℕ) where
  Once-Carries : (w v : World s.Memory) → Once s k w v → Carries s k w v
  Once-Carries w v (users, peers, roles, once) =
      (λ h. (rw peers h.0, rw roles h.1, once h.2), λ u h. rw users h)

  answer-Carries :
      (report : M s.Memory ⊤)
      → IsRows s report
      → (work : Work) → Keeps (Carries s k) (answer s a report work)
  unfolding answer
  answer-Carries report h retried w = (λ h. h, λ u h. h)
  answer-Carries report h finished w = kept s k report h (record w { log = acked ∷ w.log })

  -- A job's work, and its answer with the report.
  job-Carries :
      (work : M s.Memory Work) (report : M s.Memory ⊤)
      → Keeps (Once s k) work
      → IsRows s report
      → Keeps (Carries s k) (work >>= answer s a report)
  job-Carries work report once h =
      bind s k work (answer s a report) (λ w. Once-Carries w (work w).1 (once w))
        (answer-Carries report h)

  dispatch-Carries : (m : Message) → Keeps (Carries s k) (dispatch s a m)
  unfolding dispatch deploy stop kill
  dispatch-Carries m w =
      by_action (text_eq m.action deploy_action) (text_eq m.action stop_action)
        (text_eq m.action kill_action)
    where
      by_action :
          (d t l : Bool)
          → Carries s k w
              (if◌then◌else◌ {A = M s.Memory ⊤} d
                (deploy s a m)
                (if◌then◌else◌ {A = M s.Memory ⊤} t
                  (stop s a m)
                  (if◌then◌else◌ {A = M s.Memory ⊤} l (kill s a m) (pure tt)))
                w).1
      by_action true t l =
          job-Carries (deploy_work s a m) (report_deploy s a m) (deploy_work-Once s k a m)
            (report_deploy-IsRows s a m) w
      by_action false true l =
          job-Carries (stop_work s a m) (report_stop s a m) (stop_work-Once s k a m)
            (report_stop-IsRows s a m) w
      by_action false false true =
          job-Carries (kill_work s a m) (report_kill s a m) (kill_work-Once s k a m)
            (report_kill-IsRows s a m) w
      by_action false false false = (λ h. h, λ u h. h)

  pub consume-Carries : (m : Message) → Keeps (Carries s k) (consume s a m)
  unfolding consume
  consume-Carries m w = by_count (w.retries m.job_id == 3)
    where
      counted : World s.Memory
      counted = record w { retries = set_retries m.job_id (w.retries m.job_id + 1) w.retries }

      by_count :
          (b : Bool)
          → Carries s k w
              ((elim b as (λ x. M s.Memory ⊤) [
                | true ↦ give_up s a m
                | false ↦
                    modify (λ v. record v {
                      retries = set_retries m.job_id (w.retries m.job_id + 1) v.retries;
                    })
                    >> dispatch s a m
              ])
                w).1
      by_count true = kept s k (give_up s a m) (give_up-IsRows s a m) w
      by_count false = dispatch-Carries m counted
