-- ===== src/Jobs/Requests.antt =====
-- What the consumer does with a delivery: its one answer, and the retry counters.
use kws.Prelude.{
  ℕ, ◌+◌, ◌≡◌, refl, ap, ◌∙◌, ◌⊎◌, inl, inr, Bool, true, false, Text, text_eq, ◌∷◌, select, arith,
  ◌==◌, if◌then◌else◌,
}
use kws.World.{
  World, Message, acked, nacked, M, Result, ok, err, is_crash, attempt, ⊤, Services, deploy_action,
  stop_action, kill_action,
}
use kws.World.Frame.{attempt-OnlyCrashes}
use kws.Address.{IpAllocator}
use kws.Jobs.{set_retries, give_up, dispatch, consume, put_failure}
use kws.Untouched.{is_answer, attempt-IsSame, put_failure-IsSame}
use kws.Jobs.Answers.{
  Reported, after_quiet, Answered, deploy-Answered, stop-Answered, kill-Answered,
}

module _ (s : Services) (a : IpAllocator) where
  -- One of the three actions.
  abbrev pub IsAction : Text → Type 0
  IsAction t = (t ≡ deploy_action) ⊎ ((t ≡ stop_action) ⊎ (t ≡ kill_action))

  dispatch-Answered :
      (m : Message) (w : World s.Memory) → IsAction m.action → Answered s a m w (dispatch s a m w)
  unfolding dispatch text_eq
  dispatch-Answered m w (inl e) = rw e (deploy-Answered s a m w)
  dispatch-Answered m w (inr (inl e)) = rw e (stop-Answered s a m w)
  dispatch-Answered m w (inr (inr e)) = rw e (kill-Answered s a m w)

  give_up-Reported :
      (m : Message) (w : World s.Memory)
      → Reported s a m (record w { log = acked ∷ w.log }) (give_up s a m w)
  unfolding give_up
  give_up-Reported m w =
      after_quiet s a m (attempt (put_failure s a m))
        (λ _ v. (ok tt, record v { retries = set_retries m.job_id 0 v.retries }))
        (attempt-IsSame s (put_failure s a m) (put_failure-IsSame s a m))
        (attempt-OnlyCrashes (put_failure s a m)) (λ _ v. (refl, refl))
        (record w { log = acked ∷ w.log })

  -- The outcomes of a delivery: one answer more, and what it goes with in the retry counters; or a
  -- crash.
  abbrev pub Settled : Message → World s.Memory → Result ⊤ × World s.Memory → Type 0
  Settled m w (ok _, v) =
      ((select is_answer v.log ≡ acked ∷ select is_answer w.log)
        × ((j : Text) → v.retries j ≡ (if text_eq j m.job_id then 0 else w.retries j)))
      ⊎ ((select is_answer v.log ≡ nacked ∷ select is_answer w.log)
          × ((w.retries m.job_id == 3) ≡ false)
          × ((j : Text)
              → v.retries j ≡ (if text_eq j m.job_id then w.retries m.job_id + 1 else w.retries j)))
  Settled m w (err e, v) = is_crash e ≡ true

  reset_then :
      (m : Message) (n : ℕ) (w v : World s.Memory) (r : Text → ℕ)
      → r ≡ set_retries m.job_id n w.retries
      → v.retries ≡ set_retries m.job_id 0 r
      → (j : Text) → v.retries j ≡ (if text_eq j m.job_id then 0 else w.retries j)
  unfolding set_retries
  reset_then m n w v r e h j = ap (λ f. f j) h ∙ rw e (ground arith)

  count_then :
      (m : Message) (n : ℕ) (w v : World s.Memory) (r : Text → ℕ)
      → r ≡ set_retries m.job_id n w.retries
      → v.retries ≡ r
      → (j : Text) → v.retries j ≡ (if text_eq j m.job_id then n else w.retries j)
  unfolding set_retries
  count_then m n w v r e h j = ap (λ f. f j) (h ∙ e)

  gave_up-Settled :
      (m : Message) (w : World s.Memory) (r : Result ⊤ × World s.Memory)
      → Reported s a m (record w { log = acked ∷ w.log }) r
      → Settled m w r
  unfolding set_retries
  gave_up-Settled m w (ok _, v) (log, e) = inl (log, (λ j. ap (λ f. f j) e))
  gave_up-Settled m w (err e, v) h = h

  counted : Message → World s.Memory → World s.Memory
  counted m w = record w { retries = set_retries m.job_id (w.retries m.job_id + 1) w.retries }

  dispatched-Settled :
      (m : Message) (w : World s.Memory) (r : Result ⊤ × World s.Memory)
      → (w.retries m.job_id == 3) ≡ false
      → Answered s a m (counted m w) r
      → Settled m w r
  unfolding counted
  dispatched-Settled m w (ok _, v) few (inl (log, e)) =
      inl (log, reset_then m (w.retries m.job_id + 1) w v _ refl e)
  dispatched-Settled m w (ok _, v) few (inr (log, e)) =
      inr (log, few, count_then m (w.retries m.job_id + 1) w v _ refl e)
  dispatched-Settled m w (err e, v) few h = h

  -- A delivery whose action is deploy, stop or kill gets exactly one answer, unless it crashes,
  -- that is, ends the process, panics or waits forever; it never ends with another error. With
  -- Ack, the retry counter of its job is reset; with Nack, the counter was not three and is one
  -- more. The counters of other jobs stay.
  pub consume-Settled :
      (m : Message) (w : World s.Memory) → IsAction m.action → Settled m w (consume s a m w)
  unfolding consume counted
  consume-Settled m w h = branch (w.retries m.job_id == 3) refl
    where
      branch :
          (b : Bool)
          → (w.retries m.job_id == 3) ≡ b
          → Settled m w (
              (elim b as (λ x. M s.Memory ⊤) [
                | true ↦ give_up s a m
                | false ↦ λ v.
                    dispatch s a m (record v {
                      retries = set_retries m.job_id (w.retries m.job_id + 1) v.retries;
                    })
              ])
                w)
      branch true e = gave_up-Settled m w _ (give_up-Reported m w)
      branch false e = dispatched-Settled m w _ e (dispatch-Answered m (counted m w) h)
