-- ===== src/Results/Laws.antt =====
-- What is put is what is got, once.
use kws.Prelude.{◌≡◌, ap, ◌∙◌, Bool, true, false, Text, text_eq, none, some, arith, ℕ, ◌+◌}
use kws.World.{World, WebInstance, ok, Services, StringLaws}
use kws.Results.{
  put_deploy_result, get_deploy_result, put_stop_result, get_stop_result, deploy_key, stop_key,
  print_bool,
}

module _ (s : Services) (laws : StringLaws s) (w : World s.Memory) (job : Text) where
  put_stop_stores :
      (b : Bool)
      → s.fault w.tick ≡ none
      → put_stop_result s b job w ≡ (
        ok tt,
        record w { tick = w.tick + 1; redis = s.set w.redis (stop_key job) (print_bool b) },
      )
  unfolding put_stop_result
  put_stop_stores b f = ground arith

  get_stop_found :
      (b : Bool)
      → s.fault w.tick ≡ none
      → s.fault (w.tick + 1) ≡ none
      → s.get w.redis (stop_key job) ≡ some (print_bool b)
      → get_stop_result s job w ≡ (
        ok (true, b),
        record w { tick = w.tick + 1 + 1; redis = (s.del w.redis (stop_key job)).1 },
      )
  unfolding get_stop_result text_eq
  get_stop_found true f g e = ground arith
  get_stop_found false f g e = ground arith

  get_stop_none :
      s.fault w.tick ≡ none
      → s.get w.redis (stop_key job) ≡ none
      → (get_stop_result s job w).0 ≡ ok (false, false)
  unfolding get_stop_result
  get_stop_none f e = ground arith

  get_deploy_found :
      (i : WebInstance)
      → s.fault w.tick ≡ none
      → s.fault (w.tick + 1) ≡ none
      → s.get w.redis (deploy_key job) ≡ some (s.marshal i)
      → get_deploy_result s job w ≡ (
        ok (true, some i),
        record w { tick = w.tick + 1 + 1; redis = (s.del w.redis (deploy_key job)).1 },
      )
  unfolding get_deploy_result
  get_deploy_found i f g e = grind (arith, laws.unmarshal-marshal i)

  get_deploy_none :
      s.fault w.tick ≡ none
      → s.get w.redis (deploy_key job) ≡ none
      → (get_deploy_result s job w).0 ≡ ok (false, none)
  unfolding get_deploy_result
  get_deploy_none f e = ground arith

  put_deploy_stores :
      (i : WebInstance)
      → s.fault w.tick ≡ none
      → put_deploy_result s job i w ≡ (
        ok tt,
        record w { tick = w.tick + 1; redis = s.set w.redis (deploy_key job) (s.marshal i) },
      )
  unfolding put_deploy_result
  put_deploy_stores i f = ground arith

module _ (s : Services) (laws : StringLaws s) (calm : (n : ℕ) → s.fault n ≡ none) where
  -- If no call of a service fails, a deployment's result that was put is got whole, and a second
  -- query finds nothing.
  pub get_deploy_result-put_deploy_result :
      (w : World s.Memory) (job : Text) (i : WebInstance)
      → let v = (put_deploy_result s job i w).1 in
        ((get_deploy_result s job v).0 ≡ ok (true, some i))
        × ((get_deploy_result s job (get_deploy_result s job v).1).0 ≡ ok (false, none))
  get_deploy_result-put_deploy_result w job i =
      let p = put_deploy_stores s laws w job i (calm _) in
      let q =
        ap (λ r. get_deploy_result s job r.1) p
        ∙ get_deploy_found s laws stored job i (calm _) (calm _)
            (laws.get-set w.redis (deploy_key job) (s.marshal i)) in
      (
        ap (λ r. r.0) q,
        ap (λ r. (get_deploy_result s job r.1).0) q
            ∙ get_deploy_none s laws _ job (calm _) (laws.get-del stored.redis (deploy_key job)),
      )
    where
      stored : World s.Memory
      stored = record w { tick = w.tick + 1; redis = s.set w.redis (deploy_key job) (s.marshal i) }

  -- If no call of a service fails, the flag of a stop that was put is got, and a second query
  -- finds nothing.
  pub get_stop_result-put_stop_result :
      (w : World s.Memory) (job : Text) (b : Bool)
      → let v = (put_stop_result s b job w).1 in
        ((get_stop_result s job v).0 ≡ ok (true, b))
        × ((get_stop_result s job (get_stop_result s job v).1).0 ≡ ok (false, false))
  get_stop_result-put_stop_result w job b =
      let p = put_stop_stores s laws w job b (calm _) in
      let q =
        ap (λ r. get_stop_result s job r.1) p
        ∙ get_stop_found s laws stored job b (calm _) (calm _)
            (laws.get-set w.redis (stop_key job) (print_bool b)) in
      (
        ap (λ r. r.0) q,
        ap (λ r. (get_stop_result s job r.1).0) q
            ∙ get_stop_none s laws _ job (calm _) (laws.get-del stored.redis (stop_key job)),
      )
    where
      stored : World s.Memory
      stored = record w { tick = w.tick + 1; redis = s.set w.redis (stop_key job) (print_bool b) }
