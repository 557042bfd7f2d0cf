-- ===== src/Results.antt =====
-- The results of jobs in Redis: `PutDeployResult` and its fellows, src/internal/store/redis.go.
pub mod Laws
use kws.Prelude.{Bool, true, false, Text, text_eq, codes, ◌++◌, Option, none, some, if◌then◌else◌}
use kws.World.{
  World, WebInstance, Error, malformed, M, Result, ok, err, pure, raise, gets, modify, ⊤, ◌>>=◌,
  ◌>>◌, Services, call,
}

abbrev pub deploy_key : Text → Text
deploy_key job = codes "deploy:result:" ++ job

abbrev pub stop_key : Text → Text
stop_key job = codes "stop:result:" ++ job

abbrev pub kill_key : Text → Text
kill_key job = codes "kill:result:" ++ job

-- `%v` of a bool.
abbrev pub print_bool : Bool → Text
print_bool true = codes "true"
print_bool false = codes "false"

module _ (s : Services) where
  put : Text → Text → M s.Memory ⊤
  unfolding call
  put key value = do call s; modify (λ w. record w { redis = s.set w.redis key value })

  -- GET; `none` is `redis.Nil`.
  fetch : Text → M s.Memory (Option Text)
  unfolding call
  fetch key = do call s; gets (λ w. s.get w.redis key)

  drop : Text → M s.Memory ⊤
  unfolding call
  drop key = do call s; modify (λ w. record w { redis = (s.del w.redis key).1 })

  unfoldable pub put_deploy_result : Text → WebInstance → M s.Memory ⊤
  unfolding put
  put_deploy_result job instance = put (deploy_key job) (s.marshal instance)

  parse : Text → M s.Memory WebInstance
  parse value = elim (s.unmarshal value) [ none ↦ raise malformed | some i ↦ pure i ]

  -- `done` and the instance.
  finish_deploy : Text → Option Text → M s.Memory (Bool × Option WebInstance)
  unfolding parse drop
  finish_deploy job none = pure (false, none)
  finish_deploy job (some value) = do
    instance ← parse value
    drop (deploy_key job)
    pure (true, some instance)

  unfoldable pub get_deploy_result : Text → M s.Memory (Bool × Option WebInstance)
  unfolding fetch finish_deploy
  get_deploy_result job = do value ← fetch (deploy_key job); finish_deploy job value

  -- `done` and `success`.
  finish_flag : Text → Option Text → M s.Memory (Bool × Bool)
  unfolding drop
  finish_flag key none = pure (false, false)
  finish_flag key (some value) = do drop key; pure (true, text_eq value (codes "true"))

  unfoldable pub put_stop_result : Bool → Text → M s.Memory ⊤
  unfolding put
  put_stop_result result job = put (stop_key job) (print_bool result)

  unfoldable pub get_stop_result : Text → M s.Memory (Bool × Bool)
  unfolding fetch finish_flag
  get_stop_result job = do value ← fetch (stop_key job); finish_flag (stop_key job) value

  unfoldable pub put_kill_result : Bool → Text → M s.Memory ⊤
  unfolding put
  put_kill_result result job = put (kill_key job) (print_bool result)

  unfoldable pub get_kill_result : Text → M s.Memory (Bool × Bool)
  unfolding fetch finish_flag
  get_kill_result job = do value ← fetch (kill_key job); finish_flag (kill_key job) value
