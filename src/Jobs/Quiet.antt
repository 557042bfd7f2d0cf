-- ===== src/Jobs/Quiet.antt =====
-- The operations on the rows of instances neither answer a delivery nor touch the retry counters.
use kws.Prelude.{ℕ, Text, arith}
use kws.World.{Services}
use kws.Instances
use kws.Untouched.{IsQuiet}

module _ (s : Services) where
  pub create_instance-IsQuiet :
      (uid : ℕ) (u i p : Text) → IsQuiet s (Instances.create_instance s uid u i p)
  unfolding Instances.create_instance
  create_instance-IsQuiet uid u i p w = ground arith

  pub start_instance-IsQuiet : (uid : ℕ) → IsQuiet s (Instances.start_instance s uid)
  unfolding Instances.start_instance
  start_instance-IsQuiet uid w = ground arith

  pub remove_instance-IsQuiet : (uid : ℕ) → IsQuiet s (Instances.remove_instance s uid)
  unfolding Instances.remove_instance
  remove_instance-IsQuiet uid w = ground arith

  pub stop_instance-IsQuiet : (uid : ℕ) → IsQuiet s (Instances.stop_instance s uid)
  unfolding Instances.stop_instance
  stop_instance-IsQuiet uid w = ground arith
