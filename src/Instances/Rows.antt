-- ===== src/Instances/Rows.antt =====
-- The rows of the table instance: one of a user, and what the operations do to it.
use kws.Prelude.{
  count-append, ℕ, ◌≤◌, ◌≡◌, ◌≢◌, refl, Bool, true, false, Text, text_eq, List, [], ◌∷◌, ◌++◌, some,
  arith, count, select, exists, update, not, ◌||◌, ◌==◌,
}
use kws.World.{World, InstanceRow, container_start_failed, Result, ok, err, ⊤, Services}
use kws.Names.{create_instance_type}
use kws.Instances.{of_user, first_running, create_instance, start_instance, remove_instance}

abbrev pub row : ℕ → Text → Text → Text → InstanceRow
row uid user_name ins_user ins_password = record {
  user_id = uid;
  volume_name = (create_instance_type uid user_name).volume_name;
  container_name = (create_instance_type uid user_name).container_name;
  is_running = true;
  ins_user = ins_user;
  ins_password = ins_password;
}

first_row_counts :
    (uid : ℕ) (b : Bool) (rs : List InstanceRow)
    → first_running (select (of_user uid) rs) ≡ some b
    → (count (of_user uid) rs == 0) ≡ false
first_row_counts uid b [] e = cc
first_row_counts uid b (r ∷ rs) e = ground (arith, first_row_counts uid b rs)

no_row_counts :
    (uid : ℕ) (rs : List InstanceRow) → exists (of_user uid) rs ≡ false → count (of_user uid) rs ≡ 0
no_row_counts uid [] e = refl
no_row_counts uid (r ∷ rs) e = ground (arith, no_row_counts uid rs)

pub exists-or :
    (p q : InstanceRow → Bool) (rs : List InstanceRow)
    → exists (λ r. p r || q r) rs ≡ false
    → exists p rs ≡ false
exists-or p q [] e = refl
exists-or p q (r ∷ rs) e = ground (arith, exists-or p q rs)

count_removed :
    (p : InstanceRow → Bool) (rs : List InstanceRow) → count p (select (λ r. not (p r)) rs) ≡ 0
count_removed p [] = refl
count_removed p (r ∷ rs) = ground (arith, count_removed p rs)

module _ (s : Services) where
  -- A row is added, for a user who had none; or the table stays.
  abbrev pub Created : ℕ → Text → Text → Text → World s.Memory → Result ⊤ × World s.Memory → Type 0
  Created uid u i p w (ok _, v) =
      (v.instances ≡ w.instances ++ row uid u i p ∷ []) × (count (of_user uid) w.instances ≡ 0)
  Created uid u i p w (err e, v) = v.instances ≡ w.instances

  create_instance-Created :
      (uid : ℕ) (u i p : Text) (w : World s.Memory)
      → Created uid u i p w (create_instance s uid u i p w)
  unfolding create_instance
  create_instance-Created uid u i p w = grind (
    arith,
    exists-or (of_user uid)
        (λ r.
          text_eq r.volume_name (create_instance_type uid u).volume_name
          || text_eq r.container_name (create_instance_type uid u).container_name)
        w.instances,
    no_row_counts uid w.instances,
  )

  Created-once :
      (uid k : ℕ) (u i p : Text) (w : World s.Memory) (r : Result ⊤ × World s.Memory)
      → Created uid u i p w r
      → count (of_user k) w.instances ≤ 1
      → count (of_user k) r.1.instances ≤ 1
  Created-once uid k u i p w (ok _, v) (grown, none_yet) h =
      rw grown (ground (arith, none_yet, count-append (of_user k) w.instances (row uid u i p ∷ [])))
  Created-once uid k u i p w (err e, v) same h = rw same h

  -- If a user has at most one row in instance, so it is after CreateInstance for that or any
  -- other user.
  pub create_instance-once :
      (uid k : ℕ) (u i p : Text) (w : World s.Memory)
      → count (of_user k) w.instances ≤ 1
      → count (of_user k) (create_instance s uid u i p w).1.instances ≤ 1
  create_instance-once uid k u i p w =
      Created-once uid k u i p w _ (create_instance-Created uid u i p w)

  -- The outcomes of StartInstance: the rows of the user set to running, or the table as it was.
  abbrev pub Started : ℕ → World s.Memory → Result ⊤ × World s.Memory → Type 0
  Started uid w (ok _, v) =
      (first_running (select (of_user uid) w.instances) ≡ some false)
      × (v.instances ≡ update (of_user uid) (λ r. record r { is_running = true }) w.instances)
  Started uid w (err e, v) = (v.instances ≡ w.instances) × (e ≢ container_start_failed)

  -- StartInstance succeeds only if the user's first row says that the instance does not run, and
  -- then sets the user's rows to running. Every error leaves the table, and none is
  -- CONTAINER_START_FAILED.
  pub start_instance-Started :
      (uid : ℕ) (w : World s.Memory) → Started uid w (start_instance s uid w)
  unfolding start_instance
  start_instance-Started uid w = grind (arith, first_row_counts uid false w.instances)

  -- The outcomes of RemoveInstance, by the number of the user's rows before and after it.
  abbrev pub RowRemoved : ℕ → World s.Memory → Result ⊤ × World s.Memory → Type 0
  RowRemoved uid w (ok _, v) =
      (count (of_user uid) v.instances ≡ 0) × ((count (of_user uid) w.instances == 0) ≡ false)
  RowRemoved uid w (err e, v) = count (of_user uid) v.instances ≡ count (of_user uid) w.instances

  -- If RemoveInstance succeeds, the user had a row and has none; if it fails, the number of the
  -- user's rows is as before.
  pub remove_instance-RowRemoved :
      (uid : ℕ) (w : World s.Memory) → RowRemoved uid w (remove_instance s uid w)
  unfolding remove_instance
  remove_instance-RowRemoved uid w = grind (arith, count_removed (of_user uid) w.instances)
