-- ===== src/Instances/View.antt =====
-- The table instance as each user sees it: no machine, or one that runs or not.
use kws.Prelude.{
  ℕ, ◌≡◌, refl, sym, Bool, true, false, Text, text_eq, List, [], ◌∷◌, ◌++◌, Option, none, some, not,
  ◌||◌, ◌==◌, select, count, exists, update, arith, if◌then◌else◌,
}
use kws.World.{World, InstanceRow, M, Result, ok, err, ⊤, Services, call}
use kws.Names.{create_instance_type}
use kws.Instances.Rows.{exists-or, row}
use kws.Instances.{
  of_user, first_row, first_running, create_instance, start_instance, start_after, set_running,
  stop_instance, remove_instance,
}

pub record Machine : Type 0 where
  pub running : Bool
  pub ins_user : Text
  pub ins_password : Text

abbrev pub machine : InstanceRow → Machine
machine r = record { running = r.is_running; ins_user = r.ins_user; ins_password = r.ins_password }

abbrev pub seen : Option InstanceRow → Option Machine
seen none = none
seen (some r) = some (machine r)

-- The store's operations: the user, for a new row with the user's name and the values of the form.
pub data Operation : Type 0 where
  creates : ℕ → Text → Text → Text → Operation
  starts stops removes : ℕ → Operation

abbrev pub user_of : Operation → ℕ
user_of (creates uid n u p) = uid
user_of (starts uid) = uid
user_of (stops uid) = uid
user_of (removes uid) = uid

-- What an operation is meant to do to its user's machine; `none` where it must be refused.
abbrev pub effect : Operation → Option Machine → Option (Option Machine)
effect (creates uid n u p) none =
    some (some (record { running = true; ins_user = u; ins_password = p }))
effect (creates uid n u p) (some m) = none
effect (starts uid) none = none
effect (starts uid) (some m) = if m.running then none else some (some (record m { running = true }))
effect (stops uid) none = none
effect (stops uid) (some m) = some (some (record m { running = false }))
effect (removes uid) none = none
effect (removes uid) (some m) = some none

-- The same seen by any user.
abbrev pub effect_at : ℕ → Operation → Option Machine → Option (Option Machine)
effect_at j op m = if user_of op == j then effect op m else some m

abbrev pub replay : ℕ → List Operation → Option Machine → Option (Option Machine)
replay j [] m = some m
replay j (op ∷ ops) m = elim (effect_at j op m) [ none ↦ none | some m' ↦ replay j ops m' ]

module _ {Memory : Type 0} where
  abbrev pub view : World Memory → ℕ → Option Machine
  view w j = seen (first_row (select (of_user j) w.instances))

module _ (s : Services) where
  abbrev pub operate : Operation → M s.Memory ⊤
  operate (creates uid n u p) = create_instance s uid n u p
  operate (starts uid) = start_instance s uid
  operate (stops uid) = stop_instance s uid
  operate (removes uid) = remove_instance s uid

  abbrev pub Refines : ℕ → Operation → World s.Memory → Result ⊤ × World s.Memory → Type 0
  Refines j op w (ok _, v) = effect_at j op (view w j) ≡ some (view v j)
  Refines j op w (err e, v) = view v j ≡ view w j

select_append :
    (j : ℕ) (r : InstanceRow) (rs : List InstanceRow)
    → exists (of_user (r.user_id)) rs ≡ false
    → first_row (select (of_user j) (rs ++ r ∷ []))
      ≡ (if r.user_id == j then some r else first_row (select (of_user j) rs))
select_append j r [] h = ground arith
select_append j r (q ∷ rs) h = ground (arith, select_append j r rs)

exists_first :
    (j : ℕ) (rs : List InstanceRow)
    → exists (of_user j) rs ≡ false
    → first_row (select (of_user j) rs) ≡ none
exists_first j [] h = refl
exists_first j (q ∷ rs) h = ground (arith, exists_first j rs)

select-update :
    (j uid : ℕ) (b : Bool) (rs : List InstanceRow)
    → seen (
        first_row (select (of_user j) (update (of_user uid) (λ r. record r { is_running = b }) rs)))
      ≡ (if uid == j
          then seen (elim (first_row (select (of_user j) rs)) [
            | none ↦ none
            | some r ↦ some (record r { is_running = b })
          ])
          else seen (first_row (select (of_user j) rs)))
select-update j uid b [] = ground arith
select-update j uid b (q ∷ rs) = ground (arith, select-update j uid b rs)

select_removed :
    (j uid : ℕ) (rs : List InstanceRow)
    → first_row (select (of_user j) (select (λ r. not (of_user uid r)) rs))
      ≡ (if uid == j then none else first_row (select (of_user j) rs))
select_removed j uid [] = ground arith
select_removed j uid (q ∷ rs) = ground (arith, select_removed j uid rs)

abbrev is_none : Option InstanceRow → Bool
is_none none = true
is_none (some r) = false

count_first :
    (j : ℕ) (rs : List InstanceRow)
    → (count (of_user j) rs == 0) ≡ is_none (first_row (select (of_user j) rs))
count_first j [] = refl
count_first j (q ∷ rs) = ground (arith, count_first j rs)

running_first :
    (j : ℕ) (rs : List InstanceRow)
    → first_running (select (of_user j) rs)
      ≡ (elim (first_row (select (of_user j) rs)) [ none ↦ none | some r ↦ some r.is_running ])
running_first j [] = refl
running_first j (q ∷ rs) = ground (arith, running_first j rs)

module _ (s : Services) (j uid : ℕ) (w : World s.Memory) where
  stop_instance-Refines : Refines s j (stops uid) w (stop_instance s uid w)
  unfolding stop_instance set_running call
  stop_instance-Refines =
      ground (arith, select-update j uid false w.instances, count_first uid w.instances)

  remove_instance-Refines : Refines s j (removes uid) w (remove_instance s uid w)
  unfolding remove_instance call
  remove_instance-Refines =
      ground (arith, select_removed j uid w.instances, count_first uid w.instances)

  start_instance-Refines : Refines s j (starts uid) w (start_instance s uid w)
  unfolding start_instance start_after set_running call
  start_instance-Refines = ground (
    arith,
    select-update j uid true w.instances,
    count_first uid w.instances,
    running_first uid w.instances,
  )

  -- No row of the user where the INSERT goes through.
  fresh_row :
      (v c : Text)
      → exists
          (λ r. r.user_id == uid || (text_eq r.volume_name v || text_eq r.container_name c))
          w.instances
        ≡ false
      → exists (of_user uid) w.instances ≡ false
  fresh_row v c =
      exists-or (of_user uid) (λ r. text_eq r.volume_name v || text_eq r.container_name c)
        w.instances

  create_instance-Refines :
      (n u p : Text) → Refines s j (creates uid n u p) w (create_instance s uid n u p w)
  unfolding create_instance call
  create_instance-Refines n u p = ground (
    arith,
    fresh_row (create_instance_type uid n).volume_name (create_instance_type uid n).container_name,
    select_append j (row uid n u p) w.instances,
    exists_first uid w.instances,
  )

module _ (s : Services) where
  operate-Refines :
      (j : ℕ) (op : Operation) (w : World s.Memory) → Refines s j op w (operate s op w)
  operate-Refines j (creates uid n u p) w = create_instance-Refines s j uid w n u p
  operate-Refines j (starts uid) w = start_instance-Refines s j uid w
  operate-Refines j (stops uid) w = stop_instance-Refines s j uid w
  operate-Refines j (removes uid) w = remove_instance-Refines s j uid w

  -- A history: the operations one after the other, and which of them went through.
  abbrev pub run : List Operation → World s.Memory → World s.Memory
  run [] w = w
  run (op ∷ ops) w = run ops (operate s op w).1

  abbrev pub is_ok : Result ⊤ → Bool
  is_ok (ok _) = true
  is_ok (err e) = false

  abbrev pub accepted : List Operation → World s.Memory → List Operation
  accepted [] w = []
  accepted (op ∷ ops) w =
      let rest = accepted ops (operate s op w).1 in
      if is_ok (operate s op w).0 then op ∷ rest else rest

  -- Whatever creations, starts, stops and removals of instances come one after the other, and
  -- whatever the calls of the services answer, each user sees a machine, or none, that has gone
  -- through exactly those that succeeded: none succeeded where it is not meant to, those that
  -- failed and those of other users changed nothing.
  pub run-Refines :
      (ops : List Operation) (j : ℕ) (w : World s.Memory)
      → replay j (accepted ops w) (view w j) ≡ some (view (run ops w) j)
  run-Refines [] j w = refl
  run-Refines (op ∷ ops) j w =
      by_result (operate s op w) (operate-Refines j op w) (run-Refines ops j (operate s op w).1)
    where
      by_result :
          (q : Result ⊤ × World s.Memory)
          → Refines s j op w q
          → replay j (accepted ops q.1) (view q.1 j) ≡ some (view (run ops q.1) j)
          → replay j (if is_ok q.0 then op ∷ accepted ops q.1 else accepted ops q.1) (view w j)
            ≡ some (view (run ops q.1) j)
      by_result (ok _, v) h ih = rw (replay, h) ih
      by_result (err e, v) h ih = rw (sym h) ih
