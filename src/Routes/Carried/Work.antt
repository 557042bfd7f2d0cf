-- ===== src/Routes/Carried/Work.antt =====
-- The deliveries of the queues.
use kws.Prelude.{
  count-select-le, ℕ, ◌≤◌, ◌≡◌, refl, ◌∙◌, Bool, true, false, not, Text, List, [], ◌∷◌, count,
  update, arith,
}
use kws.World.{World, InstanceRow, Message, M, Result, ok, err, attempt, ⊤, Services}
use kws.World.Frame.{Keeps, Keeps-bind, Keeps-attempt}
use kws.Address.{IpAllocator}
use kws.Instances
use kws.Instances.Rows.{create_instance-once}
use kws.Jobs.{
  container_of, recover, after_start, record_deploy, start_container, after_create, deploy_work,
  stop_work, kill_work,
}
use kws.Lxd
use kws.Untouched.{
  Same, lxd_create_instance-IsSame, update_instance_state-IsSame, delete_instance-IsSame,
  instance_exists-IsSame,
}

count_kept :
    (k uid : ℕ) (running : Bool) (rs : List InstanceRow)
    → count
        (Instances.of_user k)
        (update (Instances.of_user uid) (λ r. record r { is_running = running }) rs)
      ≡ count (Instances.of_user k) rs
count_kept k uid running [] = refl
count_kept k uid running (r ∷ rs) = ground (arith, count_kept k uid running rs)

module _ (s : Services) (k : ℕ) where
  -- All of these tables but the instances' own are as before, and the user has no second instance.
  abbrev pub Once : World s.Memory → World s.Memory → Type 0
  Once w v =
      (v.users ≡ w.users)
      × (v.peers ≡ w.peers)
      × (v.pg_users ≡ w.pg_users)
      × (count (Instances.of_user k) w.instances ≤ 1 → count (Instances.of_user k) v.instances ≤ 1)

  Once-trans : (u v w : World s.Memory) → Once u v → Once v w → Once u w
  Once-trans u v w (a, b, c, d) (e, f, g, h) = (e ∙ a, f ∙ b, g ∙ c, λ x. h (d x))

  Same-Once : (w v : World s.Memory) → Same s w v → Once w v
  Same-Once w v ((users, peers, roles, instances), quiet) =
      (users, peers, roles, λ h. rw instances h)

  Keeps-Once : {A : Type 0} (m : M s.Memory A) → Keeps (Same s) m → Keeps Once m
  Keeps-Once m h w = Same-Once w (m w).1 (h w)

  create_instance-Once :
      (uid : ℕ) (u i p : Text) → Keeps Once (Instances.create_instance s uid u i p)
  unfolding Instances.create_instance
  create_instance-Once uid u i p w =
      (ground arith, ground arith, ground arith, create_instance-once s uid k u i p w)

  start_instance-Once : (uid : ℕ) → Keeps Once (Instances.start_instance s uid)
  unfolding Instances.start_instance
  start_instance-Once uid w = ground (arith, count_kept k uid true w.instances)

  stop_instance-Once : (uid : ℕ) → Keeps Once (Instances.stop_instance s uid)
  unfolding Instances.stop_instance
  stop_instance-Once uid w = ground (arith, count_kept k uid false w.instances)

  remove_instance-Once : (uid : ℕ) → Keeps Once (Instances.remove_instance s uid)
  unfolding Instances.remove_instance
  remove_instance-Once uid w = ground (
    arith,
    count-select-le (Instances.of_user k) (λ r. not (Instances.of_user uid r)) w.instances,
  )

  module _ (a : IpAllocator) where
    pub stop_work-Once : (m : Message) → Keeps Once (stop_work s a m)
    unfolding stop_work
    stop_work-Once m w = grind (arith, update_instance_state-IsSame s, stop_instance-Once)

    pub kill_work-Once : (m : Message) → Keeps Once (kill_work s a m)
    unfolding kill_work
    kill_work-Once m w = grind (arith, delete_instance-IsSame s, remove_instance-Once)

    recover-Once : (m : Message) → Keeps Once (recover s a m)
    unfolding recover
    recover-Once m w = grind (arith, create_instance-Once, start_instance-Once)

    after_start-Once : (m : Message) (r : Result ⊤) → Keeps Once (after_start s a m r)
    unfolding after_start
    after_start-Once m (ok _) w = ground arith
    after_start-Once m (err e) w = grind (arith, recover-Once)

    record_deploy-Once : (m : Message) (b : Bool) → Keeps Once (record_deploy s a m b)
    unfolding record_deploy
    record_deploy-Once m false w = grind (arith, create_instance-Once)
    record_deploy-Once m true w =
        Keeps-bind Once Once-trans (attempt (Instances.start_instance s m.user_id))
          (after_start s a m)
          (Keeps-attempt Once Once-trans (Instances.start_instance s m.user_id)
            (start_instance-Once m.user_id))
          (after_start-Once m) w

    start_container-Once : (m : Message) (b : Bool) → Keeps Once (start_container s a m b)
    unfolding start_container
    start_container-Once m b w =
        grind (arith, instance_exists-IsSame s, update_instance_state-IsSame s, record_deploy-Once)

    after_create-Once : (m : Message) (r : Result ⊤) → Keeps Once (after_create s a m r)
    unfolding after_create
    after_create-Once m (ok _) w = start_container-Once m false w
    after_create-Once m (err e) w = grind (arith, start_container-Once)

    pub deploy_work-Once : (m : Message) → Keeps Once (deploy_work s a m)
    unfolding deploy_work
    deploy_work-Once m =
        Keeps-bind Once Once-trans (attempt (Lxd.create_instance s a (container_of m) m.user_id))
          (after_create s a m)
          (Keeps-attempt Once Once-trans (Lxd.create_instance s a (container_of m) m.user_id) (
            Keeps-Once (Lxd.create_instance s a (container_of m) m.user_id)
              (lxd_create_instance-IsSame s a (container_of m) m.user_id)))
          (after_create-Once m)
