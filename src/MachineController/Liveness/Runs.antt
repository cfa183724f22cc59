-- ===== src/MachineController/Liveness/Runs.antt =====
-- In a world that answers, a new machine gets ready in three runs.
use cluster_api_provider_lat.Base.{
  Bool, true, false, none, some, [], ◌∷◌, ◌≡◌, ◌⊎◌, ◌==◌, string_eq, arith, if◌then◌else◌,
}
use cluster_api_provider_lat.Action.{ok, is_ok, attempt, ◌>>=◌}
use cluster_api_provider_lat.Api.{NamespacedName, LatitudeMachine, has_key, is_deleted}
use cluster_api_provider_lat.Kube.{Kube, IsLawful}
use cluster_api_provider_lat.Latitude.{ClientInterface}
use cluster_api_provider_lat.World.{Call}
use cluster_api_provider_lat.Scope.{new_machine_scope, set_ready, set_provider_id}
use cluster_api_provider_lat.MachineController.Lookup.{
  validate_machine_spec, control_plane_label, check_control_plane_failed,
}
use cluster_api_provider_lat.MachineController.Server.{Machines, start_server, reconcile_server}
use cluster_api_provider_lat.MachineController.Frames.{
  but_ids_fields, but_conditions_fields, set_condition_frame, start_server_frame,
}
use cluster_api_provider_lat.MachineController.Reconcile
use cluster_api_provider_lat.MachineController.Liveness.{
  IsWilling, IsOwn, IsSpecified, check_control_plane_failed_clear, validate_machine_spec_passes,
}
use cluster_api_provider_lat.MachineController.Liveness.Provision.{start_server_makes, but_ids_spec}

-- A machine that is neither paused nor going, neither ready nor failed, and well specified.
abbrev pub IsActive : LatitudeMachine → Type 0
IsActive m =
    IsSpecified m
    × (has_key "cluster.x-k8s.io/paused" m.meta.annotations ≡ false)
    × (is_deleted m.meta ≡ false)
    × (m.status.ready ≡ false)
    × (m.status.failure_reason ≡ none)

abbrev pub is_finalized : {W : Type 0} → Kube W → LatitudeMachine → Bool
is_finalized kube m = kube.contains_finalizer m.meta.finalizers Reconcile.finalizer_name

abbrev pub start : {W : Type 0} → W → LatitudeMachine → Machines W
start w m = record { outside = w; object = m; trace = [] }

module _ {W : Type 0} (kube : Kube W) (client : ClientInterface W) where
  -- The machine after a run, as the next run reads it when the patch has succeeded.
  abbrev pub after_run : W → LatitudeMachine → LatitudeMachine
  after_run w m = (Reconcile.dispatch kube client m (start w m)).1.object

module _ {W : Type 0} (kube : Kube W) (client : ClientInterface W)
    (willing : IsWilling kube client) where
  -- The state in which a run of a worker has been checked.
  abbrev checked : Machines W → W
  checked s =
      if has_key control_plane_label willing.machine.meta.labels
      then s.outside
      else (check_control_plane_failed kube s.object s.outside).1

  blocked_by_control_plane_clear :
      (s : Machines W)
      → IsOwn kube client willing s.object
      → Reconcile.blocked_by_control_plane kube client willing.machine s
        ≡ (ok false, record s { outside = checked s })
  unfolding Reconcile.blocked_by_control_plane
  blocked_by_control_plane_clear s own =
      ground (arith, check_control_plane_failed_clear kube client willing s.object s.outside own)

  -- The state in which a run comes to the server, from that in which the owner is found.
  abbrev after_checks : Machines W → Machines W
  after_checks s =
      let t : Machines W = record s { outside = (kube.new_machine_helper s.object s.outside).1 } in
      record s { outside = (validate_machine_spec kube s.object (checked t)).1 }

  abbrev at_server : Machines W → Machines W
  at_server s =
      after_checks (record s { outside = (kube.get_owner_machine s.object.meta s.outside).1 })

  module _ (before : LatitudeMachine) where
    with_owner_reaches :
        (s : Machines W)
        → IsOwn kube client willing s.object
        → IsSpecified s.object
        → Reconcile.with_owner kube client before willing.machine s
          ≡ (attempt (reconcile_server kube client before willing.machine)
                >>= Reconcile.provision_step kube client)
              (after_checks s)
    unfolding Reconcile.with_owner Reconcile.validated new_machine_scope
    with_owner_reaches s own h =
        let t : Machines W = record s {
          outside = (kube.new_machine_helper s.object s.outside).1;
        } in
        ground (
          arith,
          willing.helper_made s.object s.outside,
          blocked_by_control_plane_clear t own,
          validate_machine_spec_passes kube client willing s.object (checked t) own h,
        )

    dispatch_reaches :
        (s : Machines W)
        → IsOwn kube client willing s.object
        → IsActive s.object
        → is_finalized kube s.object ≡ true
        → Reconcile.dispatch kube client before s
          ≡ (attempt (reconcile_server kube client before willing.machine)
                >>= Reconcile.provision_step kube client)
              (at_server s)
    unfolding Reconcile.dispatch Reconcile.reconcile_normal Reconcile.find_owner
    dispatch_reaches s own h k =
        let t : Machines W = record s {
          outside = (kube.get_owner_machine s.object.meta s.outside).1;
        } in
        ground
          (arith, willing.owner_found s.object.meta s.outside own, with_owner_reaches t own h.0)

    -- A run of a machine without a server makes one.
    run_creates :
        (s : Machines W)
        → IsOwn kube client willing s.object
        → IsActive s.object
        → is_finalized kube s.object ≡ true
        → (s.object.status.server_id == "") ≡ true
        → let s' = (Reconcile.dispatch kube client before s).1 in
          IsOwn kube client willing s'.object
          × IsActive s'.object
          × (is_finalized kube s'.object ≡ true)
          × ((s'.object.status.server_id == "") ≡ false)
    unfolding reconcile_server Reconcile.provision_step Reconcile.wait_for_provisioning
    run_creates s own h k unknown =
        let t = at_server s in
        let t' = (start_server kube client before willing.machine t).1 in
        rw (dispatch_reaches s own h k) (
          grind (
            arith,
            start_server_makes kube client willing before t own,
            start_server_frame kube client before willing.machine t,
            but_ids_fields t'.object t.object,
            but_ids_spec t'.object t.object,
            set_condition_frame,
            but_conditions_fields,
          ))

    -- A run of a machine with a server makes it ready.
    run_readies :
        (s : Machines W)
        → IsOwn kube client willing s.object
        → IsActive s.object
        → is_finalized kube s.object ≡ true
        → (s.object.status.server_id == "") ≡ false
        → let s' = (Reconcile.dispatch kube client before s).1 in
          (s'.object.status.ready ≡ true) × (s'.object.meta ≡ s.object.meta)
    unfolding reconcile_server Reconcile.provision_step Reconcile.mark_ready set_ready
        set_provider_id
    run_readies s own h k known = rw (dispatch_reaches s own h k) (
        grind (
          arith,
          willing.server_runs s.object.status.server_id (at_server s).outside,
          set_condition_frame,
          but_conditions_fields,
        ))

    run_adds_finalizer :
        (s : Machines W)
        → IsLawful kube
        → IsOwn kube client willing s.object
        → IsActive s.object
        → is_finalized kube s.object ≡ false
        → let s' = (Reconcile.dispatch kube client before s).1 in
          IsOwn kube client willing s'.object
          × IsActive s'.object
          × (is_finalized kube s'.object ≡ true)
          × (s'.object.status ≡ s.object.status)
    unfolding Reconcile.dispatch Reconcile.reconcile_normal
    run_adds_finalizer s lawful own h k =
        ground (arith, lawful.contains-add s.object.meta.finalizers Reconcile.finalizer_name)

  -- A run of a machine that is ready, has the finalizer and is not going does nothing.
  run_rests :
      (before : LatitudeMachine) (s : Machines W)
      → s.object.status.ready ≡ true
      → is_finalized kube s.object ≡ true
      → is_deleted s.object.meta ≡ false
      → Reconcile.dispatch kube client before s ≡ (ok (Reconcile.requeue 0), s)
  unfolding Reconcile.dispatch Reconcile.reconcile_normal
  run_rests before s h k kept = ground arith

  -- Three runs of a new machine: it is ready, and its metadata lets the next runs rest.
  pub three_runs :
      IsLawful kube
      → (m : LatitudeMachine) (w w' w'' : W) → IsOwn kube client willing m
      → IsActive m
      → is_finalized kube m ≡ false
      → (m.status.server_id == "") ≡ true
      → let o = after_run kube client w'' (after_run kube client w' (after_run kube client w m)) in
        (o.status.ready ≡ true)
        × (is_finalized kube o ≡ true)
        × (is_deleted o.meta ≡ false)
        × (has_key "cluster.x-k8s.io/paused" o.meta.annotations ≡ false)
  three_runs lawful m w w' w'' own active fresh unknown =
      let n = after_run kube client w m in
      let o = after_run kube client w' n in
      let (own', active', finalized, same) =
        run_adds_finalizer m (start w m) lawful own active fresh in
      let (own'', active'', finalized', known) =
        run_creates n (start w' n) own' active' finalized (rw same unknown) in
      let (is_ready, kept) = run_readies o (start w'' o) own'' active'' finalized' known in
      ground (arith, is_ready, kept, finalized', active'')

  -- In a world that answers every question about a machine, where finalizers behave as
  -- controller-runtime documents, and where patches in the middle of a run and attachments may fail:
  -- that machine, new, well specified, neither paused nor being deleted, and without a secret of
  -- keys, is ready after three runs, whatever happens outside between them, for a control plane or
  -- for a worker beside which no machine that is listed has failed. The first run adds the finalizer,
  -- the second makes a server, and the third finds that it runs.
  pub gets_ready :
      IsLawful kube
      → (m : LatitudeMachine) (w w' w'' : W) → IsOwn kube client willing m
      → IsActive m
      → is_finalized kube m ≡ false
      → (m.status.server_id == "") ≡ true
      → (after_run kube client w''
          (after_run kube client w' (after_run kube client w m))).status.ready
        ≡ true
  gets_ready lawful m w w' w'' own active fresh unknown =
      (three_runs lawful m w w' w'' own active fresh unknown).0

  -- A run that reads a machine that is ready, has the finalizer and is not going only patches it as
  -- it is.
  reconcile_rests :
      (req : NamespacedName) (v : W) (o : LatitudeMachine)
      → (kube.get_latitude_machine req v).0 ≡ ok o
      → o.status.ready ≡ true
      → is_finalized kube o ≡ true
      → is_deleted o.meta ≡ false
      → let w = (kube.new_machine_helper o (kube.get_latitude_machine req v).1).1 in
        let (p, w') = kube.patch_machine o o w in
        Reconcile.reconcile kube client req v ≡ (
          Reconcile.after_patch (ok (Reconcile.requeue 0)) p,
          record { outside = w'; object = some o; trace = Call.patch_machine o ∷ [] },
        )
  unfolding Reconcile.reconcile Reconcile.with_deferred_patch
  reconcile_rests req v o found h k kept =
      let w = (kube.get_latitude_machine req v).1 in
      ground (
        arith,
        willing.helper_made o w,
        run_rests o (start (kube.new_machine_helper o w).1 o) h k kept,
      )

  -- In a world that answers every question about a machine, and where that machine is new and gets
  -- ready in three runs (well specified, neither paused nor being deleted, without a secret of keys,
  -- and finalizers as controller-runtime documents them), the work on it ends: a fourth run that reads
  -- it as the third run left it, and so each run after it that does, in whatever world, leaves it as
  -- it is. All that such a run does beside the read and the patch helper is the last patch, of the
  -- unchanged machine, and if that succeeds it demands no other run.
  pub fourth_run_rests :
      IsLawful kube
      → (m : LatitudeMachine) (w w' w'' v : W) → IsOwn kube client willing m
      → IsActive m
      → is_finalized kube m ≡ false
      → (m.status.server_id == "") ≡ true
      → (req : NamespacedName)
      → (kube.get_latitude_machine req v).0
        ≡ ok (after_run kube client w'' (after_run kube client w' (after_run kube client w m)))
      → let o = after_run kube client w'' (after_run kube client w' (after_run kube client w m)) in
        let at_patch = (kube.new_machine_helper o (kube.get_latitude_machine req v).1).1 in
        let (p, end) = kube.patch_machine o o at_patch in
        let (r, s') = Reconcile.reconcile kube client req v in
        (s'.object ≡ some o)
        × (s'.trace ≡ Call.patch_machine o ∷ [])
        × (s'.outside ≡ end)
        × ((r ≡ ok (Reconcile.requeue 0)) ⊎ (is_ok p ≡ false))
  fourth_run_rests lawful m w w' w'' v own active fresh unknown req found =
      let o = after_run kube client w'' (after_run kube client w' (after_run kube client w m)) in
      let (is_ready, finalized, kept, _) = three_runs lawful m w w' w'' own active fresh unknown in
      ground (arith, reconcile_rests req v o found is_ready finalized kept)
