-- ===== src/MachineController/Finalizer.antt =====
-- The finalizer of a machine that is not being deleted.
use cluster_api_provider_lat.Base.{Bool, true, false, Option, none, some, ◌≡◌, ◌⊎◌, arith}
use cluster_api_provider_lat.Action.{Result, value, error}
use cluster_api_provider_lat.Api.{LatitudeMachine, Machine, has_key, is_deleted}
use cluster_api_provider_lat.Kube.{Kube, IsLawful}
use cluster_api_provider_lat.Latitude.{Server, ClientInterface}
use cluster_api_provider_lat.Scope.{new_machine_scope, set_ready, set_provider_id}
use cluster_api_provider_lat.MachineController.Conditions.{set_machine_failed}
use cluster_api_provider_lat.MachineController.Lookup.{validate_machine_spec}
use cluster_api_provider_lat.MachineController.Server.{Machines, reconcile_server}
use cluster_api_provider_lat.MachineController.Frames.{
  but_ids_fields, but_conditions_fields, set_condition_frame,
}
use cluster_api_provider_lat.MachineController.Asking.{reconcile_server_frame}
use cluster_api_provider_lat.MachineController.Reconcile

module _ {W : Type 0} (kube : Kube W) (client : ClientInterface W) where
  provision_step_meta :
      (r : Result (Option Server)) (s : Machines W)
      → (Reconcile.provision_step kube client r s).1.object.meta ≡ s.object.meta
  unfolding Reconcile.provision_step Reconcile.provision_failed Reconcile.wait_for_provisioning
      Reconcile.mark_ready set_ready set_provider_id set_machine_failed
  provision_step_meta (error e) s = grind (arith, set_condition_frame, but_conditions_fields)
  provision_step_meta (value none) s = grind (arith, set_condition_frame, but_conditions_fields)
  provision_step_meta (value (some server)) s =
      grind (arith, set_condition_frame, but_conditions_fields)

  validated_meta :
      (before : LatitudeMachine) (machine : Machine) (s : Machines W)
      → (Reconcile.validated kube client before machine s).1.object.meta ≡ s.object.meta
  unfolding Reconcile.validated
  validated_meta before machine s =
      let t : Machines W = record s {
        outside = (validate_machine_spec kube s.object s.outside).1;
      } in
      let after = (reconcile_server kube client before machine t).1 in
      grind (
        arith,
        provision_step_meta,
        set_condition_frame,
        but_conditions_fields,
        but_ids_fields after.object t.object
            (reconcile_server_frame kube client before machine t).0,
      )

  with_owner_meta :
      (before : LatitudeMachine) (machine : Machine) (s : Machines W)
      → (Reconcile.with_owner kube client before machine s).1.object.meta ≡ s.object.meta
  unfolding Reconcile.with_owner Reconcile.blocked_by_control_plane Reconcile.fail_worker
      new_machine_scope set_machine_failed
  with_owner_meta before machine s =
      grind (arith, validated_meta, set_condition_frame, but_conditions_fields)

  find_owner_meta :
      (before : LatitudeMachine) (s : Machines W)
      → (Reconcile.find_owner kube client before s).1.object.meta ≡ s.object.meta
  unfolding Reconcile.find_owner
  find_owner_meta before s =
      let t : Machines W = record s {
        outside = (kube.get_owner_machine s.object.meta s.outside).1;
      } in
      grind (arith, λ (machine : Machine). with_owner_meta before machine t)

  -- If finalizers behave as controller-runtime documents, a machine that is neither paused nor
  -- being deleted has the finalizer after a run. And a run that finds no finalizer asks for
  -- nothing: it changes the machine in its finalizers alone.
  pub dispatch_has_finalizer :
      IsLawful kube
      → (before : LatitudeMachine) (s : Machines W) → is_deleted s.object.meta ≡ false
      → has_key "cluster.x-k8s.io/paused" s.object.meta.annotations ≡ false
      → let has_finalizer : LatitudeMachine → Bool =
          λ m. kube.contains_finalizer m.meta.finalizers Reconcile.finalizer_name in
        let s' = (Reconcile.dispatch kube client before s).1 in
        (has_finalizer s'.object ≡ true)
        × ((has_finalizer s.object ≡ true)
            ⊎ ((s'.trace ≡ s.trace)
                × (s'.object ≡ Reconcile.with_finalizers s'.object.meta.finalizers s.object)))
  unfolding Reconcile.dispatch Reconcile.reconcile_normal
  dispatch_has_finalizer lawful before s kept running = ground (
    arith,
    find_owner_meta before s,
    lawful.contains-add s.object.meta.finalizers Reconcile.finalizer_name,
  )
