-- ===== src/MachineController/Consistency.antt =====
-- What the status of a machine says stays consistent over the runs of its controller.
use cluster_api_provider_lat.Base.{
  ap, sym, Option, String, ◌<>◌, none, some, ◌≡◌, ◌⊎◌, arith, false,
}
use mathlib.Core.Path.{subst}
use cluster_api_provider_lat.Action.{Result, value, error}
use cluster_api_provider_lat.Api.{LatitudeMachine, Machine}
use cluster_api_provider_lat.Kube.{Kube}
use cluster_api_provider_lat.Latitude.{Server, ClientInterface}
use cluster_api_provider_lat.Scope.{new_machine_scope, set_ready, set_provider_id}
use cluster_api_provider_lat.MachineController.Conditions.{set_condition, set_machine_failed}
use cluster_api_provider_lat.MachineController.Lookup.{validate_machine_spec}
use cluster_api_provider_lat.MachineController.Server.{Machines, reconcile_server}
use cluster_api_provider_lat.MachineController.Frames.{
  but_ids_fields, but_conditions_fields, set_condition_frame,
}
use cluster_api_provider_lat.MachineController.Asking.{reconcile_server_frame}
use cluster_api_provider_lat.MachineController.Reconcile

-- A ready machine has not failed, and both of its provider ids name its server.
abbrev pub IsConsistent : LatitudeMachine → Type 0
IsConsistent m =
    (m.status.ready ≡ false)
    ⊎ ((m.status.failure_reason ≡ none)
        × (m.status.provider_id ≡ "latitude://" <> m.status.server_id)
        × (m.spec.provider_id ≡ some m.status.provider_id))

module _ {W : Type 0} (kube : Kube W) (client : ClientInterface W) where
  set_condition-IsConsistent :
      (type status reason message : String) (s : Machines W)
      → IsConsistent s.object
      → IsConsistent (set_condition kube type status reason message s).1.object
  set_condition-IsConsistent type status reason message s h =
      let s' = (set_condition kube type status reason message s).1 in
      ground (
        arith,
        but_conditions_fields s'.object s.object
            (set_condition_frame kube type status reason message s).1,
      )

  provision_step-IsConsistent :
      (r : Result (Option Server)) (s : Machines W)
      → s.object.status.ready ≡ false
      → s.object.status.failure_reason ≡ none
      → IsConsistent (Reconcile.provision_step kube client r s).1.object
  unfolding Reconcile.provision_step Reconcile.provision_failed Reconcile.wait_for_provisioning
      Reconcile.mark_ready set_ready set_provider_id set_machine_failed
  provision_step-IsConsistent (error e) s h k = grind (arith, set_condition-IsConsistent)
  provision_step-IsConsistent (value none) s h k = grind (arith, set_condition-IsConsistent)
  provision_step-IsConsistent (value (some server)) s h k =
      grind (arith, set_condition-IsConsistent)

  validated-IsConsistent :
      (before : LatitudeMachine) (machine : Machine) (s : Machines W)
      → s.object.status.ready ≡ false
      → s.object.status.failure_reason ≡ none
      → IsConsistent (Reconcile.validated kube client before machine s).1.object
  unfolding Reconcile.validated
  validated-IsConsistent before machine s h k =
      let t : Machines W = record s {
        outside = (validate_machine_spec kube s.object s.outside).1;
      } in
      let after = (reconcile_server kube client before machine t).1 in
      grind (
        arith,
        provision_step-IsConsistent,
        set_condition-IsConsistent,
        but_ids_fields after.object t.object
            (reconcile_server_frame kube client before machine t).0,
      )

  with_owner-IsConsistent :
      (before : LatitudeMachine) (machine : Machine) (s : Machines W)
      → s.object.status.ready ≡ false
      → s.object.status.failure_reason ≡ none
      → IsConsistent (Reconcile.with_owner kube client before machine s).1.object
  unfolding Reconcile.with_owner Reconcile.blocked_by_control_plane Reconcile.fail_worker
      new_machine_scope set_machine_failed
  with_owner-IsConsistent before machine s h k =
      grind (arith, validated-IsConsistent, set_condition-IsConsistent)

  find_owner-IsConsistent :
      (before : LatitudeMachine) (s : Machines W)
      → s.object.status.ready ≡ false
      → s.object.status.failure_reason ≡ none
      → IsConsistent (Reconcile.find_owner kube client before s).1.object
  unfolding Reconcile.find_owner
  find_owner-IsConsistent before s h k =
      let t : Machines W = record s {
        outside = (kube.get_owner_machine s.object.meta s.outside).1;
      } in
      grind (arith, λ (machine : Machine). with_owner-IsConsistent before machine t h k)

  reconcile_normal-IsConsistent :
      (before : LatitudeMachine) (s : Machines W)
      → IsConsistent s.object
      → IsConsistent (Reconcile.reconcile_normal kube client before s).1.object
  unfolding Reconcile.reconcile_normal
  reconcile_normal-IsConsistent before s h = ground (arith, find_owner-IsConsistent before s)

  reconcile_delete-IsConsistent :
      (s : Machines W)
      → IsConsistent s.object
      → IsConsistent (Reconcile.reconcile_delete kube client s).1.object
  unfolding Reconcile.reconcile_delete Reconcile.finish_delete Reconcile.delete_failed
      Reconcile.delete_user_data
  reconcile_delete-IsConsistent s h = grind (arith, set_condition-IsConsistent)

  dispatch-IsConsistent :
      (before : LatitudeMachine) (s : Machines W)
      → IsConsistent s.object
      → IsConsistent (Reconcile.dispatch kube client before s).1.object
  unfolding Reconcile.dispatch
  dispatch-IsConsistent before s h =
      grind (arith, reconcile_normal-IsConsistent, reconcile_delete-IsConsistent)

  -- What may happen to a machine: its controller runs on it, in any state of the world, or somebody
  -- changes its metadata or its specification, but not its provider id or its status.
  pub data Step (m n : LatitudeMachine) : Type 0 where
    run :
        (before : LatitudeMachine) (s : Machines W)
        → s.object ≡ m
        → n ≡ (Reconcile.dispatch kube client before s).1.object
        → Step m n
    edit : n.status ≡ m.status → n.spec.provider_id ≡ m.spec.provider_id → Step m n

  pub data Reach (m : LatitudeMachine) : LatitudeMachine → Type 0 where
    here : Reach m m
    next : {n o : LatitudeMachine} → Reach m n → Step n o → Reach m o

  Step-IsConsistent : (m n : LatitudeMachine) → Step m n → IsConsistent m → IsConsistent n
  Step-IsConsistent m n (run before s e f) h =
      subst IsConsistent (sym f) (dispatch-IsConsistent before s (subst IsConsistent (sym e) h))
  Step-IsConsistent m n (edit e f) h = ground (
    arith,
    ap (λ t. t.ready) e,
    ap (λ t. t.failure_reason) e,
    ap (λ t. t.provider_id) e,
    ap (λ t. t.server_id) e,
  )

  -- Over any sequence of runs, and of edits that leave the status and the specification's provider id
  -- alone, from a machine whose status is consistent (a new one is not ready): a machine that is ready
  -- has no failure, and the provider ids of its status and of its specification are `latitude://` and
  -- the id of its recorded server.
  pub Reach-IsConsistent : {m n : LatitudeMachine} → IsConsistent m → Reach m n → IsConsistent n
  Reach-IsConsistent h here = h
  Reach-IsConsistent h (next r st) = Step-IsConsistent _ _ st (Reach-IsConsistent h r)
