-- ===== src/MachineController/Lifecycle.antt =====
-- The phases of a machine, and how a run of its controller moves it from one to another.
use cluster_api_provider_lat.Base.{
  Bool, true, false, Option, none, some, ◌≡◌, ◌⊎◌, inl, inr, refl, arith, ◌==◌, string_eq,
  if◌then◌else◌,
}
use cluster_api_provider_lat.Action.{Outcome, ok, err, panic, Result, value, error}
use cluster_api_provider_lat.Api.{LatitudeMachine, Machine}
use cluster_api_provider_lat.Kube.{Kube}
use cluster_api_provider_lat.Latitude.{Server, ClientInterface}
use cluster_api_provider_lat.Scope.{new_machine_scope}
use cluster_api_provider_lat.MachineController.Conditions.{set_machine_failed}
use cluster_api_provider_lat.MachineController.Lookup.{validate_machine_spec}
use cluster_api_provider_lat.MachineController.Server.{Machines, start_server, reconcile_server}
use cluster_api_provider_lat.MachineController.Frames.{
  but_ids_fields, but_conditions_fields, set_condition_frame,
}
use cluster_api_provider_lat.MachineController.Asking.{reconcile_server_frame}
use cluster_api_provider_lat.MachineController.Reconcile

-- What a user of Cluster API sees of a machine: it waits for a server, it has one that is not known
-- to run, it is ready, or it has failed.
pub data Phase : Type 0 where
  waiting : Phase
  provisioning : Phase
  ready : Phase
  failed : Phase

unfoldable pub phase : LatitudeMachine → Phase
phase m = elim (m.status.failure_reason) [
  | some reason ↦ failed
  | none ↦
      if m.status.ready then ready else if m.status.server_id == "" then waiting else provisioning
]

-- Whether a run may move a machine from one phase to another. A machine gets ready only from a run
-- that began with a server, and a machine that is ready or has failed stays so.
abbrev pub may_move : Phase → Phase → Bool
may_move waiting ready = false
may_move waiting waiting = true
may_move waiting provisioning = true
may_move waiting failed = true
may_move provisioning next = true
may_move ready ready = true
may_move ready waiting = false
may_move ready provisioning = false
may_move ready failed = false
may_move failed failed = true
may_move failed waiting = false
may_move failed provisioning = false
may_move failed ready = false

abbrev gives_server : Outcome (Option Server) → Bool
gives_server (ok (some server)) = true
gives_server (ok none) = false
gives_server (err e) = false
gives_server panic = false

module _ {W : Type 0} (kube : Kube W) (client : ClientInterface W) where
  -- A server that runs is found only where one was recorded.
  reconcile_server_waiting :
      (before : LatitudeMachine) (machine : Machine) (s : Machines W)
      → (s.object.status.server_id == "") ≡ true
      → gives_server (reconcile_server kube client before machine s).0 ≡ false
  unfolding reconcile_server start_server
  reconcile_server_waiting before machine s h = ground arith

  provision_step_waiting :
      (r : Result (Option Server)) (s : Machines W)
      → s.object.status.ready ≡ false
      → ((Reconcile.provision_step kube client r s).1.object.status.ready ≡ false)
        ⊎ ((server : Server) × (r ≡ value (some server)))
  unfolding Reconcile.provision_step Reconcile.provision_failed Reconcile.wait_for_provisioning
      set_machine_failed
  provision_step_waiting (error e) s h =
      inl (grind (arith, set_condition_frame, but_conditions_fields))
  provision_step_waiting (value none) s h =
      inl (grind (arith, set_condition_frame, but_conditions_fields))
  provision_step_waiting (value (some server)) s h = inr (server, refl)

  validated_waiting :
      (before : LatitudeMachine) (machine : Machine) (s : Machines W)
      → s.object.status.ready ≡ false
      → (s.object.status.server_id == "") ≡ true
      → (Reconcile.validated kube client before machine s).1.object.status.ready ≡ false
  unfolding Reconcile.validated
  validated_waiting before machine s h k =
      let t : Machines W = record s {
        outside = (validate_machine_spec kube s.object s.outside).1;
      } in
      let after = (reconcile_server kube client before machine t).1 in
      grind (
        arith,
        provision_step_waiting,
        set_condition_frame,
        but_conditions_fields,
        reconcile_server_waiting before machine t k,
        but_ids_fields after.object t.object
            (reconcile_server_frame kube client before machine t).0,
      )

  with_owner_waiting :
      (before : LatitudeMachine) (machine : Machine) (s : Machines W)
      → s.object.status.ready ≡ false
      → (s.object.status.server_id == "") ≡ true
      → (Reconcile.with_owner kube client before machine s).1.object.status.ready ≡ false
  unfolding Reconcile.with_owner Reconcile.blocked_by_control_plane Reconcile.fail_worker
      new_machine_scope set_machine_failed
  with_owner_waiting before machine s h k =
      grind (arith, validated_waiting, set_condition_frame, but_conditions_fields)

  find_owner_waiting :
      (before : LatitudeMachine) (s : Machines W)
      → s.object.status.ready ≡ false
      → (s.object.status.server_id == "") ≡ true
      → (Reconcile.find_owner kube client before s).1.object.status.ready ≡ false
  unfolding Reconcile.find_owner
  find_owner_waiting before s h k =
      let t : Machines W = record s {
        outside = (kube.get_owner_machine s.object.meta s.outside).1;
      } in
      grind (arith, λ (machine : Machine). with_owner_waiting before machine t h k)

  reconcile_delete-phase :
      (s : Machines W) → phase (Reconcile.reconcile_delete kube client s).1.object ≡ phase s.object
  unfolding phase Reconcile.reconcile_delete Reconcile.finish_delete Reconcile.delete_failed
      Reconcile.delete_user_data
  reconcile_delete-phase s = grind (arith, set_condition_frame, but_conditions_fields)

  may_stay : (p : Phase) → may_move p p ≡ true
  may_stay waiting = refl
  may_stay provisioning = refl
  may_stay ready = refl
  may_stay failed = refl

  reconcile_normal-may_move :
      (before : LatitudeMachine) (s : Machines W)
      → may_move (phase s.object) (phase (Reconcile.reconcile_normal kube client before s).1.object)
        ≡ true
  unfolding phase Reconcile.reconcile_normal
  reconcile_normal-may_move before s = ground (arith, find_owner_waiting before s)

  -- A run moves a machine only as the phases allow, whether it is being deleted or not: it gets
  -- ready only from a run that began with a recorded server, and if it is ready, or failed, it
  -- stays so.
  pub dispatch-may_move :
      (before : LatitudeMachine) (s : Machines W)
      → may_move (phase s.object) (phase (Reconcile.dispatch kube client before s).1.object) ≡ true
  unfolding Reconcile.dispatch
  dispatch-may_move before s =
      grind (arith, reconcile_normal-may_move, reconcile_delete-phase, may_stay)
