-- ===== src/MachineController/Asking.antt =====
-- What a run of the machine controller does once its owner is looked for, and when it then asks for a
-- server.
use text.Mathlib.TextEquality.{eq_iff}
use cluster_api_provider_lat.Base.{
  ◌+◌, ◌≤◌, Option, none, some, ◌≡◌, ◌⊎◌, arith, false, inl, inr, Bool-cases, ◌==◌, string_eq,
  if◌then◌else◌, Option-cases, ap, ◌∙◌,
}
use cluster_api_provider_lat.Go.Errors.{Error}
use cluster_api_provider_lat.Action.{
  ok, err, Result, value, error, Outcome-cases, is_err, is_ok, Outcome-ok_cases,
}
use cluster_api_provider_lat.Api.{LatitudeMachine, Machine, has_key}
use cluster_api_provider_lat.Kube.{Kube}
use cluster_api_provider_lat.Latitude.{Server, ClientInterface}
use cluster_api_provider_lat.Scope.{new_machine_scope, set_ready, set_provider_id}
use cluster_api_provider_lat.MachineController.Conditions.{set_machine_failed}
use cluster_api_provider_lat.MachineController.Server.{Machines, reconcile_server}
use cluster_api_provider_lat.MachineController.Frames.{
  set_condition_frame, creations, but_ids, start_server_frame,
}
use cluster_api_provider_lat.MachineController.Lookup.{
  validate_machine_spec, check_control_plane_failed, control_plane_label,
}
use cluster_api_provider_lat.MachineController.Reconcile

-- The machine has no server, or the API answers the question for it with an error, of any kind.
abbrev pub NeedsServer : {W : Type 0} → ClientInterface W → LatitudeMachine → W → Type 0
NeedsServer client m w =
    (m.status.server_id ≡ "") ⊎ ((e : Error) × ((client.get_server m.status.server_id w).0 ≡ err e))

-- The world in which a run comes to the server, from that in which the owner is found: after the
-- scope's patch helper, the check of a worker for its control plane, and the validation.
abbrev pub asked_at : {W : Type 0} → Kube W → LatitudeMachine → Machine → W → W
asked_at kube m machine w =
    let scoped = (kube.new_machine_helper m w).1 in
    (validate_machine_spec kube m (
      if has_key control_plane_label machine.meta.labels
      then scoped
      else (check_control_plane_failed kube m scoped).1)).1

-- The owner of the machine is found, and the machine needs a server when the run comes to it.
abbrev pub AsksForServer : {W : Type 0} → Kube W → ClientInterface W → LatitudeMachine → W → Type 0
AsksForServer kube client m w =
    let (found, w') = kube.get_owner_machine m.meta w in
    (machine : Machine) × (found ≡ ok (some machine))
    × NeedsServer client m (asked_at kube m machine w')

module _ {W : Type 0} (kube : Kube W) (client : ClientInterface W) (before : LatitudeMachine) where
  pub reconcile_server_frame :
      (machine : Machine) (s : Machines W)
      → let s' = (reconcile_server kube client before machine s).1 in
        (but_ids s'.object ≡ but_ids s.object) × (creations s'.trace ≤ creations s.trace + 1)
  unfolding reconcile_server
  reconcile_server_frame machine s = grind (arith, start_server_frame)

  -- The server that the machine has keeps the code from asking for another.
  reconcile_server_known :
      (machine : Machine) (s : Machines W)
      → (s.object.status.server_id == "") ≡ false
      → is_err (client.get_server s.object.status.server_id s.outside).0 ≡ false
      → creations (reconcile_server kube client before machine s).1.trace ≡ creations s.trace
  unfolding reconcile_server
  reconcile_server_known machine s known found = ground arith

  pub reconcile_server-NeedsServer :
      (machine : Machine) (s : Machines W)
      → (creations (reconcile_server kube client before machine s).1.trace ≡ creations s.trace)
        ⊎ NeedsServer client s.object s.outside
  reconcile_server-NeedsServer machine s = elim (Bool-cases (s.object.status.server_id == "")) [
    | inl unknown ↦ inr (inl ((eq_iff _ _).0 unknown))
    | inr known ↦ elim (Outcome-cases (client.get_server s.object.status.server_id s.outside).0) [
      | inl (e, h) ↦ inr (inr (e, h))
      | inr found ↦ inl (reconcile_server_known machine s known found)
    ]
  ]

  provision_step_frame :
      (r : Result (Option Server)) (s : Machines W)
      → creations (Reconcile.provision_step kube client r s).1.trace ≡ creations s.trace
  unfolding Reconcile.provision_step Reconcile.provision_failed Reconcile.wait_for_provisioning
      Reconcile.mark_ready set_ready set_provider_id set_machine_failed
  provision_step_frame (error e) s = grind (arith, set_condition_frame)
  provision_step_frame (value none) s = grind (arith, set_condition_frame)
  provision_step_frame (value (some server)) s = grind (arith, set_condition_frame)

  -- The steps of `reconcileNormal` around it.
  validated_frame :
      (machine : Machine) (s : Machines W)
      → let s' = (Reconcile.validated kube client before machine s).1 in
        (creations s'.trace ≤ creations s.trace + 1)
        × ((creations s'.trace ≡ creations s.trace)
            ⊎ NeedsServer client s.object (validate_machine_spec kube s.object s.outside).1)
  unfolding Reconcile.validated
  validated_frame machine s = grind (
    arith,
    provision_step_frame,
    set_condition_frame,
    reconcile_server_frame machine
        (record s { outside = (validate_machine_spec kube s.object s.outside).1 }),
    reconcile_server-NeedsServer machine
        (record s { outside = (validate_machine_spec kube s.object s.outside).1 }),
  )

  with_owner_frame :
      (machine : Machine) (s : Machines W)
      → let s' = (Reconcile.with_owner kube client before machine s).1 in
        (creations s'.trace ≤ creations s.trace + 1)
        × ((creations s'.trace ≡ creations s.trace)
            ⊎ NeedsServer client s.object (asked_at kube s.object machine s.outside))
  unfolding Reconcile.with_owner Reconcile.blocked_by_control_plane Reconcile.fail_worker
      new_machine_scope set_machine_failed
  with_owner_frame machine s =
      let scoped : Machines W = record s {
        outside = (kube.new_machine_helper s.object s.outside).1;
      } in
      let t : Machines W = record s {
        outside = (check_control_plane_failed kube s.object scoped.outside).1;
      } in
      grind (arith, validated_frame machine scoped, validated_frame machine t, set_condition_frame)

  -- The state once the owner has been looked for.
  abbrev owned : Machines W → Machines W
  owned s = record s { outside = (kube.get_owner_machine s.object.meta s.outside).1 }

  find_owner_found :
      (machine : Machine) (s : Machines W)
      → (kube.get_owner_machine s.object.meta s.outside).0 ≡ ok (some machine)
      → Reconcile.find_owner kube client before s
        ≡ Reconcile.with_owner kube client before machine (owned s)
  unfolding Reconcile.find_owner
  find_owner_found machine s h = ground arith

  find_owner_missing :
      (s : Machines W)
      → (kube.get_owner_machine s.object.meta s.outside).0 ≡ ok none
      → creations (Reconcile.find_owner kube client before s).1.trace ≡ creations s.trace
  unfolding Reconcile.find_owner
  find_owner_missing s h = ground arith

  find_owner_failed :
      (s : Machines W)
      → is_ok (kube.get_owner_machine s.object.meta s.outside).0 ≡ false
      → creations (Reconcile.find_owner kube client before s).1.trace ≡ creations s.trace
  unfolding Reconcile.find_owner
  find_owner_failed s h = ground arith

  pub find_owner_frame :
      (s : Machines W)
      → let s' = (Reconcile.find_owner kube client before s).1 in
        (creations s'.trace ≤ creations s.trace + 1)
        × ((creations s'.trace ≡ creations s.trace) ⊎ AsksForServer kube client s.object s.outside)
  find_owner_frame s = elim (Outcome-ok_cases (kube.get_owner_machine s.object.meta s.outside).0) [
    | inr failed ↦ let same = find_owner_failed s failed in (omega arith, inl same)
    | inl (owner, found) ↦ elim (Option-cases owner) [
      | inl none_there ↦
          let same = find_owner_missing s (found ∙ ap ok none_there) in (omega arith, inl same)
      | inr (machine, there) ↦
          let found' = found ∙ ap ok there in
          let (bound, why) = with_owner_frame machine (owned s) in
          rw (find_owner_found machine s found')
            (bound, elim why [ inl same ↦ inl same | inr needed ↦ inr (machine, found', needed) ])
    ]
  ]
