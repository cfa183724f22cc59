-- ===== src/MachineController/Reconcile.antt =====
-- `Reconcile`, `reconcileNormal` and `reconcileDelete` of latitudemachine_controller.go.
use cluster_api_provider_lat.Base.{ℕ, String, ◌<>◌, Bool, true, false, Option, none, some}
use cluster_api_provider_lat.Base.{List, [], ◌∷◌, ◌++◌, map, ◌==◌, string_eq, if◌then◌else◌}
use cluster_api_provider_lat.Go.Errors.{Error, error_text, is_not_found}
use cluster_api_provider_lat.Action.{
  Action, Outcome, ok, err, panic, Result, value, error, pure, fail, attempt, wrapping, ◌>>=◌,
  when◌then◌else◌, ◌>>◌,
}
use cluster_api_provider_lat.Api.{
  NamespacedName, Machine, MachineAddress, LatitudeMachine, has_key, is_deleted, condition_true,
  condition_false, machine_external_ip, machine_host_name, instance_ready_condition,
  instance_provision_failed_reason, instance_not_ready_reason, instance_deletion_failed_reason,
}
use cluster_api_provider_lat.Kube.{Kube}
use cluster_api_provider_lat.Latitude.{Server, ClientInterface}
use cluster_api_provider_lat.World.{World, Call, external, perform, emit, the_object, update}
use cluster_api_provider_lat.Scope.{new_machine_scope, params_of, set_ready, set_provider_id}
use cluster_api_provider_lat.MachineController.Conditions.{
  set_condition, set_machine_failed, is_permanent_error,
}
use cluster_api_provider_lat.MachineController.Lookup.{
  control_plane_label, check_control_plane_failed, validate_machine_spec,
}
use cluster_api_provider_lat.MachineController.Server.{Machines, with_server_id, reconcile_server}

-- `ctrl.Result`, with `RequeueAfter` in seconds; 0 asks for no other run.
pub record CtrlResult : Type 0 where
  pub requeue_after : ℕ

abbrev pub requeue : ℕ → CtrlResult
requeue seconds = record { requeue_after = seconds }

abbrev pub finalizer_name : String
finalizer_name = "latitudemachine.infrastructure.cluster.x-k8s.io"

abbrev pub with_finalizers : List String → LatitudeMachine → LatitudeMachine
with_finalizers fs m = record m { meta = record m.meta { finalizers = fs } }

abbrev pub host_name_address : String → List MachineAddress
host_name_address hostname =
    if hostname == "" then [] else record { type = machine_host_name; address = hostname } ∷ []

unfoldable pub addresses_of : Server → List MachineAddress
addresses_of server =
    map (λ ip. record { type = machine_external_ip; address = ip }) server.ip_address
    ++ host_name_address server.hostname

abbrev pub has_failed : LatitudeMachine → Bool
has_failed m = elim (m.status.failure_reason) [ none ↦ false | some _ ↦ true ]

-- The error of the last patch is returned if there is no other.
abbrev pub after_patch : Outcome CtrlResult → Outcome (Unit {0}) → Outcome CtrlResult
after_patch r panic = panic
after_patch r (ok _) = r
after_patch (ok _) (err e) = err e
after_patch (err e') (err e) = err e'
after_patch panic (err e) = panic

module _ {W : Type 0} (kube : Kube W) (client : ClientInterface W) where
  -- `setCondition` of the condition that this controller reports, as false.
  abbrev not_ready : String → String → Action (Machines W) (Unit {0})
  not_ready reason message =
      set_condition kube instance_ready_condition condition_false reason message

  unfoldable pub fail_worker : Action (Machines W) CtrlResult
  fail_worker = do
    set_machine_failed "Control plane provisioning failed, cannot provision worker nodes"
    not_ready instance_provision_failed_reason "Control plane failed"
    emit "Warning" "ControlPlaneFailed" "Cannot provision worker: control plane has failed"
    pure (requeue 0)

  unfoldable pub provision_failed : Error → Action (Machines W) CtrlResult
  provision_failed e =
      when is_permanent_error e
      then set_machine_failed (error_text e)
        >> not_ready instance_provision_failed_reason (error_text e)
        >> emit "Warning" "ProvisioningFailed"
            ("Failed to create server (permanent error): " <> error_text e)
        >> pure (requeue 300)
      else not_ready instance_provision_failed_reason (error_text e)
        >> emit "Warning" "FailedCreate" ("Failed to create server: " <> error_text e)
        >> fail e

  unfoldable pub mark_ready : Server → Action (Machines W) CtrlResult
  mark_ready server = do
    set_provider_id ("latitude://" <> server.id)
    set_ready
    update (with_server_id server.id)
    update (λ m. record m { status = record m.status { addresses = addresses_of server } })
    set_condition kube instance_ready_condition condition_true "InstanceReady" "Instance is ready"
    emit "Normal" "SuccessfulCreate" ("Created server " <> server.id)
    pure (requeue 0)

  unfoldable pub wait_for_provisioning : Action (Machines W) CtrlResult
  wait_for_provisioning =
      not_ready instance_not_ready_reason "Server is being provisioned" >> pure (requeue 30)

  unfoldable pub provision_step : Result (Option Server) → Action (Machines W) CtrlResult
  provision_step (error e) = provision_failed e
  provision_step (value none) = wait_for_provisioning
  provision_step (value (some server)) = mark_ready server

  -- Whether this is a worker of a failed control plane. An error of the check is logged.
  unfoldable pub blocked_by_control_plane : Machine → Action (Machines W) Bool
  blocked_by_control_plane machine =
      when has_key control_plane_label machine.meta.labels
      then pure false
      else the_object >>= λ m.
          attempt (external (check_control_plane_failed kube m))
          >>= elim [ error e ↦ pure false | value failed ↦ pure failed ]

  unfoldable pub validated : LatitudeMachine → Machine → Action (Machines W) CtrlResult
  validated before machine = do
    m ← the_object
    attempt (external (validate_machine_spec kube m)) >>= elim [
      | error e ↦ not_ready instance_provision_failed_reason (error_text e) >> pure (requeue 0)
      | value _ ↦ attempt (reconcile_server kube client before machine) >>= provision_step
    ]

  unfoldable pub with_owner : LatitudeMachine → Machine → Action (Machines W) CtrlResult
  with_owner before machine = do
    wrapping "failed to create machine scope" (new_machine_scope kube (params_of machine))
    blocked ← blocked_by_control_plane machine
    when blocked then fail_worker else validated before machine

  unfoldable pub find_owner : LatitudeMachine → Action (Machines W) CtrlResult
  find_owner before = do
    m ← the_object
    owner ← wrapping "failed to get owner machine" (external (kube.get_owner_machine m.meta))
    elim owner [ none ↦ pure (requeue 30) | some machine ↦ with_owner before machine ]

  unfoldable pub reconcile_normal : LatitudeMachine → Action (Machines W) CtrlResult
  reconcile_normal before = the_object >>= λ m.
      when kube.contains_finalizer m.meta.finalizers finalizer_name
      then (when m.status.ready
          then pure (requeue 0)
          else when has_failed m
          then pure (requeue 0)
          else find_owner before)
      else update (λ o. with_finalizers (kube.add_finalizer o.meta.finalizers finalizer_name) o)
        >> pure (requeue 0)

  unfoldable pub delete_user_data : Action (Machines W) (Unit {0})
  delete_user_data = the_object >>= λ m.
      when m.status.user_data_id == ""
      then pure tt
      else attempt (
          perform (Call.delete_user_data m.status.user_data_id)
            (client.delete_user_data m.status.user_data_id))
        >>= elim [
          | error e ↦
              emit "Warning" "FailedDeleteUserData"
                ("Failed to delete user data " <> (m.status.user_data_id <> (": " <> error_text e)))
          | value _ ↦
              emit "Normal" "SuccessfulDeleteUserData"
                ("Deleted user data " <> m.status.user_data_id)
        ]

  unfoldable pub finish_delete : Action (Machines W) CtrlResult
  finish_delete = do
    delete_user_data
    update (λ m. with_finalizers (kube.remove_finalizer m.meta.finalizers finalizer_name) m)
    pure (requeue 0)

  unfoldable pub delete_failed : String → Error → Action (Machines W) CtrlResult
  delete_failed server_id e = do
    not_ready instance_deletion_failed_reason (error_text e)
    emit "Warning" "FailedDelete"
        ("Failed to delete server " <> (server_id <> (": " <> error_text e)))
    pure (requeue 30)

  unfoldable pub reconcile_delete : Action (Machines W) CtrlResult
  reconcile_delete = the_object >>= λ m.
      when m.status.server_id == ""
      then finish_delete
      else attempt (
          perform (Call.delete_server m.status.server_id) (client.delete_server m.status.server_id))
        >>= elim [
          | error e ↦ delete_failed m.status.server_id e
          | value _ ↦
              emit "Normal" "SuccessfulDelete" ("Deleted server " <> m.status.server_id)
              >> finish_delete
        ]

  unfoldable pub dispatch : LatitudeMachine → Action (Machines W) CtrlResult
  dispatch before = the_object >>= λ m.
      when has_key "cluster.x-k8s.io/paused" m.meta.annotations
      then pure (requeue 0)
      else when is_deleted m.meta
      then reconcile_delete
      else reconcile_normal before

  -- The deferred patch runs however the body ends.
  unfoldable pub with_deferred_patch :
      LatitudeMachine → Action (Machines W) CtrlResult → Action (Machines W) CtrlResult
  with_deferred_patch before body s =
      let (r, s') = body s in
      let (p, s'') =
        perform (Call.patch_machine s'.object) (kube.patch_machine before s'.object) s' in
      (after_patch r p, s'')

  abbrev pub started : W → LatitudeMachine → Machines W
  started w m = record { outside = w; object = m; trace = [] }

  abbrev pub with_object :
      Outcome CtrlResult × Machines W → Outcome CtrlResult × World W (Option LatitudeMachine)
  with_object (r, s) = (r, record { outside = s.outside; object = some s.object; trace = s.trace })

  abbrev pub without_object :
      Outcome CtrlResult → W → Outcome CtrlResult × World W (Option LatitudeMachine)
  without_object r w = (r, record { outside = w; object = none; trace = [] })

  -- The object is `none` if the run ended before it had one to change.
  unfoldable pub reconcile :
      NamespacedName → W → Outcome CtrlResult × World W (Option LatitudeMachine)
  reconcile req w =
      let (found, w1) = kube.get_latitude_machine req w in
      elim found [
        | panic ↦ without_object panic w1
        | err e ↦ without_object (if is_not_found e then ok (requeue 0) else err e) w1
        | ok m ↦
            let (helper, w2) = kube.new_machine_helper m w1 in
            elim helper [
              | panic ↦ without_object panic w2
              | err e ↦ without_object (err e) w2
              | ok _ ↦ with_object (with_deferred_patch m (dispatch m) (started w2 m))
            ]
      ]
