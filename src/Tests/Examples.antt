-- ===== src/Tests/Examples.antt =====
-- The theorems on machines at concrete inputs.
use cluster_api_provider_lat.Base.{
  ℕ, ◌≤◌, ◌==◌, string_eq, true, false, none, some, [], ◌≡◌, ◌⊎◌, inl, refl,
}
use cluster_api_provider_lat.Go.Errors.{Error, plain, error_text}
use cluster_api_provider_lat.Go.Strings.{index}
use cluster_api_provider_lat.Action.{ok, err}
use cluster_api_provider_lat.Api.{NamespacedName, LatitudeMachine}
use cluster_api_provider_lat.Latitude.{ServerSpec}
use cluster_api_provider_lat.MachineController.Conditions.{is_permanent_error}
use cluster_api_provider_lat.MachineController.Server.{Machines, create_server}
use cluster_api_provider_lat.MachineController.Frames.{creations}
use cluster_api_provider_lat.MachineController.Reconcile.{
  requeue, reconcile, dispatch, reconcile_delete, provision_failed,
}
use cluster_api_provider_lat.MachineController.Asking.{AsksForServer}
use cluster_api_provider_lat.MachineController.Creation.{IsOpen, reconcile_creates_once}
use cluster_api_provider_lat.MachineController.Deletion.{
  IsReleased, IsHeld, IsPanic, reconcile_delete_lem,
}
use cluster_api_provider_lat.MachineController.Consistency.{
  IsConsistent, here, next, run, Reach-IsConsistent,
}
use cluster_api_provider_lat.MachineController.Failure.{
  a_run, an_edit, provision_failed_lem, permanent_failure_is_final,
}
use cluster_api_provider_lat.MachineController.Failure
use cluster_api_provider_lat.MachineController.Conditions.{
  set_machine_failed, set_condition, merge_condition, reads_clock,
}
use cluster_api_provider_lat.Tests.Fixtures.{
  Nothing, a_kube, a_client, a_kube-IsLawful, machine_with, world_of,
}
use cluster_api_provider_lat.Base.{◌∷◌, [], inr}
use cluster_api_provider_lat.Action.{panic, is_err}
use cluster_api_provider_lat.World.{Call}
use cluster_api_provider_lat.Base.{Bool}
use cluster_api_provider_lat.MachineController.Reconcile.{finalizer_name, with_finalizers}
use cluster_api_provider_lat.MachineController.Finalizer.{dispatch_has_finalizer}
use cluster_api_provider_lat.MachineController.Server.{
  with_server_id, with_user_data_id, ensure_user_data,
}
use cluster_api_provider_lat.MachineController.Lifecycle.{phase, may_move, dispatch-may_move}
use cluster_api_provider_lat.MachineController.Records.{
  but_attachment, user_data_request, create_server_records, ensure_user_data_records,
}
use cluster_api_provider_lat.Tests.Fixtures.{a_server}

abbrev a_request : NamespacedName
a_request = record { namespace = "default"; name = "cp-0" }

reconcile_creates_once_example :
    let s' = (reconcile a_kube a_client a_request tt).1 in
    (creations s'.trace ≤ 1)
    × ((creations s'.trace ≡ 0)
        ⊎ ((m : LatitudeMachine) × ((a_kube.get_latitude_machine a_request tt).0 ≡ ok m)
            × IsOpen a_kube m
            × AsksForServer a_kube a_client m tt))
reconcile_creates_once_example = reconcile_creates_once a_kube a_client a_request tt

abbrev deleted : Machines Nothing
deleted = world_of (machine_with "sv_1" (some 1700000000))

reconcile_delete_lem_example :
    let out = reconcile_delete a_kube a_client deleted in
    IsReleased a_kube a_client deleted out
    ⊎ IsHeld a_kube a_client deleted out
    ⊎ IsPanic a_kube a_client deleted out
reconcile_delete_lem_example = reconcile_delete_lem a_kube a_client a_kube-IsLawful deleted

abbrev running : Machines Nothing
running = world_of (machine_with "sv_1" none)

Reach-IsConsistent_example :
    IsConsistent (dispatch a_kube a_client (machine_with "sv_1" none) running).1.object
Reach-IsConsistent_example =
    Reach-IsConsistent a_kube a_client (inl refl)
      (next here (run (machine_with "sv_1" none) running refl refl))

abbrev a_spec : ServerSpec
a_spec = record {
  project = "proj_1";
  plan = "c2-small-x86";
  operating_system = "ubuntu_24_04_x64_lts";
  site = "SAO2";
  hostname = "default-cp-0";
  ssh_keys = [];
  user_data = "ud_1";
}

abbrev out_of_stock : Error
out_of_stock = plain "422: SERVERS_OUT_OF_STOCK"

abbrev counting : Machines ℕ
counting = record { outside = 0; object = machine_with "" none; trace = [] }

provision_failed_lem_example :
    let (r, s') = provision_failed a_kube a_client out_of_stock running in
    ((is_permanent_error out_of_stock ≡ true)
      × (r ≡ ok (requeue 300))
      × (s'.object.status.ready ≡ false)
      × (s'.object.status.failure_reason ≡ some "CreateError")
      × (s'.object.status.failure_message ≡ some (error_text out_of_stock)))
    ⊎ ((is_permanent_error out_of_stock ≡ false)
        × (r ≡ err out_of_stock)
        × (s'.object.status.ready ≡ running.object.status.ready)
        × (s'.object.status.failure_reason ≡ running.object.status.failure_reason)
        × (s'.object.status.failure_message ≡ running.object.status.failure_message))
provision_failed_lem_example = provision_failed_lem a_kube a_client out_of_stock running

abbrev failed_machine : LatitudeMachine
failed_machine = (provision_failed a_kube a_client out_of_stock running).1.object

-- The plan is changed, which does not help, and a run follows.
abbrev repaired : Machines Nothing
repaired =
    world_of (record failed_machine { spec = record failed_machine.spec { plan = "c3-small-x86" } })

abbrev after_repair : Machines Nothing
after_repair = (dispatch a_kube a_client failed_machine repaired).1

permanent_failure_is_final_example :
    (after_repair.object.status ≡ failed_machine.status)
    × (dispatch a_kube a_client failed_machine after_repair ≡ (ok (requeue 0), after_repair))
unfolding is_permanent_error error_text index provision_failed set_machine_failed set_condition
    merge_condition reads_clock
permanent_failure_is_final_example =
    permanent_failure_is_final a_kube a_client out_of_stock running refl refl refl failed_machine
      after_repair (a_run failed_machine repaired (an_edit Failure.here refl refl refl))

dispatch-may_move_example :
    may_move
      (phase running.object)
      (phase (dispatch a_kube a_client (machine_with "sv_1" none) running).1.object)
    ≡ true
dispatch-may_move_example = dispatch-may_move a_kube a_client (machine_with "sv_1" none) running

abbrev fresh : Machines Nothing
fresh = world_of (machine_with "" none)

create_server_records_example :
    let (r, s') = create_server a_kube a_client (machine_with "" none) a_spec fresh in
    (s'.object ≡ with_server_id "sv_1" fresh.object)
    × (but_attachment s'.trace
        ≡ Call.patch_machine (with_server_id "sv_1" fresh.object) ∷ Call.create_server a_spec ∷ [])
    × (is_err r ≡ false)
create_server_records_example =
    create_server_records a_kube a_client (machine_with "" none) a_spec a_server fresh refl

ensure_user_data_records_example :
    let (r, s') = ensure_user_data a_kube a_client (machine_with "" none) "#cloud-config" fresh in
    (((fresh.object.status.user_data_id == "") ≡ false) × (r ≡ ok "") × (s' ≡ fresh))
    ⊎ (((fresh.object.status.user_data_id == "") ≡ true)
        × ((r ≡ ok "ud_1") ⊎ (r ≡ panic))
        × (s'.object ≡ with_user_data_id "ud_1" fresh.object)
        × (s'.trace
            ≡ Call.patch_machine (with_user_data_id "ud_1" fresh.object)
              ∷ Call.create_user_data (
                  user_data_request a_kube a_client
                    (machine_with "" none)
                    fresh.object
                    "#cloud-config")
              ∷ []))
ensure_user_data_records_example =
    ensure_user_data_records a_kube a_client (machine_with "" none) "#cloud-config" "ud_1" fresh
      (inr refl)

dispatch_has_finalizer_example :
    let has_finalizer : LatitudeMachine → Bool =
      λ m. a_kube.contains_finalizer m.meta.finalizers finalizer_name in
    let s' = (dispatch a_kube a_client (machine_with "sv_1" none) running).1 in
    (has_finalizer s'.object ≡ true)
    × ((has_finalizer running.object ≡ true)
        ⊎ ((s'.trace ≡ running.trace)
            × (s'.object ≡ with_finalizers s'.object.meta.finalizers running.object)))
dispatch_has_finalizer_example =
    dispatch_has_finalizer a_kube a_client a_kube-IsLawful (machine_with "sv_1" none) running refl
      refl
