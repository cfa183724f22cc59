-- ===== src/MachineController/Custody/Names.antt =====
-- A run of the machine controller leaves the name and the namespace of the machine.
use cluster_api_provider_lat.Base.{String, none, some, ◌≡◌, arith, ap}
use cluster_api_provider_lat.Action.{Result, value, error}
use cluster_api_provider_lat.Api.{LatitudeMachine, Machine}
use cluster_api_provider_lat.Base.{Option}
use cluster_api_provider_lat.Kube.{Kube}
use cluster_api_provider_lat.Latitude.{Server, ClientInterface}
use cluster_api_provider_lat.Scope.{new_machine_scope, set_ready, set_provider_id}
use cluster_api_provider_lat.MachineController.Conditions.{set_condition, set_machine_failed}
use cluster_api_provider_lat.MachineController.Lookup.{get_hostname, validate_machine_spec}
use cluster_api_provider_lat.MachineController.Server.{Machines, reconcile_server}
use cluster_api_provider_lat.MachineController.Frames.{set_condition_frame}
use cluster_api_provider_lat.MachineController.Asking.{reconcile_server_frame}
use cluster_api_provider_lat.MachineController.Reconcile

-- The second state has the machine under the same name.
abbrev IsSame : {W : Type 0} → Machines W → Machines W → Type 0
IsSame s s' =
    (s'.object.meta.name ≡ s.object.meta.name)
    × (s'.object.meta.namespace ≡ s.object.meta.namespace)

module _ {W : Type 0} (kube : Kube W) (client : ClientInterface W) where
  set_condition-IsSame :
      (type status reason message : String) (s : Machines W)
      → IsSame s (set_condition kube type status reason message s).1
  set_condition-IsSame type status reason message s =
      let same = (set_condition_frame kube type status reason message s).1 in
      (ap (λ m. m.meta.name) same, ap (λ m. m.meta.namespace) same)

  provision_step-IsSame :
      (r : Result (Option Server)) (s : Machines W)
      → IsSame s (Reconcile.provision_step kube client r s).1
  unfolding Reconcile.provision_step Reconcile.provision_failed Reconcile.wait_for_provisioning
      Reconcile.mark_ready set_ready set_provider_id set_machine_failed
  provision_step-IsSame (error e) s = grind (arith, set_condition-IsSame)
  provision_step-IsSame (value none) s = grind (arith, set_condition-IsSame)
  provision_step-IsSame (value (some server)) s = grind (arith, set_condition-IsSame)

  module _ (before : LatitudeMachine) where
    reconcile_server-IsSame :
        (machine : Machine) (s : Machines W)
        → IsSame s (reconcile_server kube client before machine s).1
    reconcile_server-IsSame machine s =
        let same = (reconcile_server_frame kube client before machine s).0 in
        (ap (λ m. m.meta.name) same, ap (λ m. m.meta.namespace) same)

    validated-IsSame :
        (machine : Machine) (s : Machines W)
        → IsSame s (Reconcile.validated kube client before machine s).1
    unfolding Reconcile.validated
    validated-IsSame machine s =
        let t : Machines W = record s {
          outside = (validate_machine_spec kube s.object s.outside).1;
        } in
        grind
          (arith, provision_step-IsSame, set_condition-IsSame, reconcile_server-IsSame machine t)

    with_owner-IsSame :
        (machine : Machine) (s : Machines W)
        → IsSame s (Reconcile.with_owner kube client before machine s).1
    unfolding Reconcile.with_owner Reconcile.blocked_by_control_plane Reconcile.fail_worker
        new_machine_scope set_machine_failed
    with_owner-IsSame machine s = grind (arith, validated-IsSame, set_condition-IsSame)

    find_owner-IsSame : (s : Machines W) → IsSame s (Reconcile.find_owner kube client before s).1
    unfolding Reconcile.find_owner
    find_owner-IsSame s =
        let t : Machines W = record s {
          outside = (kube.get_owner_machine s.object.meta s.outside).1;
        } in
        grind (arith, λ (machine : Machine). with_owner-IsSame machine t)

    reconcile_normal-IsSame :
        (s : Machines W) → IsSame s (Reconcile.reconcile_normal kube client before s).1
    unfolding Reconcile.reconcile_normal
    reconcile_normal-IsSame s = ground (arith, find_owner-IsSame s)

    reconcile_delete-IsSame :
        (s : Machines W) → IsSame s (Reconcile.reconcile_delete kube client s).1
    unfolding Reconcile.reconcile_delete Reconcile.finish_delete Reconcile.delete_failed
        Reconcile.delete_user_data
    reconcile_delete-IsSame s = grind (arith, set_condition-IsSame)

    dispatch-IsSame : (s : Machines W) → IsSame s (Reconcile.dispatch kube client before s).1
    unfolding Reconcile.dispatch
    dispatch-IsSame s = ground (arith, reconcile_normal-IsSame s, reconcile_delete-IsSame s)

    pub get_hostname-dispatch :
        (s : Machines W)
        → get_hostname (Reconcile.dispatch kube client before s).1.object ≡ get_hostname s.object
    unfolding get_hostname
    get_hostname-dispatch s = ground (arith, dispatch-IsSame s)
