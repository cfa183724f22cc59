-- ===== src/MachineController/Custody/Runs.antt =====
-- A run of the machine controller keeps the ids of the servers.
use text.Mathlib.TextEquality.{eq_iff}
use cluster_api_provider_lat.Base.{◌==◌, string_eq}
use cluster_api_provider_lat.Base.{true, Option, none, some, ◌≡◌, arith, string_eq, nat_eq}
use cluster_api_provider_lat.Action.{◌>>=◌, Outcome, ok, err, panic, attempt}
use cluster_api_provider_lat.Api.{Machine, LatitudeMachine}
use cluster_api_provider_lat.Kube.{Kube}
use cluster_api_provider_lat.Latitude.{Server, ClientInterface}
use cluster_api_provider_lat.Scope.{new_machine_scope, set_ready, set_provider_id}
use cluster_api_provider_lat.MachineController.Cloud.{Cloud}
use cluster_api_provider_lat.MachineController.Conditions.{set_machine_failed}
use cluster_api_provider_lat.MachineController.Lookup.{
  get_hostname, validate_machine_spec, check_control_plane_failed,
}
use cluster_api_provider_lat.MachineController.Server.{Machines, reconcile_server}
use cluster_api_provider_lat.MachineController.Reconcile
use cluster_api_provider_lat.MachineController.Cloud.Reads.{
  validate_machine_spec_servers, check_servers,
}
use cluster_api_provider_lat.MachineController.Custody.Provision.{
  found_id, reconcile_server-IsCustody, reconcile_server_found,
}
use cluster_api_provider_lat.MachineController.Custody.{IsCustody, set_condition-IsUnmoved}

module _ {W : Type 0} (kube : Kube W) (client : ClientInterface W) (cloud : Cloud kube client) where
  after_server-IsCustody :
      (r : Outcome (Option Server)) (s : Machines W)
      → IsCustody kube client cloud s
      → found_id r s.object.status.server_id ≡ true
      → IsCustody kube client cloud
          ((attempt (λ (t : Machines W). (r, t)) >>= Reconcile.provision_step kube client) s).1
  unfolding Reconcile.provision_step Reconcile.provision_failed Reconcile.wait_for_provisioning
      Reconcile.mark_ready set_ready set_provider_id set_machine_failed
  after_server-IsCustody (ok none) s h k = grind (arith, set_condition-IsUnmoved kube client cloud)
  after_server-IsCustody (ok (some server)) s h k =
      let same : server.id ≡ s.object.status.server_id = (eq_iff _ _).0 k in
      grind (arith, set_condition-IsUnmoved kube client cloud)
  after_server-IsCustody (err e) s h k = grind (arith, set_condition-IsUnmoved kube client cloud)
  after_server-IsCustody panic s h k = h

  module _ (before : LatitudeMachine) where
    -- The rest of a run after the specification was found valid.
    reconciled-IsCustody :
        (machine : Machine) (s : Machines W)
        → (get_hostname s.object == cloud.host) ≡ true
        → IsCustody kube client cloud s
        → IsCustody kube client cloud
            ((attempt (reconcile_server kube client before machine)
                >>= Reconcile.provision_step kube client)
              s).1
    reconciled-IsCustody machine s named h =
        let (r, t) = reconcile_server kube client before machine s in
        after_server-IsCustody r t
          (reconcile_server-IsCustody kube client cloud before machine s named h)
          (reconcile_server_found kube client cloud before machine s)

    validated-IsCustody :
        (machine : Machine) (s : Machines W)
        → (get_hostname s.object == cloud.host) ≡ true
        → IsCustody kube client cloud s
        → IsCustody kube client cloud (Reconcile.validated kube client before machine s).1
    unfolding Reconcile.validated
    validated-IsCustody machine s named h =
        let t : Machines W = record s {
          outside = (validate_machine_spec kube s.object s.outside).1;
        } in
        grind (
          arith,
          validate_machine_spec_servers kube client cloud s.object s.outside,
          set_condition-IsUnmoved kube client cloud,
          reconciled-IsCustody machine t named,
        )

    with_owner-IsCustody :
        (machine : Machine) (s : Machines W)
        → (get_hostname s.object == cloud.host) ≡ true
        → IsCustody kube client cloud s
        → IsCustody kube client cloud (Reconcile.with_owner kube client before machine s).1
    unfolding Reconcile.with_owner Reconcile.blocked_by_control_plane Reconcile.fail_worker
        new_machine_scope set_machine_failed
    with_owner-IsCustody machine s named h =
        let scoped : Machines W = record s {
          outside = (kube.new_machine_helper s.object s.outside).1;
        } in
        let t : Machines W = record s {
          outside = (check_control_plane_failed kube s.object scoped.outside).1;
        } in
        grind (
          arith,
          cloud.helper s.object s.outside,
          check_servers kube client cloud s.object scoped.outside,
          set_condition-IsUnmoved kube client cloud,
          validated-IsCustody machine scoped named,
          validated-IsCustody machine t named,
        )

    find_owner-IsCustody :
        (s : Machines W)
        → (get_hostname s.object == cloud.host) ≡ true
        → IsCustody kube client cloud s
        → IsCustody kube client cloud (Reconcile.find_owner kube client before s).1
    unfolding Reconcile.find_owner
    find_owner-IsCustody s named h =
        let t : Machines W = record s {
          outside = (kube.get_owner_machine s.object.meta s.outside).1;
        } in
        grind (
          arith,
          cloud.owner s.object.meta s.outside,
          λ (machine : Machine). with_owner-IsCustody machine t named,
        )

    pub reconcile_normal-IsCustody :
        (s : Machines W)
        → (get_hostname s.object == cloud.host) ≡ true
        → IsCustody kube client cloud s
        → IsCustody kube client cloud (Reconcile.reconcile_normal kube client before s).1
    unfolding Reconcile.reconcile_normal
    reconcile_normal-IsCustody s named h = ground (arith, find_owner-IsCustody s named h)
