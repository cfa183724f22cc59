-- ===== src/Tests/EndToEndExamples.antt =====
-- From a server to the endpoint, in a small world that keeps the machine.
use cluster_api_provider_lat.Base.{true, false, none, some, [], ◌∷◌, ◌≡◌, ◌⊎◌, refl, string_eq}
use cluster_api_provider_lat.Go.Strings.{equal_fold}
use cluster_api_provider_lat.Action.{ok}
use cluster_api_provider_lat.Api.{LatitudeMachine, Machine}
use cluster_api_provider_lat.Kube.{Kube}
use cluster_api_provider_lat.Latitude.{ClientInterface}
use cluster_api_provider_lat.Scope.{new_machine_scope, set_ready, set_provider_id}
use cluster_api_provider_lat.MachineController.Conditions.{
  set_condition, merge_condition, reads_clock,
}
use cluster_api_provider_lat.MachineController.Lookup.{
  get_latitude_cluster, infrastructure_of, get_project_id, get_site, validate_machine_spec,
}
use cluster_api_provider_lat.MachineController.Server.{Machines, is_running, reconcile_server}
use cluster_api_provider_lat.MachineController.Reconcile
use cluster_api_provider_lat.MachineController.Service.{IsServed, dispatch-IsServed}
use cluster_api_provider_lat.ClusterController.Networks.{Clusters}
use cluster_api_provider_lat.ClusterController.Endpoint.{
  first_control_plane, setup_control_plane_endpoint,
}
use cluster_api_provider_lat.EndToEnd.{IsPublished, machine_after, server_becomes_endpoint}
use cluster_api_provider_lat.Tests.Fixtures.{
  kube_over, client_over, owner, capi_cluster, cluster_with, machine_with,
}

abbrev the_kube : Kube LatitudeMachine
the_kube = record (kube_over LatitudeMachine) { get_latitude_machine = λ key m. (ok m, m) }

abbrev the_client : ClientInterface LatitudeMachine
the_client = client_over LatitudeMachine

abbrev provisioned : LatitudeMachine
provisioned = machine_with "sv_1" none

abbrev before_run : Machines LatitudeMachine
before_run = record { outside = provisioned; object = provisioned; trace = [] }

dispatch-IsServed_example :
    ((Reconcile.dispatch the_kube the_client provisioned before_run).1.object.status.ready ≡ false)
    ⊎ IsServed the_client "sv_1"
        (Reconcile.dispatch the_kube the_client provisioned before_run).1.object
dispatch-IsServed_example = dispatch-IsServed the_kube the_client provisioned before_run refl

gets_ready_here : (machine_after the_kube the_client provisioned before_run).status.ready ≡ true
unfolding Reconcile.dispatch Reconcile.reconcile_normal Reconcile.find_owner Reconcile.with_owner
    Reconcile.blocked_by_control_plane Reconcile.validated Reconcile.provision_step
    Reconcile.mark_ready Reconcile.addresses_of new_machine_scope set_ready set_provider_id
    validate_machine_spec get_project_id get_latitude_cluster infrastructure_of get_site
    reconcile_server set_condition merge_condition reads_clock is_running equal_fold
gets_ready_here = refl

abbrev the_owner : Machine
the_owner = record owner { infrastructure_ref = record { namespace = "default"; name = "cp-1" } }

abbrev without_endpoint : Clusters LatitudeMachine
without_endpoint = record {
  outside = machine_after the_kube the_client provisioned before_run;
  object = cluster_with none;
  trace = [];
}

first_machine :
    first_control_plane the_kube.is_control_plane_machine (the_owner ∷ []) ≡ some the_owner
unfolding first_control_plane
first_machine = refl

server_becomes_endpoint_example :
    let (r, t) = setup_control_plane_endpoint the_kube capi_cluster without_endpoint in
    IsPublished the_kube the_client "sv_1" r t
server_becomes_endpoint_example =
    server_becomes_endpoint the_kube the_client provisioned before_run without_endpoint capi_cluster
      (the_owner ∷ []) the_owner refl gets_ready_here refl refl first_machine refl refl
