-- ===== src/Tests/ClusterExamples.antt =====
-- The theorems on clusters and on the client at concrete inputs.
use cluster_api_provider_lat.Base.{
  ℕ, String, true, false, none, some, [], ◌∷◌, ◌≡◌, ◌≢◌, ◌⊎◌, ◌<◌, ◌↔◌, refl, string_eq,
}
use cluster_api_provider_lat.Base.Int.{pos}
use cluster_api_provider_lat.Action.{ok, panic, pure}
use cluster_api_provider_lat.Api.{Condition}
use cluster_api_provider_lat.Latitude.{CreateVlanRequest, Vlan}
use cluster_api_provider_lat.Latitude.Sdk.{Sdk, VlanData}
use cluster_api_provider_lat.Latitude.Client
use cluster_api_provider_lat.Latitude.Client.Laws.{
  IsReached, IsFirst, wait_for_server_lem, create_vlan_reuses,
}
use cluster_api_provider_lat.MachineController.Reconcile.{requeue}
use cluster_api_provider_lat.MachineController.ConditionLaws.{find_condition, set_condition_lem}
use cluster_api_provider_lat.World.{World}
use cluster_api_provider_lat.Api.{LatitudeMachine}
use cluster_api_provider_lat.Tests.Fixtures.{machine_with}
use cluster_api_provider_lat.MachineController.Conditions as Machine
use cluster_api_provider_lat.ClusterController.Networks.{Clusters, uses_existing, reconcile_vlan}
use cluster_api_provider_lat.ClusterController.AddressLaws.{
  IsFromMachine, setup_control_plane_endpoint-IsFromMachine,
}
use cluster_api_provider_lat.Tests.Fixtures.{Nothing}
use cluster_api_provider_lat.ClusterController.NetworkLaws.{
  vlan_writes, has_network, lists, dispatch_lem,
}
use cluster_api_provider_lat.ClusterController.Endpoint.{setup_control_plane_endpoint}
use cluster_api_provider_lat.ClusterController.EndpointLaws.{
  has_host, setup_control_plane_endpoint_lem, reconcile_delete_releases,
}
use cluster_api_provider_lat.ClusterController.Reconcile.{
  dispatch, reconcile_delete, cluster_finalizer_name,
}
use cluster_api_provider_lat.Tests.Fixtures.{
  a_kube, a_client, a_sdk, a_kube-IsLawful, a_vlan, a_server, capi_cluster, cluster_with, world_of,
}

abbrev settled : Clusters Nothing
settled = (reconcile_vlan a_client (world_of (cluster_with none))).1

dispatch_lem_example :
    let s = world_of (cluster_with none) in
    let (r, s') = dispatch a_kube a_client capi_cluster s in
    ((uses_existing s.object ≡ false) ⊎ (vlan_writes s'.trace ≡ vlan_writes s.trace))
    × ((s'.object.status.ready ≡ s.object.status.ready)
        ⊎ ((has_network s'.object ≡ true)
            × (lists (a_client.get_available_regions s.outside).0 s.object.spec.location ≡ true)))
dispatch_lem_example = dispatch_lem a_kube a_client capi_cluster (world_of (cluster_with none))

setup_control_plane_endpoint_lem_example :
    let s = world_of (cluster_with none) in
    let (r, s') = setup_control_plane_endpoint a_kube capi_cluster s in
    ((has_host s.object ≡ true) × (r ≡ ok true) × (s' ≡ s))
    ⊎ ((has_host s.object ≡ false)
        × (((r ≡ ok true)
              × (has_host s'.object ≡ true)
              × (s'.object.status.control_plane_endpoint.port ≡ 6443))
            ⊎ ((r ≢ ok true)
                × (s'.object.status.control_plane_endpoint
                    ≡ s.object.status.control_plane_endpoint))))
setup_control_plane_endpoint_lem_example =
    setup_control_plane_endpoint_lem a_kube capi_cluster (world_of (cluster_with none))

reconcile_delete_releases_example :
    let s = world_of (cluster_with (some 1700000000)) in
    let (r, s') = reconcile_delete a_kube a_client s in
    ((r ≡ ok (requeue 0))
      × (a_kube.contains_finalizer s'.object.meta.finalizers cluster_finalizer_name ≡ false))
    ⊎ ((r ≡ panic) × (s'.object ≡ s.object))
reconcile_delete_releases_example =
    reconcile_delete_releases a_kube a_client a_kube-IsLawful
      (world_of (cluster_with (some 1700000000)))

abbrev condition_at : String → ℕ → ℕ → Condition
condition_at status generation time = record {
  type = "InstanceReady";
  status = status;
  reason = "InstanceNotReady";
  message = "Server is being provisioned";
  observed_generation = generation;
  last_transition_time = time;
}

abbrev machine_reported : World Nothing LatitudeMachine
machine_reported = world_of (record (machine_with "sv_1" none) {
  status = record ((machine_with "sv_1" none).status) {
    conditions = record (condition_at "False" 0 5) { message = "" } ∷ [];
  };
})

set_condition_lem_example :
    find_condition "InstanceReady"
      (Machine.set_condition a_kube "InstanceReady" "False" "InstanceNotReady"
        "Server is being provisioned" machine_reported).1.object.status.conditions
    ≡ some (condition_at "False" 1 1700000000)
set_condition_lem_example =
    set_condition_lem a_kube "InstanceReady" "False" "InstanceNotReady"
      "Server is being provisioned" machine_reported "InstanceReady"

abbrev a_request : CreateVlanRequest
a_request = record {
  project_id = "proj_1";
  site = "SAO2";
  subnet = "capl-demo-10.8.0.0/24";
  vid = some (pos 2001);
}

-- Another network of the project comes first in the list.
abbrev other_network : VlanData
other_network = record {
  id = some "vlan_3";
  attributes = some (record { description = some "capl-other-10.9.0.0/24"; vid = some (pos 2003) });
}

abbrev wanted_network : VlanData
wanted_network = record {
  id = some "vlan_7";
  attributes = some (record { description = some "capl-demo-10.8.0.0/24"; vid = some (pos 2007) });
}

abbrev two_networks : Sdk ℕ
two_networks = record a_sdk {
  private_networks_list = pure (some (other_network ∷ wanted_network ∷ []));
}

abbrev other_vlan : Vlan
other_vlan = record {
  id = "vlan_3";
  vid = pos 2003;
  subnet = "capl-other-10.9.0.0/24";
  project = "proj_1";
}

create_vlan_reuses_example :
    (found : Vlan) × IsFirst a_request.subnet found (other_vlan ∷ a_vlan ∷ [])
    × (Client.create_vlan two_networks a_request 0
        ≡ (ok found, (Client.list_vlans two_networks "proj_1" 0).1))
unfolding Client.list_vlans Client.listed_vlans
create_vlan_reuses_example =
    create_vlan_reuses two_networks a_request (other_vlan ∷ a_vlan ∷ []) 0 refl refl refl refl refl

wait_for_server_lem_example :
    (Client.wait_for_server a_sdk "sv_1" "on" 600 0 ≡ (ok a_server, 3))
    ↔ ((k : ℕ) × (k < 10) × IsReached a_sdk "sv_1" "on" a_server 3 k 0)
wait_for_server_lem_example = wait_for_server_lem a_sdk "sv_1" "on" 600 0 a_server 3

setup_control_plane_endpoint-IsFromMachine_example :
    let (r, s') = setup_control_plane_endpoint a_kube capi_cluster (world_of (cluster_with none)) in
    (r ≢ ok true) ⊎ IsFromMachine a_kube s'.object.status.control_plane_endpoint.host
setup_control_plane_endpoint-IsFromMachine_example =
    setup_control_plane_endpoint-IsFromMachine a_kube capi_cluster (world_of (cluster_with none))
      refl
