-- ===== src/ClusterController/Endpoint.antt =====
-- `setupControlPlaneEndpoint` of latitudecluster_controller.go.
use cluster_api_provider_lat.Base.{String, ◌<>◌, Bool, true, false, ◌||◌, Option, none, some}
use cluster_api_provider_lat.Base.{List, [], ◌∷◌, ◌==◌, string_eq, if◌then◌else◌}
use cluster_api_provider_lat.Go.Errors.{plain, wrapped, is_not_found}
use cluster_api_provider_lat.Action.{
  Action, value, error, pure, fail, attempt, wrapping, ◌>>=◌, when◌then◌else◌, ◌>>◌,
}
use cluster_api_provider_lat.Api.{
  Machine, Cluster, MachineAddress, LatitudeMachine, LatitudeCluster, condition_false,
  machine_internal_ip, machine_external_ip,
}
use cluster_api_provider_lat.Kube.{Kube}
use cluster_api_provider_lat.World.{external, emit, the_object, update}
use cluster_api_provider_lat.ClusterController.Conditions.{set_condition, cluster_ready_condition}
use cluster_api_provider_lat.ClusterController.Networks.{Clusters}

-- The address of the first entry whose type passes a test, or the empty text.
unfoldable pub first_address : (String → Bool) → List MachineAddress → String
first_address test [] = ""
first_address test (a ∷ as') = if test a.type then a.address else first_address test as'

abbrev pub internal_or_external : String → Bool
internal_or_external type = type == machine_internal_ip || type == machine_external_ip

abbrev pub internal : String → Bool
internal type = type == machine_internal_ip

-- The search for an address and its fallback.
unfoldable pub endpoint_address : List MachineAddress → String
endpoint_address addresses =
    let found = first_address internal_or_external addresses in
    if found == "" then first_address internal addresses else found

abbrev pub with_endpoint : String → LatitudeCluster → LatitudeCluster
with_endpoint host c = record c {
  status = record c.status { control_plane_endpoint = record { host = host; port = 6443 } };
}

unfoldable pub first_control_plane : (Machine → Bool) → List Machine → Option Machine
first_control_plane test [] = none
first_control_plane test (m ∷ ms) = if test m then some m else first_control_plane test ms

module _ {W : Type 0} (kube : Kube W) where
  unfoldable pub publish_endpoint : String → String → Action (Clusters W) Bool
  publish_endpoint host machine_name = do
    update (with_endpoint host)
    set_condition kube cluster_ready_condition condition_false "ControlPlaneEndpointSet"
        ("Control plane endpoint set to " <> (host <> ":6443"))
    emit "Normal" "ControlPlaneEndpointSet"
        ("Control plane endpoint set to " <> (host <> (":6443 from machine " <> machine_name)))
    pure true

  unfoldable pub endpoint_from : LatitudeMachine → Action (Clusters W) Bool
  endpoint_from m =
      when m.status.ready
      then (when endpoint_address m.status.addresses == ""
          then fail
              (plain ("control plane machine " <> (m.meta.name <> " has no external IP address")))
          else publish_endpoint (endpoint_address m.status.addresses) m.meta.name)
      else pure false

  unfoldable pub endpoint_from_machine : Machine → Action (Clusters W) Bool
  endpoint_from_machine machine =
      when machine.infrastructure_ref.name == ""
      then pure false
      else attempt (external (kube.get_latitude_machine machine.infrastructure_ref)) >>= elim [
        | error e ↦
            when is_not_found e
            then pure false
            else fail (wrapped "failed to get LatitudeMachine" e)
        | value m ↦ endpoint_from m
      ]

  unfoldable pub search_endpoint : Cluster → Action (Clusters W) Bool
  search_endpoint cluster = do
    machines ←
        wrapping "failed to list CAPI machines"
          (external (kube.list_machines cluster.meta.namespace cluster.meta.name))
    elim (first_control_plane kube.is_control_plane_machine machines) [
      | none ↦ pure false
      | some machine ↦ endpoint_from_machine machine
    ]

  unfoldable pub setup_control_plane_endpoint : Cluster → Action (Clusters W) Bool
  setup_control_plane_endpoint cluster = the_object >>= λ c.
      when c.status.control_plane_endpoint.host == "" then search_endpoint cluster else pure true
