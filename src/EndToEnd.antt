-- ===== src/EndToEnd.antt =====
-- The two controllers together: from a server of Latitude.sh to the endpoint of its cluster.
use mathlib.Core.Path.{subst}
use text.Mathlib.TextEquality.{eq_iff}
use cluster_api_provider_lat.Base.{
  String, Bool, true, false, some, List, [], ◌∷◌, ◌++◌, map, ◌≡◌, ◌⊎◌, inl, inr, ◌==◌, string_eq,
  arith, refl, sym, ap, ◌∙◌,
}
use cluster_api_provider_lat.Action.{Outcome, ok}
use cluster_api_provider_lat.Api.{LatitudeMachine, Machine, Cluster}
use cluster_api_provider_lat.Kube.{Kube}
use cluster_api_provider_lat.Latitude.{Server, ClientInterface}
use cluster_api_provider_lat.MachineController.Reconcile as MachineReconcile
use cluster_api_provider_lat.MachineController.Server.{Machines, is_running}
use cluster_api_provider_lat.MachineController.Service.{IsServed, served, dispatch-IsServed}
use cluster_api_provider_lat.ClusterController.Networks.{Clusters}
use cluster_api_provider_lat.ClusterController.ConditionLaws.{set_condition_frame}
use cluster_api_provider_lat.ClusterController.Endpoint.{
  first_address, internal_or_external, internal, endpoint_address, first_control_plane,
  endpoint_from, publish_endpoint, setup_control_plane_endpoint,
}
use cluster_api_provider_lat.ClusterController.AddressLaws.{
  endpoint_from_machine_ok, search_endpoint_ok,
}

abbrev pub first_of : List String → String
first_of [] = ""
first_of (ip ∷ ips) = ip

first_of_ips :
    (test : String → Bool) (ips : List String) (hostname : String)
    → test "ExternalIP" ≡ true
    → test "Hostname" ≡ false
    → first_address test (
        map (λ ip. record { type = "ExternalIP"; address = ip }) ips
        ++ MachineReconcile.host_name_address hostname)
      ≡ first_of ips
unfolding first_address
first_of_ips test [] hostname h k = ground arith
first_of_ips test (ip ∷ ips) hostname h k = ground arith

no_internal :
    (ips : List String) (hostname : String)
    → first_address internal (
        map (λ ip. record { type = "ExternalIP"; address = ip }) ips
        ++ MachineReconcile.host_name_address hostname)
      ≡ ""
unfolding first_address
no_internal [] hostname = ground arith
no_internal (ip ∷ ips) hostname = ground (arith, no_internal ips hostname)

endpoint_address-addresses_of :
    (server : Server)
    → endpoint_address (MachineReconcile.addresses_of server) ≡ first_of server.ip_address
unfolding endpoint_address MachineReconcile.addresses_of
endpoint_address-addresses_of server = ground (
  arith,
  first_of_ips internal_or_external server.ip_address server.hostname refl refl,
  no_internal server.ip_address server.hostname,
  eq_iff (first_of server.ip_address) "",
)

module _ {W : Type 0} (kube : Kube W) (client : ClientInterface W) where
  -- The endpoint of the cluster is the first address of a server that runs, as Latitude.sh has
  -- answered to a question for the id; or this address is empty.
  abbrev pub IsPublished : String → Outcome Bool → Clusters W → Type 0
  IsPublished id r t =
      (server : Server) × (w : W) × ((client.get_server id w).0 ≡ ok server)
      × (is_running server.status ≡ true)
      × ((first_of server.ip_address ≡ "")
          ⊎ ((r ≡ ok true)
              × (t.object.status.control_plane_endpoint.host ≡ first_of server.ip_address)
              × (t.object.status.control_plane_endpoint.port ≡ 6443)))

  endpoint_from_publishes :
      (m : LatitudeMachine) (server : Server) (t : Clusters W)
      → m.status.ready ≡ true
      → m.status.addresses ≡ MachineReconcile.addresses_of server
      → let (r, t') = endpoint_from kube m t in
        (first_of server.ip_address ≡ "")
        ⊎ ((r ≡ ok true)
            × (t'.object.status.control_plane_endpoint.host ≡ first_of server.ip_address)
            × (t'.object.status.control_plane_endpoint.port ≡ 6443))
  unfolding endpoint_from publish_endpoint
  endpoint_from_publishes m server t is_ready listed = grind (
    arith,
    set_condition_frame,
    ap endpoint_address listed ∙ endpoint_address-addresses_of server,
    eq_iff (first_of server.ip_address) "",
  )

  served-IsPublished :
      (id : String) (m : LatitudeMachine) (t : Clusters W)
      → IsServed client id m
      → let (r, t') = endpoint_from kube m t in IsPublished id r t'
  served-IsPublished id m t (served server w found running is_ready same listed named) =
      (server, w, found, running, endpoint_from_publishes m server t is_ready listed)

  ready-IsServed :
      (before : LatitudeMachine) (s : Machines W)
      → s.object.status.ready ≡ false
      → (MachineReconcile.dispatch kube client before s).1.object.status.ready ≡ true
      → IsServed client s.object.status.server_id
          (MachineReconcile.dispatch kube client before s).1.object
  ready-IsServed before s h k = elim (dispatch-IsServed kube client before s h) [
    | inl unready ↦ ground arith
    | inr behind ↦ behind
  ]

  -- The machine after a run of its controller, and what a run of the other reads of the machines.
  abbrev pub machine_after : LatitudeMachine → Machines W → LatitudeMachine
  machine_after before s = (MachineReconcile.dispatch kube client before s).1.object

  abbrev pub listing : Cluster → Clusters W → Outcome (List Machine) × W
  listing cluster t = kube.list_machines cluster.meta.namespace cluster.meta.name t.outside

  -- Let a run of the machine controller make a machine ready that was not. Where the cluster has no
  -- endpoint yet, its first control-plane machine refers to that machine, and the API server gives
  -- it as the run has left it, the cluster controller sets the endpoint to the first address of a
  -- server that Latitude.sh has answered to run when it was asked for the id in the machine's
  -- status, with port 6443; unless that address is missing.
  pub server_becomes_endpoint :
      (before : LatitudeMachine) (s : Machines W) (t : Clusters W) (cluster : Cluster)
      (machines : List Machine) (machine : Machine)
      → s.object.status.ready ≡ false
      → (machine_after before s).status.ready ≡ true
      → (t.object.status.control_plane_endpoint.host == "") ≡ true
      → (listing cluster t).0 ≡ ok machines
      → first_control_plane kube.is_control_plane_machine machines ≡ some machine
      → (machine.infrastructure_ref.name == "") ≡ false
      → (kube.get_latitude_machine machine.infrastructure_ref (listing cluster t).1).0
        ≡ ok (machine_after before s)
      → let (r, t') = setup_control_plane_endpoint kube cluster t in
        IsPublished s.object.status.server_id r t'
  unfolding setup_control_plane_endpoint
  server_becomes_endpoint before s t cluster machines machine h k unset listed first named read =
      let m = (MachineReconcile.dispatch kube client before s).1.object in
      let list = kube.list_machines cluster.meta.namespace cluster.meta.name t.outside in
      let id = s.object.status.server_id in
      let t' : Clusters W = record t { outside = list.1 } in
      let t'' : Clusters W = record t {
        outside = (kube.get_latitude_machine machine.infrastructure_ref list.1).1;
      } in
      rw unset (
        subst (λ p. IsPublished id p.0 p.1)
          (sym (
            search_endpoint_ok kube cluster machines machine t listed first
            ∙ endpoint_from_machine_ok kube machine m t' named read))
          (served-IsPublished id m t'' (ready-IsServed before s h k)))
