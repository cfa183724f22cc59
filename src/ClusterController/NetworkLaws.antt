-- ===== src/ClusterController/NetworkLaws.antt =====
-- What the cluster controller does to virtual networks, and when it calls a cluster ready.
use cluster_api_provider_lat.Base.{
  String, none, some, List, [], ◌∷◌, ◌≡◌, ◌⊎◌, arith, Bool, true, false, contains, string_eq,
}
use cluster_api_provider_lat.Go.Errors.{Error}
use cluster_api_provider_lat.Action.{Outcome, ok, err, panic, is_ok}
use cluster_api_provider_lat.Api.{LatitudeCluster, Cluster}
use cluster_api_provider_lat.Kube.{Kube}
use cluster_api_provider_lat.Latitude.{ClientInterface}
use cluster_api_provider_lat.World.{Call}
use cluster_api_provider_lat.ClusterController.Conditions.{validate_cluster_spec}
use cluster_api_provider_lat.ClusterController.ConditionLaws.{set_condition_frame}
use cluster_api_provider_lat.ClusterController.Networks.{
  Clusters, uses_existing, use_existing_vlan, ensure_vlan, create_new_vlan, reconcile_vlan,
  check_location, reconcile_infrastructure, cleanup_vlan, cleanup_infrastructure,
}
use cluster_api_provider_lat.ClusterController.Endpoint.{
  setup_control_plane_endpoint, search_endpoint, endpoint_from_machine, endpoint_from,
  publish_endpoint,
}
use cluster_api_provider_lat.ClusterController.Reconcile

-- The calls that ask for a network to be made or deleted.
abbrev pub vlan_writes : List Call → List Call
vlan_writes [] = []
vlan_writes (Call.create_vlan request ∷ calls) = Call.create_vlan request ∷ vlan_writes calls
vlan_writes (Call.delete_vlan id ∷ calls) = Call.delete_vlan id ∷ vlan_writes calls
vlan_writes (call ∷ calls) = vlan_writes calls

-- The network of the cluster is known, if it is to have one.
abbrev pub has_network : LatitudeCluster → Bool
has_network c = elim (c.spec.vlan_config) [
  | none ↦ true
  | some config ↦ elim (c.status.vlan_id) [ none ↦ false | some id ↦ true ]
]

-- Whether the answer of the API lists the location.
abbrev pub lists : Outcome (List String) → String → Bool
lists (ok regions) location = contains regions location
lists (err e) location = false
lists panic location = false

pub validate_cluster_spec_frame :
    {S : Type 0} (c : LatitudeCluster) (s : S) → (validate_cluster_spec c s).1 ≡ s
unfolding validate_cluster_spec
validate_cluster_spec_frame c s = ground arith

module _ {W : Type 0} (client : ClientInterface W) where
  reconcile_vlan_frame :
      (s : Clusters W)
      → let (r, s') = reconcile_vlan client s in
        (s'.object.spec ≡ s.object.spec)
        × (s'.object.meta ≡ s.object.meta)
        × (s'.object.status.ready ≡ s.object.status.ready)
        × ((uses_existing s.object ≡ false) ⊎ (vlan_writes s'.trace ≡ vlan_writes s.trace))
  unfolding reconcile_vlan use_existing_vlan ensure_vlan create_new_vlan
  reconcile_vlan_frame s = ground arith

  reconcile_infrastructure_frame :
      (s : Clusters W)
      → let (r, s') = reconcile_infrastructure client s in
        (s'.object.spec ≡ s.object.spec)
        × (s'.object.meta ≡ s.object.meta)
        × (s'.object.status.ready ≡ s.object.status.ready)
        × ((uses_existing s.object ≡ false) ⊎ (vlan_writes s'.trace ≡ vlan_writes s.trace))
  unfolding reconcile_infrastructure check_location
  reconcile_infrastructure_frame s = grind (arith, reconcile_vlan_frame)

  -- A network that the controller was told to use is not deleted.
  pub cleanup_infrastructure_frame :
      (s : Clusters W)
      → let (r, s') = cleanup_infrastructure client s in
        (s'.object ≡ s.object)
        × ((r ≡ ok tt) ⊎ (r ≡ panic))
        × ((uses_existing s.object ≡ false) ⊎ (vlan_writes s'.trace ≡ vlan_writes s.trace))
  unfolding cleanup_infrastructure cleanup_vlan
  cleanup_infrastructure_frame s = ground arith

  -- Without an error, the location is listed and the network is known.
  reconcile_vlan-has_network :
      (s : Clusters W)
      → (is_ok (reconcile_vlan client s).0 ≡ false)
        ⊎ (has_network (reconcile_vlan client s).1.object ≡ true)
  unfolding reconcile_vlan use_existing_vlan ensure_vlan create_new_vlan
  reconcile_vlan-has_network s = ground arith

  reconcile_infrastructure_ok :
      (s : Clusters W)
      → let (r, s') = reconcile_infrastructure client s in
        (is_ok r ≡ false)
        ⊎ ((has_network s'.object ≡ true)
            × (lists (client.get_available_regions s.outside).0 s.object.spec.location ≡ true))
  unfolding reconcile_infrastructure check_location
  reconcile_infrastructure_ok s = grind (arith, reconcile_vlan-has_network)

module _ {W : Type 0} (kube : Kube W) (client : ClientInterface W) (cluster : Cluster) where
  setup_frame :
      (s : Clusters W)
      → let (r, s') = setup_control_plane_endpoint kube cluster s in
        (s'.object.spec ≡ s.object.spec)
        × (s'.object.meta ≡ s.object.meta)
        × (s'.object.status.ready ≡ s.object.status.ready)
        × (s'.object.status.vlan_id ≡ s.object.status.vlan_id)
        × (vlan_writes s'.trace ≡ vlan_writes s.trace)
  unfolding setup_control_plane_endpoint search_endpoint endpoint_from_machine endpoint_from
      publish_endpoint
  setup_frame s = grind (arith, set_condition_frame)

  -- The last part of a run leaves the networks alone, and marks the cluster as ready or not.
  pub with_infrastructure_frame :
      (s : Clusters W)
      → let (r, s') = Reconcile.with_infrastructure kube client cluster s in
        (s'.object.spec ≡ s.object.spec)
        × (s'.object.status.vlan_id ≡ s.object.status.vlan_id)
        × (vlan_writes s'.trace ≡ vlan_writes s.trace)
        × (s'.object.meta ≡ s.object.meta)
  unfolding Reconcile.with_infrastructure Reconcile.discover_endpoint Reconcile.mark_ready
  with_infrastructure_frame s = grind (arith, set_condition_frame, setup_frame)

  pub infrastructure_failed_frame :
      (e : Error) (s : Clusters W)
      → let (r, s') = Reconcile.infrastructure_failed kube client e s in
        (s'.object.status.ready ≡ s.object.status.ready)
        × (vlan_writes s'.trace ≡ vlan_writes s.trace)
        × (s'.object.spec ≡ s.object.spec)
        × (s'.object.status.vlan_id ≡ s.object.status.vlan_id)
        × (s'.object.meta ≡ s.object.meta)
  unfolding Reconcile.infrastructure_failed
  infrastructure_failed_frame e s = grind (arith, set_condition_frame)

  reconcile_spec_frame :
      (s : Clusters W)
      → let (r, s') = Reconcile.reconcile_spec kube client cluster s in
        ((uses_existing s.object ≡ false) ⊎ (vlan_writes s'.trace ≡ vlan_writes s.trace))
        × ((s'.object.status.ready ≡ s.object.status.ready)
            ⊎ ((has_network s'.object ≡ true)
                × (lists (client.get_available_regions s.outside).0 s.object.spec.location ≡ true)))
  unfolding Reconcile.reconcile_spec
  reconcile_spec_frame s = grind (
    arith,
    set_condition_frame,
    validate_cluster_spec_frame s.object s,
    with_infrastructure_frame,
    infrastructure_failed_frame,
    reconcile_infrastructure_frame client s,
    reconcile_infrastructure_ok client s,
  )

  reconcile_delete_frame :
      (s : Clusters W)
      → let (r, s') = Reconcile.reconcile_delete kube client s in
        ((uses_existing s.object ≡ false) ⊎ (vlan_writes s'.trace ≡ vlan_writes s.trace))
        × (s'.object.status.ready ≡ s.object.status.ready)
  unfolding Reconcile.reconcile_delete
  reconcile_delete_frame s = grind (arith, set_condition_frame, cleanup_infrastructure_frame)

  -- A run on a cluster whose specification names an existing network asks for no network to be made
  -- or deleted. And where a run makes a cluster ready that was not, or the other way round, the API
  -- listed the cluster's location among its regions, and the network's id is recorded if the
  -- specification asks for a network.
  pub dispatch_lem :
      (s : Clusters W)
      → let (r, s') = Reconcile.dispatch kube client cluster s in
        ((uses_existing s.object ≡ false) ⊎ (vlan_writes s'.trace ≡ vlan_writes s.trace))
        × ((s'.object.status.ready ≡ s.object.status.ready)
            ⊎ ((has_network s'.object ≡ true)
                × (lists (client.get_available_regions s.outside).0 s.object.spec.location ≡ true)))
  unfolding Reconcile.dispatch Reconcile.reconcile_normal
  dispatch_lem s = ground (arith, reconcile_spec_frame s, reconcile_delete_frame s)
