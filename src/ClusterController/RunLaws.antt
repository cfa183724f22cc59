-- ===== src/ClusterController/RunLaws.antt =====
-- What stays true of a cluster over any sequence of runs of its controller.
use cluster_api_provider_lat.Base.{true, false, ◌≡◌, ◌⊎◌, ◌==◌, string_eq, nat_eq, arith}
use cluster_api_provider_lat.Go.Errors.{Error}
use cluster_api_provider_lat.Api.{Cluster, LatitudeCluster, LatitudeClusterStatus}
use cluster_api_provider_lat.Kube.{Kube}
use cluster_api_provider_lat.Latitude.{ClientInterface}
use cluster_api_provider_lat.ClusterController.ConditionLaws.{set_condition_frame}
use cluster_api_provider_lat.ClusterController.Networks.{
  Clusters, reconcile_vlan, use_existing_vlan, ensure_vlan, create_new_vlan, check_location,
  reconcile_infrastructure,
}
use cluster_api_provider_lat.ClusterController.NetworkLaws.{
  validate_cluster_spec_frame, cleanup_infrastructure_frame,
}
use cluster_api_provider_lat.ClusterController.Endpoint.{
  setup_control_plane_endpoint, search_endpoint, endpoint_from_machine, endpoint_from,
  publish_endpoint,
}
use cluster_api_provider_lat.ClusterController.Reconcile

-- An endpoint is there only on a ready cluster, and its port is that of the API server.
abbrev pub IsOrdered : LatitudeClusterStatus → Type 0
IsOrdered s =
    ((s.control_plane_endpoint.host == "") ≡ true)
    ⊎ ((s.ready ≡ true) × (s.control_plane_endpoint.port ≡ 6443))

-- The second keeps readiness and endpoint of the first, if it has them.
abbrev pub IsKept : LatitudeClusterStatus → LatitudeClusterStatus → Type 0
IsKept s t =
    ((s.ready ≡ false) ⊎ (t.ready ≡ true))
    × (((s.control_plane_endpoint.host == "") ≡ true)
        ⊎ (t.control_plane_endpoint ≡ s.control_plane_endpoint))

IsKept-refl : (s : LatitudeClusterStatus) → IsKept s s
IsKept-refl s = ground arith

IsKept-trans : (s t u : LatitudeClusterStatus) → IsKept s t → IsKept t u → IsKept s u
IsKept-trans s t u h k = ground (arith, h, k)

-- Neither readiness nor endpoint has changed.
abbrev IsSame : LatitudeClusterStatus → LatitudeClusterStatus → Type 0
IsSame s t = (t.ready ≡ s.ready) × (t.control_plane_endpoint ≡ s.control_plane_endpoint)

module _ {W : Type 0} (kube : Kube W) (client : ClientInterface W) where
  reconcile_vlan-IsSame :
      (s : Clusters W) → IsSame s.object.status (reconcile_vlan client s).1.object.status
  unfolding reconcile_vlan use_existing_vlan ensure_vlan create_new_vlan
  reconcile_vlan-IsSame s = ground arith

  reconcile_infrastructure-IsSame :
      (s : Clusters W) → IsSame s.object.status (reconcile_infrastructure client s).1.object.status
  unfolding reconcile_infrastructure check_location
  reconcile_infrastructure-IsSame s = grind (arith, reconcile_vlan-IsSame)

  reconcile_delete-IsSame :
      (s : Clusters W)
      → IsSame s.object.status (Reconcile.reconcile_delete kube client s).1.object.status
  unfolding Reconcile.reconcile_delete
  reconcile_delete-IsSame s =
      grind (arith, set_condition_frame, cleanup_infrastructure_frame client s)

  module _ (cluster : Cluster) where
    setup_endpoint :
        (s : Clusters W)
        → s.object.status.ready ≡ true
        → let t = (setup_control_plane_endpoint kube cluster s).1.object.status in
          (t.ready ≡ true)
          × (((s.object.status.control_plane_endpoint.host == "") ≡ true)
              ⊎ (t.control_plane_endpoint ≡ s.object.status.control_plane_endpoint))
          × ((t.control_plane_endpoint ≡ s.object.status.control_plane_endpoint)
              ⊎ (t.control_plane_endpoint.port ≡ 6443))
    unfolding setup_control_plane_endpoint search_endpoint endpoint_from_machine endpoint_from
        publish_endpoint
    setup_endpoint s h = grind (arith, set_condition_frame)

    with_infrastructure_step :
        (s : Clusters W)
        → IsOrdered s.object.status
        → let t = (Reconcile.with_infrastructure kube client cluster s).1.object.status in
          IsOrdered t × IsKept s.object.status t
    unfolding Reconcile.with_infrastructure Reconcile.discover_endpoint Reconcile.mark_ready
    with_infrastructure_step s h = grind (arith, set_condition_frame, setup_endpoint s)

    infrastructure_failed-IsSame :
        (e : Error) (s : Clusters W)
        → IsSame s.object.status (Reconcile.infrastructure_failed kube client e s).1.object.status
    unfolding Reconcile.infrastructure_failed
    infrastructure_failed-IsSame e s = grind (arith, set_condition_frame)

    reconcile_spec_step :
        (s : Clusters W)
        → IsOrdered s.object.status
        → let t = (Reconcile.reconcile_spec kube client cluster s).1.object.status in
          IsOrdered t × IsKept s.object.status t
    unfolding Reconcile.reconcile_spec
    reconcile_spec_step s h = grind (
      arith,
      set_condition_frame,
      validate_cluster_spec_frame s.object s,
      reconcile_infrastructure-IsSame s,
      with_infrastructure_step (reconcile_infrastructure client s).1,
      infrastructure_failed-IsSame,
    )

    -- One run: the endpoint and the readiness that a cluster has are kept, and it stays so that
    -- only a ready cluster has an endpoint.
    dispatch_step :
        (s : Clusters W)
        → IsOrdered s.object.status
        → let t = (Reconcile.dispatch kube client cluster s).1.object.status in
          IsOrdered t × IsKept s.object.status t
    unfolding Reconcile.dispatch Reconcile.reconcile_normal
    dispatch_step s h = ground (arith, reconcile_spec_step s h, reconcile_delete-IsSame s)

  -- A run, from any world; or an edit of the specification or the metadata.
  pub data Step : LatitudeCluster → LatitudeCluster → Type 0 where
    run :
        (cluster : Cluster) (s : Clusters W)
        → Step s.object (Reconcile.dispatch kube client cluster s).1.object
    edit : {c d : LatitudeCluster} → d.status ≡ c.status → Step c d

  pub data Steps : LatitudeCluster → LatitudeCluster → Type 0 where
    done : {c : LatitudeCluster} → Steps c c
    later : {c d e : LatitudeCluster} → Steps c d → Step d e → Steps c e

  Step-IsOrdered :
      {c d : LatitudeCluster}
      → Step c d
      → IsOrdered c.status
      → IsOrdered d.status × IsKept c.status d.status
  Step-IsOrdered (run cluster s) h = dispatch_step cluster s h
  Step-IsOrdered (edit {c = c} {d = d} same) h = rw same (h, IsKept-refl c.status)

  -- Over any sequence of runs, in whatever worlds, and of edits of the specification and the
  -- metadata, from a cluster on which an endpoint is there only if it is ready and has the port
  -- 6443 (a new one has none): this stays true, a cluster that is ready stays ready, and an
  -- endpoint that is set stays the same.
  pub Steps-IsOrdered :
      {c d : LatitudeCluster}
      → IsOrdered c.status
      → Steps c d
      → IsOrdered d.status × IsKept c.status d.status
  Steps-IsOrdered {c = c} h done = (h, IsKept-refl c.status)
  Steps-IsOrdered h (later {c = c} {d = d} {e = e} steps step) =
      let (ordered, kept) = Steps-IsOrdered h steps in
      let (ordered', kept') = Step-IsOrdered step ordered in
      (ordered', IsKept-trans c.status d.status e.status kept kept')
