-- ===== src/ClusterController/Liveness.antt =====
-- In a world that answers, a new cluster gets ready in two runs.
use cluster_api_provider_lat.Base.{
  String, contains, Bool, true, false, some, List, [], ◌∷◌, ◌≡◌, ◌==◌, string_eq, arith,
}
use cluster_api_provider_lat.Action.{ok, is_ok}
use cluster_api_provider_lat.Api.{Cluster, LatitudeCluster, LatitudeClusterSpec, is_deleted}
use cluster_api_provider_lat.Kube.{Kube, IsLawful}
use cluster_api_provider_lat.Latitude.{CreateVlanRequest, ClientInterface}
use cluster_api_provider_lat.World.{Call}
use cluster_api_provider_lat.ClusterController.Conditions.{validate_cluster_spec}
use cluster_api_provider_lat.ClusterController.ConditionLaws.{set_condition_frame}
use cluster_api_provider_lat.ClusterController.Networks.{
  Clusters, reconcile_vlan, use_existing_vlan, ensure_vlan, create_new_vlan, check_location,
  reconcile_infrastructure,
}
use cluster_api_provider_lat.ClusterController.Reconcile

-- Every question is answered, at any time: Latitude.sh lists its regions, makes networks and finds
-- them.
pub record IsWilling {W : Type 0} (client : ClientInterface W) : Type 0 where
  pub regions : List String
  pub regions_listed : (w : W) → (client.get_available_regions w).0 ≡ ok regions
  pub network_made : (req : CreateVlanRequest) (w : W) → is_ok (client.create_vlan req w).0 ≡ true
  pub network_found : (id : String) (w : W) → is_ok (client.get_vlan id w).0 ≡ true

-- The specification has a project and a location that is listed.
abbrev pub IsSpecified : List String → LatitudeClusterSpec → Type 0
IsSpecified regions spec =
    (project : String) × (spec.project_ref ≡ some (record { project_id = project }))
    × ((project == "") ≡ false)
    × ((spec.location == "") ≡ false)
    × (contains regions spec.location ≡ true)

abbrev pub is_finalized : {W : Type 0} → Kube W → LatitudeCluster → Bool
is_finalized kube c = kube.contains_finalizer c.meta.finalizers Reconcile.cluster_finalizer_name

abbrev pub start : {W : Type 0} → W → LatitudeCluster → Clusters W
start w c = record { outside = w; object = c; trace = [] }

module _ {W : Type 0} (kube : Kube W) (client : ClientInterface W) where
  -- The cluster after a run, as the next run reads it when the patch has succeeded.
  abbrev pub after_run : Cluster → W → LatitudeCluster → LatitudeCluster
  after_run cluster w c = (Reconcile.dispatch kube client cluster (start w c)).1.object

module _ {W : Type 0} (kube : Kube W) (client : ClientInterface W)
    (willing : IsWilling client) where
  reconcile_vlan_done :
      (s : Clusters W)
      → IsSpecified willing.regions s.object.spec
      → ((reconcile_vlan client s).0 ≡ ok tt)
        × ((reconcile_vlan client s).1.object.status.ready ≡ s.object.status.ready)
  unfolding reconcile_vlan use_existing_vlan ensure_vlan create_new_vlan
  reconcile_vlan_done s (project, given, named, located, listed) =
      grind (arith, given, willing.network_made, willing.network_found)

  reconcile_infrastructure_done :
      (s : Clusters W)
      → IsSpecified willing.regions s.object.spec
      → ((reconcile_infrastructure client s).0 ≡ ok tt)
        × ((reconcile_infrastructure client s).1.object.status.ready ≡ s.object.status.ready)
  unfolding reconcile_infrastructure check_location
  reconcile_infrastructure_done s h =
      let (project, given, named, located, listed) = h in
      let t : Clusters W = record {
        outside = (client.get_available_regions s.outside).1;
        object = s.object;
        trace = Call.get_available_regions ∷ s.trace;
      } in
      ground (arith, willing.regions_listed s.outside, listed, reconcile_vlan_done t h)

  validate_cluster_spec_passes :
      {S : Type 0} (c : LatitudeCluster) (s : S)
      → IsSpecified willing.regions c.spec
      → (validate_cluster_spec c s) ≡ (ok tt, s)
  unfolding validate_cluster_spec
  validate_cluster_spec_passes c s (project, given, named, located, listed) =
      ground (arith, given, named, located)

  module _ (cluster : Cluster) where
    run_readies :
        (s : Clusters W)
        → IsSpecified willing.regions s.object.spec
        → is_deleted s.object.meta ≡ false
        → is_finalized kube s.object ≡ true
        → s.object.status.ready ≡ false
        → (Reconcile.dispatch kube client cluster s).1.object.status.ready ≡ true
    unfolding Reconcile.dispatch Reconcile.reconcile_normal Reconcile.reconcile_spec
        Reconcile.with_infrastructure Reconcile.mark_ready
    run_readies s h kept finalized unready = grind (
      arith,
      set_condition_frame,
      validate_cluster_spec_passes s.object s h,
      reconcile_infrastructure_done s h,
    )

    run_adds_finalizer :
        (s : Clusters W)
        → IsLawful kube
        → is_deleted s.object.meta ≡ false
        → is_finalized kube s.object ≡ false
        → let c = (Reconcile.dispatch kube client cluster s).1.object in
          (c.spec ≡ s.object.spec)
          × (c.status ≡ s.object.status)
          × (is_deleted c.meta ≡ false)
          × (is_finalized kube c ≡ true)
    unfolding Reconcile.dispatch Reconcile.reconcile_normal
    run_adds_finalizer s lawful kept fresh =
        ground
          (arith, lawful.contains-add s.object.meta.finalizers Reconcile.cluster_finalizer_name)

  -- In a world that answers every question, where finalizers behave as controller-runtime
  -- documents: a new cluster, which is not being deleted, and whose specification has a project and
  -- a listed location, is ready after two runs, whatever happens outside between them.
  pub becomes_ready :
      (cluster : Cluster) (c : LatitudeCluster) (w w' : W)
      → IsLawful kube
      → IsSpecified willing.regions c.spec
      → is_deleted c.meta ≡ false
      → is_finalized kube c ≡ false
      → c.status.ready ≡ false
      → (after_run kube client cluster w' (after_run kube client cluster w c)).status.ready ≡ true
  becomes_ready cluster c w w' lawful specified kept fresh unready =
      let d = after_run kube client cluster w c in
      let (spec, status, kept', finalized) =
        run_adds_finalizer cluster (start w c) lawful kept fresh in
      run_readies cluster (start w' d) (rw spec specified) kept' finalized (rw status unready)
