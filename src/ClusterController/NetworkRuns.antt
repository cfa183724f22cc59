-- ===== src/ClusterController/NetworkRuns.antt =====
-- The network of a cluster over many runs of its controller.
use cluster_api_provider_lat.Base.{String, false, some, List, ◌≡◌, arith, refl, ◌∙◌}
use cluster_api_provider_lat.Action.{is_err}
use cluster_api_provider_lat.Api.{Cluster, LatitudeCluster, is_deleted}
use cluster_api_provider_lat.Kube.{Kube}
use cluster_api_provider_lat.Latitude.{ClientInterface}
use cluster_api_provider_lat.World.{Call}
use cluster_api_provider_lat.ClusterController.ConditionLaws.{set_condition_frame}
use cluster_api_provider_lat.ClusterController.Networks.{
  Clusters, uses_existing, reconcile_vlan, use_existing_vlan, ensure_vlan, create_new_vlan,
  check_location, reconcile_infrastructure,
}
use cluster_api_provider_lat.ClusterController.NetworkLaws.{
  vlan_writes, validate_cluster_spec_frame, with_infrastructure_frame, infrastructure_failed_frame,
}
use cluster_api_provider_lat.ClusterController.Reconcile

-- The cluster is not going, and has this network as one of its own.
abbrev pub HasOwn : String → LatitudeCluster → Type 0
HasOwn id c = (is_deleted c.meta ≡ false) × (uses_existing c ≡ false) × (c.status.vlan_id ≡ some id)

-- The cluster is as before but for its conditions, its endpoint and the like, and no network was
-- asked to be made or deleted.
abbrev pub IsQuiet : {W : Type 0} → Clusters W → Clusters W → Type 0
IsQuiet s t =
    (t.object.spec ≡ s.object.spec)
    × (t.object.meta.deletion_timestamp ≡ s.object.meta.deletion_timestamp)
    × (t.object.status.vlan_id ≡ s.object.status.vlan_id)
    × (vlan_writes t.trace ≡ vlan_writes s.trace)

module _ {W : Type 0} (kube : Kube W) (client : ClientInterface W) where
  -- A run from a world, with the calls that were made before.
  abbrev pub after_run : Cluster → W → LatitudeCluster → List Call → Clusters W
  after_run cluster w c calls =
      (Reconcile.dispatch kube client cluster (record { outside = w; object = c; trace = calls })).1

  -- Runs one after another, each from a world of its own; the calls are those of all of them.
  pub data Runs : LatitudeCluster → List Call → LatitudeCluster → List Call → Type 0 where
    done : {c : LatitudeCluster} {calls : List Call} → Runs c calls c calls
    later :
        {c d : LatitudeCluster} {calls calls' : List Call} (cluster : Cluster) (w : W)
        → Runs c calls d calls'
        → Runs c calls (after_run cluster w d calls').object (after_run cluster w d calls').trace

module _ {W : Type 0} (kube : Kube W) (client : ClientInterface W) (id : String)
    (finds : (w : W) → is_err (client.get_vlan id w).0 ≡ false) where
  reconcile_vlan-IsQuiet :
      (s : Clusters W) → HasOwn id s.object → IsQuiet s (reconcile_vlan client s).1
  unfolding reconcile_vlan use_existing_vlan ensure_vlan create_new_vlan
  reconcile_vlan-IsQuiet s h = ground (arith, h, finds s.outside)

  reconcile_infrastructure-IsQuiet :
      (s : Clusters W) → HasOwn id s.object → IsQuiet s (reconcile_infrastructure client s).1
  unfolding reconcile_infrastructure check_location
  reconcile_infrastructure-IsQuiet s h = grind (arith, reconcile_vlan-IsQuiet)

  module _ (cluster : Cluster) where
    reconcile_spec-IsQuiet :
        (s : Clusters W)
        → HasOwn id s.object
        → IsQuiet s (Reconcile.reconcile_spec kube client cluster s).1
    unfolding Reconcile.reconcile_spec
    reconcile_spec-IsQuiet s h = grind (
      arith,
      set_condition_frame,
      validate_cluster_spec_frame s.object s,
      with_infrastructure_frame kube client cluster (reconcile_infrastructure client s).1,
      infrastructure_failed_frame kube client cluster,
      reconcile_infrastructure-IsQuiet s h,
    )

    pub dispatch-IsQuiet :
        (s : Clusters W)
        → HasOwn id s.object
        → IsQuiet s (Reconcile.dispatch kube client cluster s).1
    unfolding Reconcile.dispatch Reconcile.reconcile_normal
    dispatch-IsQuiet s h = ground (arith, h, reconcile_spec-IsQuiet s h)

  pub quiet-HasOwn : (s t : Clusters W) → HasOwn id s.object → IsQuiet s t → HasOwn id t.object
  quiet-HasOwn s t h q = ground (arith, h, q)

  -- If the API finds the recorded network whenever it is asked: over any sequence of runs of a
  -- cluster that is not being deleted, is not told to use an existing network, and has a network
  -- recorded, this one stays recorded, and no network is asked to be made or deleted.
  pub Runs-HasOwn :
      {c d : LatitudeCluster} {calls calls' : List Call}
      → HasOwn id c
      → Runs kube client c calls d calls'
      → HasOwn id d × (vlan_writes calls' ≡ vlan_writes calls)
  Runs-HasOwn h done = (h, refl)
  Runs-HasOwn h (later {d = d} {calls' = calls'} cluster w runs) =
      let s : Clusters W = record { outside = w; object = d; trace = calls' } in
      let (kept, same) = Runs-HasOwn h runs in
      let quiet = dispatch-IsQuiet cluster s kept in
      let (spec, time, network, writes) = quiet in
      (quiet-HasOwn s (Reconcile.dispatch kube client cluster s).1 kept quiet, writes ∙ same)
