-- ===== src/Tests/RunExamples.antt =====
-- The theorems on whole runs, and on many of them, at concrete inputs.
use cluster_api_provider_lat.Base.{none, some, [], ◌≡◌, inl, refl, string_eq}
use cluster_api_provider_lat.Api.{LatitudeCluster}
use cluster_api_provider_lat.MachineController.Reconcile
use cluster_api_provider_lat.ClusterController.Reconcile.{dispatch}
use cluster_api_provider_lat.ClusterController.RunLaws.{
  IsOrdered, IsKept, Steps, done, later, run, Steps-IsOrdered,
}
use cluster_api_provider_lat.MachineController.Patching.{IsPatched, reconcile-IsPatched}
use cluster_api_provider_lat.ClusterController.NetworkLaws.{vlan_writes}
use cluster_api_provider_lat.ClusterController.NetworkRuns.{HasOwn, Runs, after_run, Runs-HasOwn}
use cluster_api_provider_lat.Base.{false, ◌∷◌}
use cluster_api_provider_lat.Action.{ok}
use cluster_api_provider_lat.World.{World, Call}
use cluster_api_provider_lat.ClusterController.Reconcile as Clusters
use cluster_api_provider_lat.ClusterController.Conditions.{
  validate_cluster_spec, set_condition, replace_condition,
}
use cluster_api_provider_lat.ClusterController.Networks.{
  reconcile_infrastructure, check_location, reconcile_vlan, ensure_vlan, create_new_vlan,
  cleanup_infrastructure, cleanup_vlan,
}
use cluster_api_provider_lat.ClusterController.Liveness.{is_finalized}
use cluster_api_provider_lat.ClusterController.Lifetime.{
  IsSteady, IsBalanced, deleted_at, makes_and_deletes_one_network,
}
use cluster_api_provider_lat.Tests.Fixtures.{
  Nothing, a_kube-IsLawful, existing_config, a_kube, a_client, world_of, capi_cluster, cluster_with,
}

abbrev a_cluster_run :
    Steps a_kube a_client
      (cluster_with none)
      (dispatch a_kube a_client capi_cluster (world_of (cluster_with none))).1.object
a_cluster_run = later done (run capi_cluster (world_of (cluster_with none)))

Steps-IsOrdered_example :
    let d = (dispatch a_kube a_client capi_cluster (world_of (cluster_with none))).1.object in
    IsOrdered d.status × IsKept (cluster_with none).status d.status
Steps-IsOrdered_example =
    Steps-IsOrdered a_kube a_client {c = cluster_with none} (inl refl) a_cluster_run

reconcile-IsPatched_example :
    let (r, s) =
      Reconcile.reconcile a_kube a_client (record { namespace = "default"; name = "cp-0" }) tt in
    IsPatched a_kube r s.object s.trace
reconcile-IsPatched_example =
    reconcile-IsPatched a_kube a_client (record { namespace = "default"; name = "cp-0" }) tt

abbrev networked : LatitudeCluster
networked = record (cluster_with none) {
  spec = record ((cluster_with none).spec) {
    vlan_config = some (record existing_config { existing_vlan_id = none });
  };
  status = record ((cluster_with none).status) { vlan_id = some "vlan_7" };
}

Runs-HasOwn_example :
    let t = after_run a_kube a_client capi_cluster tt networked [] in
    HasOwn "vlan_7" t.object × (vlan_writes t.trace ≡ [])
Runs-HasOwn_example =
    Runs-HasOwn a_kube a_client "vlan_7" (λ w. refl) {c = networked} {calls = []} (refl, refl, refl)
      (Runs.later capi_cluster tt Runs.done)

-- A cluster without a network, after one run and after two.
abbrev without_network : LatitudeCluster
without_network = record networked { status = (cluster_with none).status }

abbrev first_run : World Nothing LatitudeCluster
first_run = after_run a_kube a_client capi_cluster tt without_network []

abbrev second_run : World Nothing LatitudeCluster
second_run = after_run a_kube a_client capi_cluster tt first_run.object first_run.trace

a_client-IsSteady : IsSteady a_client
a_client-IsSteady = record { network_found = λ id w. refl; deletion_returns = λ id w. refl }

makes_and_deletes_one_network_example :
    let (r, s') = dispatch a_kube a_client capi_cluster (record {
      outside = tt;
      object = deleted_at 5 second_run.object;
      trace = second_run.trace;
    }) in
    (r ≡ ok (Reconcile.requeue 0))
    × (is_finalized a_kube s'.object ≡ false)
    × IsBalanced a_kube a_client a_client-IsSteady s'.trace
makes_and_deletes_one_network_example =
    makes_and_deletes_one_network a_kube a_client a_client-IsSteady a_kube-IsLawful
      {c = without_network} (refl, refl, refl)
      (Runs.later capi_cluster tt (Runs.later capi_cluster tt Runs.done)) capi_cluster tt 5 refl

-- The first run has made a network, which the run of the deleted cluster deletes.
network_of_a_life :
    vlan_writes
      (after_run a_kube a_client capi_cluster tt
        (deleted_at 5 first_run.object)
        first_run.trace).trace
    ≡ Call.delete_vlan "vlan_7"
      ∷ Call.create_vlan (record {
        project_id = "proj_1";
        site = "SAO2";
        subnet = "capl-demo-10.8.0.0/24";
        vid = none;
      })
      ∷ []
unfolding dispatch Clusters.reconcile_normal Clusters.reconcile_spec Clusters.reconcile_delete
    Clusters.with_infrastructure Clusters.mark_ready validate_cluster_spec set_condition
    replace_condition reconcile_infrastructure check_location reconcile_vlan ensure_vlan
    create_new_vlan cleanup_infrastructure cleanup_vlan
network_of_a_life = refl
