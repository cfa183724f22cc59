-- ===== src/Tests/ClusterLivenessExamples.antt =====
-- A cluster gets ready in a small world.
use cluster_api_provider_lat.Base.{true, none, [], ◌∷◌, ◌≡◌, refl, string_eq}
use cluster_api_provider_lat.Api.{LatitudeCluster}
use cluster_api_provider_lat.ClusterController.Liveness.{IsWilling, after_run, becomes_ready}
use cluster_api_provider_lat.Tests.Fixtures.{
  a_kube, a_client, a_kube-IsLawful, capi_cluster, cluster_with,
}

abbrev a_willing : IsWilling a_client
a_willing = record {
  regions = "SAO2" ∷ [];
  regions_listed = λ w. refl;
  network_made = λ req w. refl;
  network_found = λ id w. refl;
}

abbrev new_cluster : LatitudeCluster
new_cluster = record (cluster_with none) {
  meta = record ((cluster_with none).meta) { finalizers = [] };
}

becomes_ready_example :
    (after_run a_kube a_client capi_cluster tt
      (after_run a_kube a_client capi_cluster tt new_cluster)).status.ready
    ≡ true
becomes_ready_example =
    becomes_ready a_kube a_client a_willing capi_cluster new_cluster tt tt a_kube-IsLawful
      ("proj_1", refl, refl, refl, refl) refl refl refl
