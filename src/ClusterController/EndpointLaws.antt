-- ===== src/ClusterController/EndpointLaws.antt =====
-- What the cluster controller publishes as the endpoint of the control plane.
use cluster_api_provider_lat.Base.{
  true, false, Bool, ◌≡◌, ◌≢◌, ◌⊎◌, if◌then◌else◌, arith, ◌==◌, string_eq,
}
use cluster_api_provider_lat.Action.{ok, panic}
use cluster_api_provider_lat.Api.{LatitudeCluster, Cluster}
use cluster_api_provider_lat.Kube.{Kube, IsLawful}
use cluster_api_provider_lat.Latitude.{ClientInterface}
use cluster_api_provider_lat.ClusterController.ConditionLaws.{set_condition_frame}
use cluster_api_provider_lat.ClusterController.Networks.{Clusters}
use cluster_api_provider_lat.ClusterController.NetworkLaws.{cleanup_infrastructure_frame}
use cluster_api_provider_lat.ClusterController.Endpoint.{
  setup_control_plane_endpoint, search_endpoint, endpoint_from_machine, endpoint_from,
  publish_endpoint,
}
use cluster_api_provider_lat.ClusterController.Reconcile.{cluster_finalizer_name, reconcile_delete}
use cluster_api_provider_lat.MachineController.Reconcile.{requeue}

abbrev pub has_host : LatitudeCluster → Bool
has_host c = if c.status.control_plane_endpoint.host == "" then false else true

-- An endpoint that is set stays as it is, and then the search answers that it is set. Otherwise the
-- search sets a host that is not empty exactly if it answers so, and with port 6443; and if it does
-- not, the endpoint is as before.
pub setup_control_plane_endpoint_lem :
    {W : Type 0} (kube : Kube W) (cluster : Cluster) (s : Clusters W)
    → let (r, s') = setup_control_plane_endpoint kube cluster s in
      ((has_host s.object ≡ true) × (r ≡ ok true) × (s' ≡ s))
      ⊎ ((has_host s.object ≡ false)
          × (((r ≡ ok true)
                × (has_host s'.object ≡ true)
                × (s'.object.status.control_plane_endpoint.port ≡ 6443))
              ⊎ ((r ≢ ok true)
                  × (s'.object.status.control_plane_endpoint
                      ≡ s.object.status.control_plane_endpoint))))
unfolding setup_control_plane_endpoint search_endpoint endpoint_from_machine endpoint_from
    publish_endpoint
setup_control_plane_endpoint_lem kube cluster s = grind (arith, set_condition_frame)

-- If finalizers behave as controller-runtime documents, a run on a cluster that is being deleted
-- lets go of it whatever the API answers, also where the
-- deletion of its network has failed; only a panic keeps the finalizers.
pub reconcile_delete_releases :
    {W : Type 0} (kube : Kube W) (client : ClientInterface W)
    → IsLawful kube
    → (s : Clusters W)
    → let (r, s') = reconcile_delete kube client s in
      ((r ≡ ok (requeue 0))
        × (kube.contains_finalizer s'.object.meta.finalizers cluster_finalizer_name ≡ false))
      ⊎ ((r ≡ panic) × (s'.object ≡ s.object))
unfolding reconcile_delete
reconcile_delete_releases kube client lawful s =
    grind (arith, lawful.contains-remove, cleanup_infrastructure_frame client s)
