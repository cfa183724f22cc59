-- ===== src/ClusterController/Reconcile.antt =====
-- `Reconcile`, `reconcileNormal` and `reconcileDelete` of latitudecluster_controller.go.
use cluster_api_provider_lat.Base.{String, ◌<>◌, true, false, Option, none, some}
use cluster_api_provider_lat.Base.{List, [], if◌then◌else◌}
use cluster_api_provider_lat.Go.Errors.{Error, error_text, is_not_found}
use cluster_api_provider_lat.Go.Strings.{decimal}
use cluster_api_provider_lat.Action.{
  Action, Outcome, ok, err, panic, value, error, pure, fail, attempt, ◌>>=◌, when◌then◌else◌, ◌>>◌,
}
use cluster_api_provider_lat.Api.{
  NamespacedName, Cluster, LatitudeCluster, is_deleted, condition_true, condition_false,
}
use cluster_api_provider_lat.Kube.{Kube}
use cluster_api_provider_lat.Latitude.{ClientInterface}
use cluster_api_provider_lat.World.{World, Call, perform, emit, the_object, update}
use cluster_api_provider_lat.MachineController.Reconcile.{CtrlResult, requeue, after_patch}
use cluster_api_provider_lat.ClusterController.Conditions.{
  set_condition, cluster_ready_condition, validate_cluster_spec,
}
use cluster_api_provider_lat.ClusterController.Networks.{
  Clusters, reconcile_infrastructure, cleanup_infrastructure,
}
use cluster_api_provider_lat.ClusterController.Endpoint.{setup_control_plane_endpoint}

abbrev pub cluster_finalizer_name : String
cluster_finalizer_name = "latitudecluster.infrastructure.cluster.x-k8s.io"

abbrev pub with_finalizers : List String → LatitudeCluster → LatitudeCluster
with_finalizers fs c = record c { meta = record c.meta { finalizers = fs } }

abbrev endpoint_text : LatitudeCluster → String
endpoint_text c =
    c.status.control_plane_endpoint.host <> (":" <> decimal c.status.control_plane_endpoint.port)

module _ {W : Type 0} (kube : Kube W) (client : ClientInterface W) where
  abbrev not_ready : String → String → Action (Clusters W) (Unit {0})
  not_ready reason message =
      set_condition kube cluster_ready_condition condition_false reason message

  -- The result beside the error is not read by controller-runtime.
  unfoldable pub infrastructure_failed : Error → Action (Clusters W) CtrlResult
  infrastructure_failed e = do
    not_ready "ClusterProvisionFailed" (error_text e)
    emit "Warning" "FailedInfrastructure"
        ("Failed to setup cluster infrastructure: " <> error_text e)
    fail e

  unfoldable pub mark_ready : Action (Clusters W) CtrlResult
  mark_ready = do
    update (λ c. record c { status = record c.status { ready = true } })
    set_condition kube cluster_ready_condition condition_true "ClusterReady"
        "Cluster infrastructure is ready"
    pure (requeue 0)

  unfoldable pub discover_endpoint : Cluster → Action (Clusters W) CtrlResult
  discover_endpoint cluster = attempt (setup_control_plane_endpoint kube cluster) >>= elim [
    | error e ↦ pure (requeue 15)
    | value false ↦ pure (requeue 15)
    | value true ↦ the_object >>= λ c.
        emit "Normal" "SuccessfulInfrastructure"
          ("Cluster infrastructure is ready with endpoint " <> endpoint_text c)
        >> pure (requeue 0)
  ]

  unfoldable pub with_infrastructure : Cluster → Action (Clusters W) CtrlResult
  with_infrastructure cluster =
      the_object >>= λ c. when c.status.ready then discover_endpoint cluster else mark_ready

  unfoldable pub reconcile_spec : Cluster → Action (Clusters W) CtrlResult
  reconcile_spec cluster = do
    c ← the_object
    attempt (validate_cluster_spec c) >>= elim [
      | error e ↦ not_ready "InvalidClusterConfig" (error_text e) >> pure (requeue 0)
      | value _ ↦
          attempt (reconcile_infrastructure client)
          >>= elim [ error e ↦ infrastructure_failed e | value _ ↦ with_infrastructure cluster ]
    ]

  unfoldable pub reconcile_normal : Cluster → Action (Clusters W) CtrlResult
  reconcile_normal cluster = the_object >>= λ c.
      when kube.contains_finalizer c.meta.finalizers cluster_finalizer_name
      then reconcile_spec cluster
      else update
          (λ o. with_finalizers (kube.add_finalizer o.meta.finalizers cluster_finalizer_name) o)
        >> pure (requeue 0)

  unfoldable pub reconcile_delete : Action (Clusters W) CtrlResult
  reconcile_delete = attempt (cleanup_infrastructure client) >>= elim [
    | error e ↦
        not_ready "ClusterDeletionFailed" (error_text e)
        >> emit "Warning" "FailedCleanup"
            ("Failed to cleanup cluster infrastructure: " <> error_text e)
        >> pure (requeue 30)
    | value _ ↦
        update
          (λ c. with_finalizers (kube.remove_finalizer c.meta.finalizers cluster_finalizer_name) c)
        >> emit "Normal" "SuccessfulCleanup" "Cluster infrastructure cleaned up"
        >> pure (requeue 0)
  ]

  unfoldable pub dispatch : Cluster → Action (Clusters W) CtrlResult
  dispatch cluster =
      the_object >>= λ c. when is_deleted c.meta then reconcile_delete else reconcile_normal cluster

  -- The deferred patch runs however the body ends.
  unfoldable pub with_deferred_patch :
      LatitudeCluster → Action (Clusters W) CtrlResult → Action (Clusters W) CtrlResult
  with_deferred_patch before body s =
      let (r, s') = body s in
      let (p, s'') =
        perform (Call.patch_cluster s'.object) (kube.patch_cluster before s'.object) s' in
      (after_patch r p, s'')

  abbrev started : W → LatitudeCluster → Clusters W
  started w c = record { outside = w; object = c; trace = [] }

  abbrev with_object :
      Outcome CtrlResult × Clusters W → Outcome CtrlResult × World W (Option LatitudeCluster)
  with_object (r, s) = (r, record { outside = s.outside; object = some s.object; trace = s.trace })

  abbrev without_object :
      Outcome CtrlResult → W → Outcome CtrlResult × World W (Option LatitudeCluster)
  without_object r w = (r, record { outside = w; object = none; trace = [] })

  -- With an owner: the object is held, and the deferred patch is set up.
  unfoldable pub reconcile_owned :
      LatitudeCluster → Cluster → W → Outcome CtrlResult × World W (Option LatitudeCluster)
  reconcile_owned c cluster w =
      let (helper, w') = kube.new_cluster_helper c w in
      elim helper [
        | panic ↦ without_object panic w'
        | err e ↦ without_object (err e) w'
        | ok _ ↦ with_object (with_deferred_patch c (dispatch cluster) (started w' c))
      ]

  -- The object is `none` if the run ended before it had one to change.
  unfoldable pub reconcile :
      NamespacedName → W → Outcome CtrlResult × World W (Option LatitudeCluster)
  reconcile req w =
      let (found, w1) = kube.get_latitude_cluster req w in
      elim found [
        | panic ↦ without_object panic w1
        | err e ↦ without_object (if is_not_found e then ok (requeue 0) else err e) w1
        | ok c ↦
            let (owner, w2) = kube.get_owner_cluster c.meta w1 in
            elim owner [
              | panic ↦ without_object panic w2
              | err e ↦ without_object (err e) w2
              | ok none ↦ without_object (ok (requeue 10)) w2
              | ok (some cluster) ↦ reconcile_owned c cluster w2
            ]
      ]
