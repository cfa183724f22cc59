-- ===== src/Kube.antt =====
-- What the controllers take from controller-runtime and Cluster API: the API server's objects, the
-- patch helper, the clock, and operations on finalizers. `W` is the state of everything outside the
-- process, so that two reads may differ.
use cluster_api_provider_lat.Base.{ℕ, String, Bool, true, false, Option, List, ◌≡◌, ◌≢◌}
use cluster_api_provider_lat.Action.{Action}
use cluster_api_provider_lat.Api.{
  NamespacedName, ObjectMeta, Secret, Machine, Cluster, LatitudeMachine, LatitudeCluster,
}

pub record Kube (W : Type 0) : Type 0 where
  -- `r.Get`
  pub get_latitude_machine : NamespacedName → Action W LatitudeMachine
  pub get_latitude_cluster : NamespacedName → Action W LatitudeCluster
  pub get_secret : NamespacedName → Action W Secret
  -- `r.List` in a namespace; machines also by the label that names their cluster
  pub list_latitude_machines : String → Action W (List LatitudeMachine)
  pub list_machines : String → String → Action W (List Machine)
  -- `capiutil.GetOwnerMachine`, `GetClusterFromMetadata` and `GetOwnerCluster`
  pub get_owner_machine : ObjectMeta → Action W (Option Machine)
  pub get_cluster_from_metadata : ObjectMeta → Action W (Option Cluster)
  pub get_owner_cluster : ObjectMeta → Action W (Option Cluster)
  -- `util.IsControlPlaneMachine`
  pub is_control_plane_machine : Machine → Bool
  -- `patch.NewHelper`, and `Patch` from the object that the helper was made with
  pub new_machine_helper : LatitudeMachine → Action W (Unit {0})
  pub patch_machine : LatitudeMachine → LatitudeMachine → Action W (Unit {0})
  pub new_cluster_helper : LatitudeCluster → Action W (Unit {0})
  pub patch_cluster : LatitudeCluster → LatitudeCluster → Action W (Unit {0})
  -- `controllerutil`, on the object's list of finalizers
  pub contains_finalizer : List String → String → Bool
  pub add_finalizer : List String → String → List String
  pub remove_finalizer : List String → String → List String
  -- `metav1.Now`
  pub now : W → ℕ × W

-- What `controllerutil` documents.
pub record IsLawful {W : Type 0} (kube : Kube W) : Type 0 where
  pub contains-add :
      (fs : List String) (f : String) → kube.contains_finalizer (kube.add_finalizer fs f) f ≡ true
  pub contains-remove :
      (fs : List String) (f : String)
      → kube.contains_finalizer (kube.remove_finalizer fs f) f ≡ false
  pub contains-remove_ne :
      (fs : List String) (f g : String)
      → g ≢ f
      → kube.contains_finalizer (kube.remove_finalizer fs f) g ≡ kube.contains_finalizer fs g
