-- ===== src/ClusterController/Conditions.antt =====
-- `setCondition` and `validateClusterSpec` of latitudecluster_controller.go, with its constants.
use cluster_api_provider_lat.Base.{
  String, ◌<>◌, Bool, true, not, ◌||◌, none, some, List, [], ◌∷◌, ◌++◌,
}
use cluster_api_provider_lat.Base.{◌==◌, string_eq, if◌then◌else◌, Option}
use cluster_api_provider_lat.Go.Errors.{plain}
use cluster_api_provider_lat.Go.Strings.{join}
use cluster_api_provider_lat.Action.{Action, pure, fail}
use cluster_api_provider_lat.Api.{Condition, LatitudeCluster, ProjectRef}
use cluster_api_provider_lat.Kube.{Kube}
use cluster_api_provider_lat.World.{World, update}

abbrev pub cluster_ready_condition : String
cluster_ready_condition = "ClusterReady"

-- The first condition of the type is replaced if its status or reason changes, and kept as it is
-- otherwise; a new type comes last.
unfoldable pub replace_condition : Condition → List Condition → List Condition
replace_condition new [] = new ∷ []
replace_condition new (c ∷ cs) =
    if c.type == new.type
    then (if not (c.status == new.status) || not (c.reason == new.reason) then new else c) ∷ cs
    else c ∷ replace_condition new cs

abbrev pub with_conditions : List Condition → LatitudeCluster → LatitudeCluster
with_conditions cs c = record c { status = record c.status { conditions = cs } }

abbrev require : Bool → String → List String
require missing message = if missing then message ∷ [] else []

abbrev project_missing : Option ProjectRef → Bool
project_missing none = true
project_missing (some ref) = ref.project_id == ""

abbrev validation_result : {S : Type 0} → List String → Action S (Unit {0})
validation_result [] = pure tt
validation_result (e ∷ es) = fail (plain ("validation failed: " <> join (e ∷ es) ", "))

unfoldable pub validate_cluster_spec : {S : Type 0} → LatitudeCluster → Action S (Unit {0})
validate_cluster_spec c = validation_result (
    require (c.spec.location == "") "location is required"
    ++ require (project_missing c.spec.project_ref) "projectRef.projectID is required")

module _ {W : Type 0} (kube : Kube W) where
  -- The clock is read before the loop.
  unfoldable pub set_condition :
      String → String → String → String → Action (World W LatitudeCluster) (Unit {0})
  set_condition type status reason message s =
      let (time, w) = kube.now s.outside in
      update
        (λ c.
          with_conditions
            (replace_condition
              (record {
                type = type;
                status = status;
                reason = reason;
                message = message;
                observed_generation = 0;
                last_transition_time = time;
              })
              c.status.conditions)
            c)
        (record s { outside = w })
