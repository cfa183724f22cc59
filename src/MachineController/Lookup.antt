-- ===== src/MachineController/Lookup.antt =====
-- The reads of latitudemachine_controller.go: `getLatitudeCluster`, `getProjectID`, `getSite`,
-- `validateMachineSpec`, `checkControlPlaneFailed` and `getHostname`.
use cluster_api_provider_lat.Base.{String, ◌<>◌, Bool, true, false, ◌&&◌, Option, none, some}
use cluster_api_provider_lat.Base.{List, [], ◌∷◌, ◌++◌, ◌==◌, string_eq, if◌then◌else◌}
use cluster_api_provider_lat.Go.Errors.{plain}
use cluster_api_provider_lat.Go.Strings.{join}
use cluster_api_provider_lat.Action.{
  Action, Result, value, error, pure, fail, deref, attempt, wrapping, ◌>>=◌, when◌then◌else◌,
}
use cluster_api_provider_lat.Api.{Machine, Cluster, LatitudeMachine, LatitudeCluster, has_key}
use cluster_api_provider_lat.Kube.{Kube}

abbrev pub control_plane_label : String
control_plane_label = "cluster.x-k8s.io/control-plane"

unfoldable pub get_hostname : LatitudeMachine → String
get_hostname m = m.meta.namespace <> ("-" <> m.meta.name)

abbrev is_some : Option String → Bool
is_some none = false
is_some (some s) = true

-- A machine in the list counts if its owner has the label and it has failed.
abbrev pub is_failed_control_plane : Result (Option Machine) → LatitudeMachine → Bool
is_failed_control_plane (error e) m = false
is_failed_control_plane (value none) m = false
is_failed_control_plane (value (some owner)) m =
    has_key control_plane_label owner.meta.labels && is_some m.status.failure_reason

abbrev pub require : Bool → String → List String
require missing message = if missing then message ∷ [] else []

abbrev pub validation_result : {S : Type 0} → List String → Action S (Unit {0})
validation_result [] = pure tt
validation_result (e ∷ es) = fail (plain ("validation failed: " <> join (e ∷ es) ", "))

abbrev project_of : Result (Option LatitudeCluster) → String
project_of (error e) = ""
project_of (value none) = ""
project_of (value (some cluster)) = elim (cluster.spec.project_ref) [
  | none ↦ ""
  | some ref ↦ ref.project_id
]

abbrev location_of : Result (Option LatitudeCluster) → String
location_of (error e) = ""
location_of (value none) = ""
location_of (value (some cluster)) = cluster.spec.location

abbrev failure_domain_of : Option Machine → Option String
failure_domain_of none = none
failure_domain_of (some owner) = owner.failure_domain

module _ {W : Type 0} (kube : Kube W) where
  -- The LatitudeCluster that a cluster names.
  unfoldable pub infrastructure_of : Cluster → Action W (Option LatitudeCluster)
  infrastructure_of cluster = do
    ref ← deref cluster.infrastructure_ref
    found ←
        wrapping "get LatitudeCluster" (
          kube.get_latitude_cluster
            (record { namespace = cluster.meta.namespace; name = ref.name }))
    pure (some found)

  -- From the owner of the machine to its cluster and on; `none` is the nil result without error.
  unfoldable pub get_latitude_cluster : LatitudeMachine → Action W (Option LatitudeCluster)
  get_latitude_cluster m = do
    owner ← wrapping "get owner Machine" (kube.get_owner_machine m.meta)
    elim owner [
      | none ↦ pure none
      | some machine ↦ do
        cluster ← wrapping "get cluster from Machine" (kube.get_cluster_from_metadata machine.meta)
        elim cluster [ none ↦ pure none | some c ↦ infrastructure_of c ]
    ]

  unfoldable pub get_project_id : LatitudeMachine → Action W String
  get_project_id m = do found ← attempt (get_latitude_cluster m); pure (project_of found)

  unfoldable pub get_site : LatitudeMachine → Action W String
  get_site m = attempt (kube.get_owner_machine m.meta) >>= elim [
    | error e ↦ pure ""
    | value owner ↦ elim (failure_domain_of owner) [
      | some domain ↦ pure domain
      | none ↦ attempt (get_latitude_cluster m) >>= λ found. pure (location_of found)
    ]
  ]

  unfoldable pub validate_machine_spec : LatitudeMachine → Action W (Unit {0})
  validate_machine_spec m = do
    project ← get_project_id m
    site ← get_site m
    validation_result (
        require (m.spec.operating_system == "") "operatingSystem is required"
        ++ (require (m.spec.plan == "") "plan is required"
            ++ (require (project == "") "projectID is required"
                ++ require (site == "") "site is required")))

  -- The loop over the machines of the namespace, which stops at the first hit.
  unfoldable pub any_failed_control_plane : List LatitudeMachine → Action W Bool
  any_failed_control_plane [] = pure false
  any_failed_control_plane (m ∷ ms) =
      let rest = any_failed_control_plane ms in
      attempt (kube.get_owner_machine m.meta) >>= λ owner.
      when is_failed_control_plane owner m then pure true else rest

  unfoldable pub check_control_plane_failed : LatitudeMachine → Action W Bool
  check_control_plane_failed m = get_latitude_cluster m >>= elim [
    | none ↦ pure false
    | some cluster ↦ do
      machines ←
          wrapping "failed to list LatitudeMachines" (kube.list_latitude_machines m.meta.namespace)
      any_failed_control_plane machines
  ]
