-- ===== src/MachineController/Liveness.antt =====
-- A world that answers, and what the parts of a run do in it.
pub mod Provision
pub mod Runs
use cluster_api_provider_lat.Base.{
  String, Bool, true, false, Option, none, some, List, [], ◌∷◌, ◌≡◌, ◌==◌, string_eq, arith, not,
  ◌&&◌, refl, ◌⊎◌,
}
use cluster_api_provider_lat.Action.{Outcome, ok, err, panic, is_ok, is_err, Result, value, error}
use cluster_api_provider_lat.Api.{
  NamespacedName, ObjectMeta, Secret, Machine, Cluster, LatitudeMachine, LatitudeCluster, lookup,
  has_key,
}
use cluster_api_provider_lat.Kube.{Kube}
use cluster_api_provider_lat.Latitude.{ServerSpec, Server, CreateUserDataRequest, ClientInterface}
use cluster_api_provider_lat.Scope.{get_bootstrap_data, get_raw_bootstrap_data, bootstrap_value}
use cluster_api_provider_lat.MachineController.Lookup.{
  control_plane_label, get_latitude_cluster, infrastructure_of, get_project_id, get_site,
  validate_machine_spec, any_failed_control_plane, check_control_plane_failed,
}
use cluster_api_provider_lat.MachineController.Server.{Machines, is_running}

abbrev pub panics : {A : Type 0} → Outcome A → Bool
panics (ok a) = false
panics (err e) = false
panics panic = true

abbrev pub has_id : Outcome Server → Bool
has_id (ok server) = not (server.id == "")
has_id (err e) = false
has_id panic = false

abbrev pub all_unfailed : List LatitudeMachine → Bool
all_unfailed [] = true
all_unfailed (m ∷ ms) = elim (m.status.failure_reason) [ none ↦ all_unfailed ms | some _ ↦ false ]

abbrev pub runs : Outcome Server → Bool
runs (ok server) = is_running server.status
runs (err e) = false
runs panic = false

-- A call has not panicked, and none of the machines that it has listed has failed.
abbrev pub no_failures : Outcome (List LatitudeMachine) → Bool
no_failures (ok ms) = all_unfailed ms
no_failures (err e) = true
no_failures panic = false

-- The metadata but for the finalizers, by which a machine stays the same object.
abbrev pub but_finalizers : ObjectMeta → ObjectMeta
but_finalizers m = record m { finalizers = [] }

-- Every question is answered, at any time: the machine with this metadata has an owner, with
-- bootstrap data and a site, in a cluster that has a project, and if the owner is not one of a
-- control plane, no machine that is listed has failed; Latitude.sh makes servers and user data, and
-- a server runs when it is asked for. Patches, attachments, the listing and the reads for other
-- machines may end with an error.
pub record IsWilling {W : Type 0} (kube : Kube W) (client : ClientInterface W) : Type 0 where
  pub meta : ObjectMeta
  pub machine : Machine
  pub cluster : Cluster
  pub latitude_cluster : LatitudeCluster
  pub secret : Secret
  pub owner_found :
      (m : ObjectMeta) (w : W)
      → but_finalizers m ≡ meta
      → (kube.get_owner_machine m w).0 ≡ ok (some machine)
  pub owner_returns : (m : ObjectMeta) (w : W) → panics (kube.get_owner_machine m w).0 ≡ false
  pub none_failed :
      has_key control_plane_label machine.meta.labels ≡ false
      → (namespace : String) (w : W)
      → no_failures (kube.list_latitude_machines namespace w).0 ≡ true
  pub site : String
  pub site_given : (machine.failure_domain ≡ some site) × ((site == "") ≡ false)
  pub secret_name : String
  pub secret_named : machine.data_secret_name ≡ some secret_name
  pub secret_found : (key : NamespacedName) (w : W) → (kube.get_secret key w).0 ≡ ok secret
  pub text : String
  pub text_given : (lookup "value" secret ≡ some text) × ((text == "") ≡ false)
  pub cluster_found :
      (w : W) → (kube.get_cluster_from_metadata machine.meta w).0 ≡ ok (some cluster)
  pub reference : NamespacedName
  pub reference_given : cluster.infrastructure_ref ≡ some reference
  pub latitude_cluster_found :
      (key : NamespacedName) (w : W) → (kube.get_latitude_cluster key w).0 ≡ ok latitude_cluster
  pub project : String
  pub project_given :
      (latitude_cluster.spec.project_ref ≡ some (record { project_id = project }))
      × ((project == "") ≡ false)
  pub helper_made : (m : LatitudeMachine) (w : W) → (kube.new_machine_helper m w).0 ≡ ok tt
  pub patch_returns : (m n : LatitudeMachine) (w : W) → panics (kube.patch_machine m n w).0 ≡ false
  pub user_data_made :
      (req : CreateUserDataRequest) (w : W) → is_ok (client.create_user_data req w).0 ≡ true
  pub server_made : (spec : ServerSpec) (w : W) → has_id (client.create_server spec w).0 ≡ true
  pub attachment_returns :
      (id vlan : String) (w : W) → panics (client.attach_server_to_vlan id vlan w).0 ≡ false
  pub server_runs : (id : String) (w : W) → runs (client.get_server id w).0 ≡ true

-- The specification names what a server needs, and no secret with keys.
abbrev pub IsSpecified : LatitudeMachine → Type 0
IsSpecified m =
    ((m.spec.operating_system == "") ≡ false)
    × ((m.spec.plan == "") ≡ false)
    × (m.spec.ssh_key_secret_ref ≡ none)

module _ {W : Type 0} (kube : Kube W) (client : ClientInterface W)
    (willing : IsWilling kube client) where
  -- The machine is the one whose owner is found.
  abbrev pub IsOwn : LatitudeMachine → Type 0
  IsOwn m = but_finalizers m.meta ≡ willing.meta

  pub get_latitude_cluster_found :
      (m : LatitudeMachine) (w : W)
      → IsOwn m
      → (get_latitude_cluster kube m w).0 ≡ ok (some willing.latitude_cluster)
  unfolding get_latitude_cluster infrastructure_of
  get_latitude_cluster_found m w own = grind (
    arith,
    willing.owner_found m.meta w own,
    willing.cluster_found,
    willing.reference_given,
    willing.latitude_cluster_found,
  )

  pub get_project_id_found :
      (m : LatitudeMachine) (w : W) → IsOwn m → (get_project_id kube m w).0 ≡ ok willing.project
  unfolding get_project_id
  get_project_id_found m w own =
      grind (arith, get_latitude_cluster_found m w own, willing.project_given)

  pub get_site_found :
      (m : LatitudeMachine) (w : W) → IsOwn m → (get_site kube m w).0 ≡ ok willing.site
  unfolding get_site
  get_site_found m w own = grind (arith, willing.owner_found m.meta w own, willing.site_given)

  pub validate_machine_spec_passes :
      (m : LatitudeMachine) (w : W)
      → IsOwn m
      → IsSpecified m
      → (validate_machine_spec kube m w).0 ≡ ok tt
  unfolding validate_machine_spec
  validate_machine_spec_passes m w own h = ground (
    arith,
    get_project_id_found m w own,
    get_site_found m (get_project_id kube m w).1 own,
    willing.project_given,
    willing.site_given,
  )

  any_failed_control_plane_clear :
      (ms : List LatitudeMachine) (w : W)
      → all_unfailed ms ≡ true
      → (any_failed_control_plane kube ms w).0 ≡ ok false
  unfolding any_failed_control_plane
  any_failed_control_plane_clear [] w h = refl
  any_failed_control_plane_clear (m ∷ ms) w h = ground (
    arith,
    willing.owner_returns m.meta w,
    any_failed_control_plane_clear ms (kube.get_owner_machine m.meta w).1,
  )

  -- The check for a failed control plane finds none, if it is made.
  pub check_control_plane_failed_clear :
      (m : LatitudeMachine) (w : W)
      → IsOwn m
      → has_key control_plane_label willing.machine.meta.labels ≡ false
      → let r = (check_control_plane_failed kube m w).0 in (r ≡ ok false) ⊎ (is_err r ≡ true)
  unfolding check_control_plane_failed
  check_control_plane_failed_clear m w own worker =
      let w' = (get_latitude_cluster kube m w).1 in
      grind (
        arith,
        get_latitude_cluster_found m w own,
        willing.none_failed worker m.meta.namespace w',
        any_failed_control_plane_clear,
      )

  pub get_bootstrap_data_found :
      (s : Machines W) → (get_bootstrap_data kube willing.machine s).0 ≡ ok willing.text
  unfolding get_bootstrap_data get_raw_bootstrap_data bootstrap_value
  get_bootstrap_data_found s =
      grind (arith, willing.secret_named, willing.secret_found, willing.text_given)
