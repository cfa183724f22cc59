-- ===== src/ClusterController/Networks.antt =====
-- `reconcileInfrastructure`, `reconcileVLAN`, `cleanupInfrastructure` and `cleanupVLAN` of
-- latitudecluster_controller.go.
use cluster_api_provider_lat.Base.{String, ◌<>◌, Bool, true, false, Option, none, some}
use cluster_api_provider_lat.Base.{List, contains, string_eq, if◌then◌else◌}
use cluster_api_provider_lat.Base.Int.{ℤ}
use cluster_api_provider_lat.Go.Errors.{plain}
use cluster_api_provider_lat.Go.Strings.{show_list, show_int}
use cluster_api_provider_lat.Action.{
  Action, value, error, pure, fail, attempt, wrapping, ◌>>=◌, when◌then◌else◌, ◌>>◌,
}
use cluster_api_provider_lat.Api.{LatitudeCluster, VlanConfig}
use cluster_api_provider_lat.Latitude.{Vlan, CreateVlanRequest, ClientInterface}
use cluster_api_provider_lat.World.{World, Call, perform, emit, the_object, update}

abbrev pub Clusters : Type 0 → Type 0
Clusters W = World W LatitudeCluster

abbrev pub with_vlan_id : Option String → LatitudeCluster → LatitudeCluster
with_vlan_id id c = record c { status = record c.status { vlan_id = id } }

abbrev pub with_vlan_vid : Option ℤ → LatitudeCluster → LatitudeCluster
with_vlan_vid vid c = record c { status = record c.status { vlan_vid = vid } }

abbrev pub vlan_description : LatitudeCluster → VlanConfig → String
vlan_description c config = "capl-" <> (c.meta.name <> ("-" <> config.subnet))

-- Whether the network is one that the controller did not make.
abbrev pub uses_existing : LatitudeCluster → Bool
uses_existing c = elim (c.spec.vlan_config) [
  | none ↦ false
  | some config ↦ elim (config.existing_vlan_id) [ none ↦ false | some id ↦ true ]
]

module _ {W : Type 0} (client : ClientInterface W) where
  -- The VID of a network that is there already is recorded once.
  abbrev pub record_vid : Vlan → Action (Clusters W) (Unit {0})
  record_vid vlan =
      update
        (λ c. elim (c.status.vlan_vid) [ none ↦ with_vlan_vid (some vlan.vid) c | some vid ↦ c ])

  unfoldable pub use_existing_vlan : String → Action (Clusters W) (Unit {0})
  use_existing_vlan id = do
    update (with_vlan_id (some id))
    c ← the_object
    elim (c.status.vlan_vid) [
      | some vid ↦ pure tt
      | none ↦
          wrapping "failed to get existing VLAN" (perform (Call.get_vlan id) (client.get_vlan id))
          >>= record_vid
    ]

  unfoldable pub create_new_vlan : VlanConfig → Action (Clusters W) (Unit {0})
  create_new_vlan config = the_object >>= λ c. elim (c.spec.project_ref) [
    | none ↦ fail (plain "projectRef is required for VLAN creation")
    | some ref ↦
        let request : CreateVlanRequest = record {
          project_id = ref.project_id;
          site = c.spec.location;
          subnet = vlan_description c config;
          vid = config.vid;
        } in
        wrapping "failed to create VLAN"
          (perform (Call.create_vlan request) (client.create_vlan request))
        >>= λ vlan.
            update (with_vlan_id (some vlan.id))
            >> update (with_vlan_vid (some vlan.vid))
            >> emit "Normal" "VLANCreated"
                ("Created VLAN " <> (vlan.id <> (" with VID " <> show_int vlan.vid)))
  ]

  -- A recorded network is kept if the API finds it; any error makes the code create another.
  unfoldable pub ensure_vlan : VlanConfig → Action (Clusters W) (Unit {0})
  ensure_vlan config = the_object >>= λ c. elim (c.status.vlan_id) [
    | none ↦ create_new_vlan config
    | some id ↦
        attempt (perform (Call.get_vlan id) (client.get_vlan id))
        >>= elim [ value vlan ↦ record_vid vlan | error e ↦ create_new_vlan config ]
  ]

  unfoldable pub reconcile_vlan : Action (Clusters W) (Unit {0})
  reconcile_vlan = the_object >>= λ c. elim (c.spec.vlan_config) [
    | none ↦ pure tt
    | some config ↦ elim (config.existing_vlan_id) [
      | some id ↦ use_existing_vlan id
      | none ↦ ensure_vlan config
    ]
  ]

  unfoldable pub check_location : List String → Action (Clusters W) (Unit {0})
  check_location regions = the_object >>= λ c.
      when contains regions c.spec.location
      then pure tt
      else fail (
          plain (
            "location "
            <> (c.spec.location
                <> (" is not available, available regions: " <> show_list regions))))

  unfoldable pub reconcile_infrastructure : Action (Clusters W) (Unit {0})
  reconcile_infrastructure = do
    regions ←
        wrapping "failed to get available regions"
          (perform Call.get_available_regions client.get_available_regions)
    check_location regions
    wrapping "failed to reconcile VLAN" reconcile_vlan

  unfoldable pub cleanup_vlan : Action (Clusters W) (Unit {0})
  cleanup_vlan = the_object >>= λ c. elim (c.status.vlan_id) [
    | none ↦ pure tt
    | some id ↦
        when uses_existing c
        then pure tt
        else perform (Call.delete_vlan id) (client.delete_vlan id)
          >> emit "Normal" "VLANDeleted" ("Deleted VLAN " <> id)
  ]

  -- The error of the network's deletion is logged only.
  unfoldable pub cleanup_infrastructure : Action (Clusters W) (Unit {0})
  cleanup_infrastructure = attempt cleanup_vlan >>= λ _. pure tt
