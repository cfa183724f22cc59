-- ===== src/Latitude/Client/Vlans.antt =====
-- internal/latitude/client.go: virtual networks.
use cluster_api_provider_lat.Base.{String, ◌<>◌, Option, none, some, ◌||◌}
use cluster_api_provider_lat.Base.{List, [], ◌∷◌, ◌==◌, string_eq, if◌then◌else◌}
use cluster_api_provider_lat.Base.Int.{ℤ, pos}
use cluster_api_provider_lat.Go.Errors.{plain, wrapped, error_text}
use cluster_api_provider_lat.Go.Strings.{contains_text, to_lower}
use cluster_api_provider_lat.Action.{
  Action, Result, value, error, pure, fail, deref, attempt, wrapping, fail_if, ◌>>=◌,
  when◌then◌else◌, ◌>>◌,
}
use cluster_api_provider_lat.Latitude.Types.{Vlan, CreateVlanRequest}
use cluster_api_provider_lat.Latitude.Sdk.{Sdk, VlanAttributes, VlanData, VlanBody, VlanObject}

abbrev vid_of : Option VlanAttributes → ℤ
vid_of none = pos 0
vid_of (some attrs) = elim (attrs.vid) [ none ↦ pos 0 | some v ↦ v ]

abbrev description_of : Option VlanAttributes → String
description_of none = ""
description_of (some attrs) = elim (attrs.description) [ none ↦ "" | some d ↦ d ]

-- The first network with this description, which the `Subnet` field holds.
unfoldable pub find_by_subnet : String → List Vlan → Option Vlan
find_by_subnet subnet [] = none
find_by_subnet subnet (v ∷ vs) = if v.subnet == subnet then some v else find_by_subnet subnet vs

abbrev reusable : Result (List Vlan) → String → Option Vlan
reusable (value vs) subnet = find_by_subnet subnet vs
reusable (error e) subnet = none

unfoldable pub created_vlan : {W : Type 0} → CreateVlanRequest → Option VlanBody → Action W Vlan
created_vlan req none = fail (plain "empty response from VLAN creation")
created_vlan req (some body) = elim (body.contents) [
  | none ↦ fail (plain "empty response from VLAN creation")
  | some contents ↦ deref contents.id >>= λ id. pure (record {
    id = id;
    vid = vid_of contents.attributes;
    subnet = req.subnet;
    project = req.project_id;
  })
]

unfoldable pub found_vlan : {W : Type 0} → String → Option VlanObject → Action W Vlan
found_vlan vlan_id none = fail (plain ("VLAN not found: " <> vlan_id))
found_vlan vlan_id (some object) = elim (object.contents) [
  | none ↦ fail (plain ("VLAN not found: " <> vlan_id))
  | some body ↦ elim (body.contents) [
    | none ↦ fail (plain ("VLAN not found: " <> vlan_id))
    | some contents ↦ deref contents.id >>= λ id. pure (record {
      id = id;
      vid = vid_of contents.attributes;
      subnet = description_of contents.attributes;
      project = "";
    })
  ]
]

-- The loop over the networks; one without attributes is passed over, before its id is read.
unfoldable pub listed_vlans : {W : Type 0} → String → List VlanData → Action W (List Vlan)
listed_vlans project [] = pure []
listed_vlans project (item ∷ items) =
    let rest = listed_vlans project items in
    elim (item.attributes) [
      | none ↦ rest
      | some attrs ↦ deref item.id >>= λ id. rest >>= λ vlans. pure (
          record {
            id = id;
            vid = vid_of (some attrs);
            subnet = description_of (some attrs);
            project = project;
          }
          ∷ vlans)
    ]

-- An error whose text has one of two parts counts as success; another is wrapped.
unfoldable pub tolerating :
    {W : Type 0} → String → String → String → Action W (Unit {0}) → Action W (Unit {0})
tolerating part part' prefix m = attempt m >>= elim [
  | value u ↦ pure u
  | error e ↦
      when contains_text (error_text e) part || contains_text (error_text e) part'
      then pure tt
      else fail (wrapped prefix e)
]

module _ {W : Type 0} (sdk : Sdk W) where
  unfoldable pub list_vlans : String → Action W (List Vlan)
  list_vlans project_id = do
    items ← wrapping "failed to list VLANs" sdk.private_networks_list
    elim items [ none ↦ pure [] | some items' ↦ listed_vlans project_id items' ]

  -- The request's `VID` is not read.
  unfoldable pub create_vlan : CreateVlanRequest → Action W Vlan
  create_vlan req = do
    fail_if (req.project_id == "") (plain "projectID is required")
    fail_if (req.subnet == "") (plain "subnet is required")
    fail_if (req.site == "") (plain "site is required")
    listed ← attempt (list_vlans req.project_id)
    elim (reusable listed req.subnet) [
      | some existing ↦ pure existing
      | none ↦
          wrapping "failed to create VLAN" (
            sdk.private_networks_create (record {
              project = req.project_id;
              site = to_lower req.site;
              description = req.subnet;
            }))
          >>= created_vlan req
    ]

  unfoldable pub get_vlan : String → Action W Vlan
  get_vlan vlan_id = do
    fail_if (vlan_id == "") (plain "vlanID is required")
    object ← wrapping "failed to get VLAN" (sdk.private_networks_get vlan_id)
    found_vlan vlan_id object

  unfoldable pub delete_vlan : String → Action W (Unit {0})
  delete_vlan vlan_id = do
    fail_if (vlan_id == "") (plain "vlanID is required")
    tolerating "not found" "404" "failed to delete VLAN" (sdk.virtual_networks_delete vlan_id)

  unfoldable pub attach_server_to_vlan : String → String → Action W (Unit {0})
  attach_server_to_vlan server_id vlan_id = do
    fail_if (server_id == "") (plain "serverID is required")
    fail_if (vlan_id == "") (plain "vlanID is required")
    tolerating "already assigned" "already exists" "failed to attach server to VLAN"
        (sdk.private_networks_assign server_id vlan_id)

  unfoldable pub detach_server_from_vlan : String → String → Action W (Unit {0})
  detach_server_from_vlan server_id vlan_id = do
    fail_if (server_id == "") (plain "serverID is required")
    fail_if (vlan_id == "") (plain "vlanID is required")
    tolerating "not found" "404" "failed to detach server from VLAN"
        (sdk.private_networks_delete_assignment (server_id <> ("-" <> vlan_id)))
