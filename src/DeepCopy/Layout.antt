-- ===== src/DeepCopy/Layout.antt =====
-- The structs of api/v1beta1 as they lie in memory. A pointer, a slice and a map are nil or the
-- address of a cell; a slice's cell holds its whole array.
use cluster_api_provider_lat.Base.{ℕ, String, Bool, Option, List}
use cluster_api_provider_lat.Base.Int.{ℤ}
use cluster_api_provider_lat.Api.{
  ApiEndpoint, ProjectRef, SecretReference, MachineAddress, Condition, OwnerReference, StringMap,
}

abbrev pub Ref : Type 0
Ref = Option ℕ

-- `metav1.TypeMeta`
pub record TypeMeta : Type 0 where
  pub kind : String
  pub api_version : String

-- `metav1.ObjectMeta`, of which the fields that the code reads
pub record ObjectMetaStruct : Type 0 where
  pub name : String
  pub namespace : String
  pub uid : String
  pub generation : ℕ
  pub labels : Ref
  pub annotations : Ref
  pub owner_references : Ref
  pub finalizers : Ref
  pub deletion_timestamp : Ref

-- `metav1.ListMeta`
pub record ListMetaStruct : Type 0 where
  pub resource_version : String
  pub continue : String
  pub remaining_item_count : Ref

pub record VlanConfigStruct : Type 0 where
  pub subnet : String
  pub vid : Ref
  pub existing_vlan_id : Ref
  pub network_interface : String

pub record ClusterSpecStruct : Type 0 where
  pub location : String
  pub project_ref : Ref
  pub control_plane_endpoint : ApiEndpoint
  pub vlan_config : Ref

pub record ClusterStatusStruct : Type 0 where
  pub ready : Bool
  pub control_plane_endpoint : ApiEndpoint
  pub vlan_id : Ref
  pub vlan_vid : Ref
  pub conditions : Ref

pub record ClusterStruct : Type 0 where
  pub type_meta : TypeMeta
  pub meta : ObjectMetaStruct
  pub spec : ClusterSpecStruct
  pub status : ClusterStatusStruct

pub record MachineSpecStruct : Type 0 where
  pub provider_id : Ref
  pub operating_system : String
  pub plan : String
  pub ssh_key_secret_ref : Ref

pub record MachineStatusStruct : Type 0 where
  pub ready : Bool
  pub provider_id : String
  pub server_id : String
  pub user_data_id : String
  pub addresses : Ref
  pub failure_reason : Ref
  pub failure_message : Ref
  pub conditions : Ref

pub record MachineStruct : Type 0 where
  pub type_meta : TypeMeta
  pub meta : ObjectMetaStruct
  pub spec : MachineSpecStruct
  pub status : MachineStatusStruct

pub record TemplateResourceStruct : Type 0 where
  pub spec : MachineSpecStruct

pub record TemplateSpecStruct : Type 0 where
  pub template : TemplateResourceStruct

pub record TemplateStruct : Type 0 where
  pub type_meta : TypeMeta
  pub meta : ObjectMetaStruct
  pub spec : TemplateSpecStruct

-- `LatitudeClusterList`, `LatitudeMachineList` and `LatitudeMachineTemplateList`, which differ in
-- what the array at `items` holds
pub record ListStruct : Type 0 where
  pub type_meta : TypeMeta
  pub meta : ListMetaStruct
  pub items : Ref

-- What an address leads to.
pub data Cell : Type 0 where
  text : String → Cell
  integer : ℤ → Cell
  natural : ℕ → Cell
  texts : List String → Cell
  string_map : StringMap → Cell
  owners : List OwnerReference → Cell
  conditions : List Condition → Cell
  addresses : List MachineAddress → Cell
  secret_reference : SecretReference → Cell
  api_endpoint : ApiEndpoint → Cell
  project_ref : ProjectRef → Cell
  vlan_config : VlanConfigStruct → Cell
  cluster_spec : ClusterSpecStruct → Cell
  cluster_status : ClusterStatusStruct → Cell
  cluster : ClusterStruct → Cell
  clusters : List ClusterStruct → Cell
  machine_spec : MachineSpecStruct → Cell
  machine_status : MachineStatusStruct → Cell
  machine : MachineStruct → Cell
  machines : List MachineStruct → Cell
  template_resource : TemplateResourceStruct → Cell
  template_spec : TemplateSpecStruct → Cell
  template : TemplateStruct → Cell
  templates : List TemplateStruct → Cell
  list : ListStruct → Cell
