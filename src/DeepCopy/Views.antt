-- ===== src/DeepCopy/Views.antt =====
-- The API object that a struct in memory stands for, read from the cells of a store. A pointer that
-- leads nowhere stands for nothing; a nil slice or map and an empty one stand for the same.
use cluster_api_provider_lat.Base.{ℕ, String, List, [], ◌∷◌, Option, none, some}
use cluster_api_provider_lat.Base.Int.{ℤ}
use cluster_api_provider_lat.Api.{
  ApiEndpoint, ProjectRef, SecretReference, MachineAddress, Condition, OwnerReference, StringMap,
  ObjectMeta, VlanConfig, LatitudeClusterSpec, LatitudeClusterStatus, LatitudeCluster,
  LatitudeMachineSpec, LatitudeMachineStatus, LatitudeMachine, LatitudeMachineTemplateResource,
  LatitudeMachineTemplateSpec, LatitudeMachineTemplate,
}
use cluster_api_provider_lat.DeepCopy.Layout.{
  Ref, TypeMeta, ObjectMetaStruct, ListMetaStruct, VlanConfigStruct, ClusterSpecStruct,
  ClusterStatusStruct, ClusterStruct, MachineSpecStruct, MachineStatusStruct, MachineStruct,
  TemplateResourceStruct, TemplateSpecStruct, TemplateStruct, ListStruct,
}
use cluster_api_provider_lat.DeepCopy.Memory.{Store, Kind, fetch}
use cluster_api_provider_lat.DeepCopy.Kinds.{
  text_kind, integer_kind, natural_kind, texts_kind, string_map_kind, owners_kind, conditions_kind,
  addresses_kind, secret_reference_kind, project_ref_kind, vlan_config_kind, cluster_kind,
  clusters_kind, machine_kind, machines_kind, template_kind, templates_kind, list_kind,
  api_endpoint_kind, cluster_spec_kind, cluster_status_kind, machine_spec_kind, machine_status_kind,
  template_resource_kind, template_spec_kind,
}
use cluster_api_provider_lat.DeepCopy.Copy.{
  ObjectType, latitude_cluster, latitude_cluster_list, latitude_machine, latitude_machine_list,
  latitude_machine_template, latitude_machine_template_list, PartType, api_endpoint_part,
  project_ref_part, vlan_config_part, cluster_spec_part, cluster_status_part, machine_spec_part,
  machine_status_part, template_resource_part, template_spec_part,
}

abbrev pub View : Type 0 → Type 0 → Type 0
View T V = Store → T → Option V

infixl 5 ◌>>=◌
abbrev pub ◌>>=◌ : {A B : Type 0} → Option A → (A → Option B) → Option B
none >>= f = none
some a >>= f = f a

-- A type without pointers stands for itself.
abbrev pub plain : {T : Type 0} → View T T
plain f t = some t

module _ {T V : Type 0} where
  unfoldable pub at : ⦃k : Kind T⦄ → View T V → View Ref (Option V)
  at v f none = some none
  at v f (some p) = do t ← fetch f p; x ← v f t; some (some x)

  unfoldable pub each : View T V → View (List T) (List V)
  each v f [] = some []
  each v f (t ∷ ts) = do x ← v f t; xs ← each v f ts; some (x ∷ xs)

abbrev pub or_empty : {A : Type 0} → Option (List A) → List A
or_empty none = []
or_empty (some l) = l

abbrev pub text_at : View Ref (Option String)
text_at = at {T = String} plain

abbrev pub conditions_at : View Ref (Option (List Condition))
conditions_at = at {T = List Condition} (each plain)

unfoldable pub meta_value : View ObjectMetaStruct ObjectMeta
meta_value f m = do
  labels ← at {T = StringMap} plain f m.labels
  annotations ← at {T = StringMap} plain f m.annotations
  owner_references ← at {T = List OwnerReference} plain f m.owner_references
  finalizers ← at {T = List String} plain f m.finalizers
  deletion_timestamp ← at {T = ℕ} plain f m.deletion_timestamp
  some (record {
    name = m.name;
    namespace = m.namespace;
    uid = m.uid;
    generation = m.generation;
    labels = or_empty labels;
    annotations = or_empty annotations;
    owner_references = or_empty owner_references;
    finalizers = or_empty finalizers;
    deletion_timestamp = deletion_timestamp;
  })

pub record ListMeta : Type 0 where
  pub resource_version : String
  pub continue : String
  pub remaining_item_count : Option ℕ

unfoldable pub list_meta_value : View ListMetaStruct ListMeta
list_meta_value f m = do
  count ← at {T = ℕ} plain f m.remaining_item_count
  some (record {
    resource_version = m.resource_version;
    continue = m.continue;
    remaining_item_count = count;
  })

unfoldable pub vlan_config_value : View VlanConfigStruct VlanConfig
vlan_config_value f c = do
  vid ← at {T = ℤ} plain f c.vid
  existing_vlan_id ← text_at f c.existing_vlan_id
  some (record {
    subnet = c.subnet;
    vid = vid;
    existing_vlan_id = existing_vlan_id;
    network_interface = c.network_interface;
  })

unfoldable pub cluster_spec_value : View ClusterSpecStruct LatitudeClusterSpec
cluster_spec_value f s = do
  project_ref ← at {T = ProjectRef} plain f s.project_ref
  vlan_config ← at vlan_config_value f s.vlan_config
  some (record {
    location = s.location;
    project_ref = project_ref;
    control_plane_endpoint = s.control_plane_endpoint;
    vlan_config = vlan_config;
  })

unfoldable pub cluster_status_value : View ClusterStatusStruct LatitudeClusterStatus
cluster_status_value f s = do
  vlan_id ← text_at f s.vlan_id
  vlan_vid ← at {T = ℤ} plain f s.vlan_vid
  conditions ← conditions_at f s.conditions
  some (record {
    ready = s.ready;
    control_plane_endpoint = s.control_plane_endpoint;
    vlan_id = vlan_id;
    vlan_vid = vlan_vid;
    conditions = or_empty conditions;
  })

unfoldable pub cluster_value : View ClusterStruct (TypeMeta × LatitudeCluster)
cluster_value f c = do
  meta ← meta_value f c.meta
  spec ← cluster_spec_value f c.spec
  status ← cluster_status_value f c.status
  some (c.type_meta, record { meta = meta; spec = spec; status = status })

unfoldable pub machine_spec_value : View MachineSpecStruct LatitudeMachineSpec
machine_spec_value f s = do
  provider_id ← text_at f s.provider_id
  ssh_key_secret_ref ← at {T = SecretReference} plain f s.ssh_key_secret_ref
  some (record {
    provider_id = provider_id;
    operating_system = s.operating_system;
    plan = s.plan;
    ssh_key_secret_ref = ssh_key_secret_ref;
  })

unfoldable pub machine_status_value : View MachineStatusStruct LatitudeMachineStatus
machine_status_value f s = do
  addresses ← at {T = List MachineAddress} plain f s.addresses
  failure_reason ← text_at f s.failure_reason
  failure_message ← text_at f s.failure_message
  conditions ← conditions_at f s.conditions
  some (record {
    ready = s.ready;
    provider_id = s.provider_id;
    server_id = s.server_id;
    user_data_id = s.user_data_id;
    addresses = or_empty addresses;
    failure_reason = failure_reason;
    failure_message = failure_message;
    conditions = or_empty conditions;
  })

unfoldable pub machine_value : View MachineStruct (TypeMeta × LatitudeMachine)
machine_value f m = do
  meta ← meta_value f m.meta
  spec ← machine_spec_value f m.spec
  status ← machine_status_value f m.status
  some (m.type_meta, record { meta = meta; spec = spec; status = status })

unfoldable pub template_resource_value : View TemplateResourceStruct LatitudeMachineTemplateResource
template_resource_value f r = do spec ← machine_spec_value f r.spec; some (record { spec = spec })

unfoldable pub template_spec_value : View TemplateSpecStruct LatitudeMachineTemplateSpec
template_spec_value f s = do
  template ← template_resource_value f s.template
  some (record { template = template })

unfoldable pub template_value : View TemplateStruct (TypeMeta × LatitudeMachineTemplate)
template_value f t = do
  meta ← meta_value f t.meta
  spec ← template_spec_value f t.spec
  some (t.type_meta, record { meta = meta; spec = spec })

-- A list of objects.
pub record Listing (V : Type 0) : Type 0 where
  pub type_meta : TypeMeta
  pub meta : ListMeta
  pub items : List V

unfoldable pub list_value :
    {T V : Type 0} → ⦃k : Kind (List T)⦄ → View T V → View ListStruct (Listing V)
list_value v f l = do
  meta ← list_meta_value f l.meta
  items ← at (each v) f l.items
  some (record { type_meta = l.type_meta; meta = meta; items = or_empty items })

-- What an object of each type holds.
unfoldable pub Content : ObjectType → Type 0
Content latitude_cluster = TypeMeta × LatitudeCluster
Content latitude_cluster_list = Listing (TypeMeta × LatitudeCluster)
Content latitude_machine = TypeMeta × LatitudeMachine
Content latitude_machine_list = Listing (TypeMeta × LatitudeMachine)
Content latitude_machine_template = TypeMeta × LatitudeMachineTemplate
Content latitude_machine_template_list = Listing (TypeMeta × LatitudeMachineTemplate)

-- The object that a pointer of each type stands for.
unfoldable pub object_value : (t : ObjectType) → View Ref (Option (Content t))
unfolding Content
object_value latitude_cluster = at cluster_value
object_value latitude_cluster_list = at {T = ListStruct} (list_value cluster_value)
object_value latitude_machine = at machine_value
object_value latitude_machine_list = at {T = ListStruct} (list_value machine_value)
object_value latitude_machine_template = at template_value
object_value latitude_machine_template_list = at {T = ListStruct} (list_value template_value)

-- The same of the parts of the objects.
unfoldable pub PartContent : PartType → Type 0
PartContent api_endpoint_part = ApiEndpoint
PartContent project_ref_part = ProjectRef
PartContent vlan_config_part = VlanConfig
PartContent cluster_spec_part = LatitudeClusterSpec
PartContent cluster_status_part = LatitudeClusterStatus
PartContent machine_spec_part = LatitudeMachineSpec
PartContent machine_status_part = LatitudeMachineStatus
PartContent template_resource_part = LatitudeMachineTemplateResource
PartContent template_spec_part = LatitudeMachineTemplateSpec

unfoldable pub part_value : (t : PartType) → View Ref (Option (PartContent t))
unfolding PartContent
part_value api_endpoint_part = at {T = ApiEndpoint} plain
part_value project_ref_part = at {T = ProjectRef} plain
part_value vlan_config_part = at vlan_config_value
part_value cluster_spec_part = at cluster_spec_value
part_value cluster_status_part = at cluster_status_value
part_value machine_spec_part = at machine_spec_value
part_value machine_status_part = at machine_status_value
part_value template_resource_part = at template_resource_value
part_value template_spec_part = at template_spec_value
