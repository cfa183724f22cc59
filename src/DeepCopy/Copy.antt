-- ===== src/DeepCopy/Copy.antt =====
-- The `DeepCopyInto`, `DeepCopy` and `DeepCopyObject` methods. `DeepCopyInto` starts from the
-- struct itself, `*out = *in`, and puts copies in the place of its pointers: a field that is left
-- as it is shares what it points to. A method's `DeepCopy` takes its receiver's pointer.
use cluster_api_provider_lat.Base.{ℕ, List, String, Option, some, none}
use cluster_api_provider_lat.Base.Int.{ℤ}
use cluster_api_provider_lat.Action.{Action, pure, ◌>>=◌}
use cluster_api_provider_lat.Api.{
  ApiEndpoint, ProjectRef, SecretReference, MachineAddress, Condition,
}
use cluster_api_provider_lat.DeepCopy.Layout.{
  Ref, ObjectMetaStruct, ListMetaStruct, VlanConfigStruct, ClusterSpecStruct, ClusterStatusStruct,
  ClusterStruct, MachineSpecStruct, MachineStatusStruct, MachineStruct, TemplateResourceStruct,
  TemplateSpecStruct, TemplateStruct, ListStruct,
}
use cluster_api_provider_lat.DeepCopy.Memory.{Memory, copy_pointer, copy_each}
use cluster_api_provider_lat.DeepCopy.Kinds.{
  text_kind, integer_kind, conditions_kind, addresses_kind, secret_reference_kind,
  api_endpoint_kind, project_ref_kind, vlan_config_kind, cluster_spec_kind, cluster_status_kind,
  cluster_kind, clusters_kind, machine_spec_kind, machine_status_kind, machine_kind, machines_kind,
  template_resource_kind, template_spec_kind, template_kind, templates_kind, list_kind,
}

-- The methods of k8s.io/apimachinery that the copies call.
pub record Apimachinery : Type 0 where
  pub copy_meta : ObjectMetaStruct → Action Memory ObjectMetaStruct
  pub copy_list_meta : ListMetaStruct → Action Memory ListMetaStruct
  pub copy_condition : Condition → Action Memory Condition

-- The types with a `DeepCopyObject`, and a `runtime.Object`: a pointer with its type. The nil
-- interface is `none`.
pub data ObjectType : Type 0 where
  latitude_cluster latitude_cluster_list latitude_machine latitude_machine_list : ObjectType
  latitude_machine_template latitude_machine_template_list : ObjectType

pub record Object : Type 0 where
  pub type : ObjectType
  pub pointer : ℕ

-- The types with a `DeepCopy` only: the parts of the objects.
pub data PartType : Type 0 where
  api_endpoint_part project_ref_part vlan_config_part cluster_spec_part : PartType
  cluster_status_part machine_spec_part machine_status_part : PartType
  template_resource_part template_spec_part : PartType

-- `if c := in.DeepCopy(); c != nil { return c }; return nil`
unfoldable pub as_object : ObjectType → Ref → Option Object
as_object t none = none
as_object t (some p) = some (record { type = t; pointer = p })

unfoldable pub api_endpoint_deep_copy_into : ApiEndpoint → Action Memory ApiEndpoint
api_endpoint_deep_copy_into e = pure e

unfoldable pub api_endpoint_deep_copy : Ref → Action Memory Ref
api_endpoint_deep_copy r = copy_pointer api_endpoint_deep_copy_into r

unfoldable pub project_ref_deep_copy_into : ProjectRef → Action Memory ProjectRef
project_ref_deep_copy_into r = pure r

unfoldable pub project_ref_deep_copy : Ref → Action Memory Ref
project_ref_deep_copy r = copy_pointer project_ref_deep_copy_into r

unfoldable pub vlan_config_deep_copy_into : VlanConfigStruct → Action Memory VlanConfigStruct
vlan_config_deep_copy_into c = do
  vid ← copy_pointer {T = ℤ} pure c.vid
  existing_vlan_id ← copy_pointer {T = String} pure c.existing_vlan_id
  pure (record c { vid = vid; existing_vlan_id = existing_vlan_id })

unfoldable pub vlan_config_deep_copy : Ref → Action Memory Ref
vlan_config_deep_copy r = copy_pointer vlan_config_deep_copy_into r

unfoldable pub cluster_spec_deep_copy_into : ClusterSpecStruct → Action Memory ClusterSpecStruct
cluster_spec_deep_copy_into s = do
  project_ref ← copy_pointer {T = ProjectRef} pure s.project_ref
  vlan_config ← copy_pointer vlan_config_deep_copy_into s.vlan_config
  pure (record s { project_ref = project_ref; vlan_config = vlan_config })

unfoldable pub cluster_spec_deep_copy : Ref → Action Memory Ref
cluster_spec_deep_copy r = copy_pointer cluster_spec_deep_copy_into r

unfoldable pub machine_spec_deep_copy_into : MachineSpecStruct → Action Memory MachineSpecStruct
machine_spec_deep_copy_into s = do
  provider_id ← copy_pointer {T = String} pure s.provider_id
  ssh_key_secret_ref ← copy_pointer {T = SecretReference} pure s.ssh_key_secret_ref
  pure (record s { provider_id = provider_id; ssh_key_secret_ref = ssh_key_secret_ref })

unfoldable pub machine_spec_deep_copy : Ref → Action Memory Ref
machine_spec_deep_copy r = copy_pointer machine_spec_deep_copy_into r

unfoldable pub template_resource_deep_copy_into :
    TemplateResourceStruct → Action Memory TemplateResourceStruct
template_resource_deep_copy_into r = do
  spec ← machine_spec_deep_copy_into r.spec
  pure (record r { spec = spec })

unfoldable pub template_resource_deep_copy : Ref → Action Memory Ref
template_resource_deep_copy r = copy_pointer template_resource_deep_copy_into r

unfoldable pub template_spec_deep_copy_into : TemplateSpecStruct → Action Memory TemplateSpecStruct
template_spec_deep_copy_into s = do
  template ← template_resource_deep_copy_into s.template
  pure (record s { template = template })

unfoldable pub template_spec_deep_copy : Ref → Action Memory Ref
template_spec_deep_copy r = copy_pointer template_spec_deep_copy_into r

module _ (a : Apimachinery) where
  open a use {copy_meta, copy_list_meta, copy_condition}

  unfoldable pub cluster_status_deep_copy_into :
      ClusterStatusStruct → Action Memory ClusterStatusStruct
  cluster_status_deep_copy_into s = do
    vlan_id ← copy_pointer {T = String} pure s.vlan_id
    vlan_vid ← copy_pointer {T = ℤ} pure s.vlan_vid
    conditions ← copy_pointer (copy_each copy_condition) s.conditions
    pure (record s { vlan_id = vlan_id; vlan_vid = vlan_vid; conditions = conditions })

  unfoldable pub cluster_status_deep_copy : Ref → Action Memory Ref
  cluster_status_deep_copy r = copy_pointer cluster_status_deep_copy_into r

  unfoldable pub cluster_deep_copy_into : ClusterStruct → Action Memory ClusterStruct
  cluster_deep_copy_into c = do
    meta ← copy_meta c.meta
    spec ← cluster_spec_deep_copy_into c.spec
    status ← cluster_status_deep_copy_into c.status
    pure (record c { meta = meta; spec = spec; status = status })

  unfoldable pub cluster_deep_copy : Ref → Action Memory Ref
  cluster_deep_copy r = copy_pointer cluster_deep_copy_into r

  unfoldable pub cluster_deep_copy_object : Ref → Action Memory (Option Object)
  cluster_deep_copy_object r = do c ← cluster_deep_copy r; pure (as_object latitude_cluster c)

  unfoldable pub cluster_list_deep_copy_into : ListStruct → Action Memory ListStruct
  cluster_list_deep_copy_into l = do
    meta ← copy_list_meta l.meta
    items ← copy_pointer (copy_each cluster_deep_copy_into) l.items
    pure (record l { meta = meta; items = items })

  unfoldable pub cluster_list_deep_copy : Ref → Action Memory Ref
  cluster_list_deep_copy r = copy_pointer cluster_list_deep_copy_into r

  unfoldable pub cluster_list_deep_copy_object : Ref → Action Memory (Option Object)
  cluster_list_deep_copy_object r = do
    c ← cluster_list_deep_copy r
    pure (as_object latitude_cluster_list c)

  unfoldable pub machine_status_deep_copy_into :
      MachineStatusStruct → Action Memory MachineStatusStruct
  machine_status_deep_copy_into s = do
    addresses ← copy_pointer {T = List MachineAddress} pure s.addresses
    failure_reason ← copy_pointer {T = String} pure s.failure_reason
    failure_message ← copy_pointer {T = String} pure s.failure_message
    conditions ← copy_pointer (copy_each copy_condition) s.conditions
    pure (record s {
      addresses = addresses;
      failure_reason = failure_reason;
      failure_message = failure_message;
      conditions = conditions;
    })

  unfoldable pub machine_status_deep_copy : Ref → Action Memory Ref
  machine_status_deep_copy r = copy_pointer machine_status_deep_copy_into r

  unfoldable pub machine_deep_copy_into : MachineStruct → Action Memory MachineStruct
  machine_deep_copy_into m = do
    meta ← copy_meta m.meta
    spec ← machine_spec_deep_copy_into m.spec
    status ← machine_status_deep_copy_into m.status
    pure (record m { meta = meta; spec = spec; status = status })

  unfoldable pub machine_deep_copy : Ref → Action Memory Ref
  machine_deep_copy r = copy_pointer machine_deep_copy_into r

  unfoldable pub machine_deep_copy_object : Ref → Action Memory (Option Object)
  machine_deep_copy_object r = do c ← machine_deep_copy r; pure (as_object latitude_machine c)

  unfoldable pub machine_list_deep_copy_into : ListStruct → Action Memory ListStruct
  machine_list_deep_copy_into l = do
    meta ← copy_list_meta l.meta
    items ← copy_pointer (copy_each machine_deep_copy_into) l.items
    pure (record l { meta = meta; items = items })

  unfoldable pub machine_list_deep_copy : Ref → Action Memory Ref
  machine_list_deep_copy r = copy_pointer machine_list_deep_copy_into r

  unfoldable pub machine_list_deep_copy_object : Ref → Action Memory (Option Object)
  machine_list_deep_copy_object r = do
    c ← machine_list_deep_copy r
    pure (as_object latitude_machine_list c)

  unfoldable pub template_deep_copy_into : TemplateStruct → Action Memory TemplateStruct
  template_deep_copy_into t = do
    meta ← copy_meta t.meta
    spec ← template_spec_deep_copy_into t.spec
    pure (record t { meta = meta; spec = spec })

  unfoldable pub template_deep_copy : Ref → Action Memory Ref
  template_deep_copy r = copy_pointer template_deep_copy_into r

  unfoldable pub template_deep_copy_object : Ref → Action Memory (Option Object)
  template_deep_copy_object r = do
    c ← template_deep_copy r
    pure (as_object latitude_machine_template c)

  unfoldable pub template_list_deep_copy_into : ListStruct → Action Memory ListStruct
  template_list_deep_copy_into l = do
    meta ← copy_list_meta l.meta
    items ← copy_pointer (copy_each template_deep_copy_into) l.items
    pure (record l { meta = meta; items = items })

  unfoldable pub template_list_deep_copy : Ref → Action Memory Ref
  template_list_deep_copy r = copy_pointer template_list_deep_copy_into r

  unfoldable pub template_list_deep_copy_object : Ref → Action Memory (Option Object)
  template_list_deep_copy_object r = do
    c ← template_list_deep_copy r
    pure (as_object latitude_machine_template_list c)

  -- `obj.DeepCopyObject()`
  unfoldable pub deep_copy_object : ObjectType → Ref → Action Memory (Option Object)
  deep_copy_object latitude_cluster r = cluster_deep_copy_object r
  deep_copy_object latitude_cluster_list r = cluster_list_deep_copy_object r
  deep_copy_object latitude_machine r = machine_deep_copy_object r
  deep_copy_object latitude_machine_list r = machine_list_deep_copy_object r
  deep_copy_object latitude_machine_template r = template_deep_copy_object r
  deep_copy_object latitude_machine_template_list r = template_list_deep_copy_object r

  -- `part.DeepCopy()`
  unfoldable pub deep_copy_part : PartType → Ref → Action Memory Ref
  deep_copy_part api_endpoint_part r = api_endpoint_deep_copy r
  deep_copy_part project_ref_part r = project_ref_deep_copy r
  deep_copy_part vlan_config_part r = vlan_config_deep_copy r
  deep_copy_part cluster_spec_part r = cluster_spec_deep_copy r
  deep_copy_part cluster_status_part r = cluster_status_deep_copy r
  deep_copy_part machine_spec_part r = machine_spec_deep_copy r
  deep_copy_part machine_status_part r = machine_status_deep_copy r
  deep_copy_part template_resource_part r = template_resource_deep_copy r
  deep_copy_part template_spec_part r = template_spec_deep_copy r
