-- ===== src/DeepCopy/Kinds.antt =====
-- Which cells hold which type.
use cluster_api_provider_lat.Base.{ℕ, String, List, some, none, refl}
use cluster_api_provider_lat.Base.Int.{ℤ}
use cluster_api_provider_lat.Api.{
  ApiEndpoint, ProjectRef, SecretReference, MachineAddress, Condition, OwnerReference, StringMap,
}
use cluster_api_provider_lat.DeepCopy.Layout.{
  VlanConfigStruct, ClusterSpecStruct, ClusterStatusStruct, ClusterStruct, MachineSpecStruct,
  MachineStatusStruct, MachineStruct, TemplateResourceStruct, TemplateSpecStruct, TemplateStruct,
  ListStruct, text, integer, natural, texts, string_map, owners, conditions, addresses,
  secret_reference, api_endpoint, project_ref, vlan_config, cluster_spec, cluster_status, cluster,
  clusters, machine_spec, machine_status, machine, machines, template_resource, template_spec,
  template, templates, list,
}
use cluster_api_provider_lat.DeepCopy.Memory.{Kind}

instance abbrev pub text_kind : Kind String
text_kind = record {
  inject = text;
  project = λ c. elim c [ text t ↦ some t | _ ↦ none ];
  project_inject = λ t. refl;
}

instance abbrev pub integer_kind : Kind ℤ
integer_kind = record {
  inject = integer;
  project = λ c. elim c [ integer t ↦ some t | _ ↦ none ];
  project_inject = λ t. refl;
}

instance abbrev pub natural_kind : Kind ℕ
natural_kind = record {
  inject = natural;
  project = λ c. elim c [ natural t ↦ some t | _ ↦ none ];
  project_inject = λ t. refl;
}

instance abbrev pub texts_kind : Kind (List String)
texts_kind = record {
  inject = texts;
  project = λ c. elim c [ texts t ↦ some t | _ ↦ none ];
  project_inject = λ t. refl;
}

instance abbrev pub string_map_kind : Kind StringMap
string_map_kind = record {
  inject = string_map;
  project = λ c. elim c [ string_map t ↦ some t | _ ↦ none ];
  project_inject = λ t. refl;
}

instance abbrev pub owners_kind : Kind (List OwnerReference)
owners_kind = record {
  inject = owners;
  project = λ c. elim c [ owners t ↦ some t | _ ↦ none ];
  project_inject = λ t. refl;
}

instance abbrev pub conditions_kind : Kind (List Condition)
conditions_kind = record {
  inject = conditions;
  project = λ c. elim c [ conditions t ↦ some t | _ ↦ none ];
  project_inject = λ t. refl;
}

instance abbrev pub addresses_kind : Kind (List MachineAddress)
addresses_kind = record {
  inject = addresses;
  project = λ c. elim c [ addresses t ↦ some t | _ ↦ none ];
  project_inject = λ t. refl;
}

instance abbrev pub secret_reference_kind : Kind SecretReference
secret_reference_kind = record {
  inject = secret_reference;
  project = λ c. elim c [ secret_reference t ↦ some t | _ ↦ none ];
  project_inject = λ t. refl;
}

instance abbrev pub api_endpoint_kind : Kind ApiEndpoint
api_endpoint_kind = record {
  inject = api_endpoint;
  project = λ c. elim c [ api_endpoint t ↦ some t | _ ↦ none ];
  project_inject = λ t. refl;
}

instance abbrev pub project_ref_kind : Kind ProjectRef
project_ref_kind = record {
  inject = project_ref;
  project = λ c. elim c [ project_ref t ↦ some t | _ ↦ none ];
  project_inject = λ t. refl;
}

instance abbrev pub vlan_config_kind : Kind VlanConfigStruct
vlan_config_kind = record {
  inject = vlan_config;
  project = λ c. elim c [ vlan_config t ↦ some t | _ ↦ none ];
  project_inject = λ t. refl;
}

instance abbrev pub cluster_spec_kind : Kind ClusterSpecStruct
cluster_spec_kind = record {
  inject = cluster_spec;
  project = λ c. elim c [ cluster_spec t ↦ some t | _ ↦ none ];
  project_inject = λ t. refl;
}

instance abbrev pub cluster_status_kind : Kind ClusterStatusStruct
cluster_status_kind = record {
  inject = cluster_status;
  project = λ c. elim c [ cluster_status t ↦ some t | _ ↦ none ];
  project_inject = λ t. refl;
}

instance abbrev pub cluster_kind : Kind ClusterStruct
cluster_kind = record {
  inject = cluster;
  project = λ c. elim c [ cluster t ↦ some t | _ ↦ none ];
  project_inject = λ t. refl;
}

instance abbrev pub clusters_kind : Kind (List ClusterStruct)
clusters_kind = record {
  inject = clusters;
  project = λ c. elim c [ clusters t ↦ some t | _ ↦ none ];
  project_inject = λ t. refl;
}

instance abbrev pub machine_spec_kind : Kind MachineSpecStruct
machine_spec_kind = record {
  inject = machine_spec;
  project = λ c. elim c [ machine_spec t ↦ some t | _ ↦ none ];
  project_inject = λ t. refl;
}

instance abbrev pub machine_status_kind : Kind MachineStatusStruct
machine_status_kind = record {
  inject = machine_status;
  project = λ c. elim c [ machine_status t ↦ some t | _ ↦ none ];
  project_inject = λ t. refl;
}

instance abbrev pub machine_kind : Kind MachineStruct
machine_kind = record {
  inject = machine;
  project = λ c. elim c [ machine t ↦ some t | _ ↦ none ];
  project_inject = λ t. refl;
}

instance abbrev pub machines_kind : Kind (List MachineStruct)
machines_kind = record {
  inject = machines;
  project = λ c. elim c [ machines t ↦ some t | _ ↦ none ];
  project_inject = λ t. refl;
}

instance abbrev pub template_resource_kind : Kind TemplateResourceStruct
template_resource_kind = record {
  inject = template_resource;
  project = λ c. elim c [ template_resource t ↦ some t | _ ↦ none ];
  project_inject = λ t. refl;
}

instance abbrev pub template_spec_kind : Kind TemplateSpecStruct
template_spec_kind = record {
  inject = template_spec;
  project = λ c. elim c [ template_spec t ↦ some t | _ ↦ none ];
  project_inject = λ t. refl;
}

instance abbrev pub template_kind : Kind TemplateStruct
template_kind = record {
  inject = template;
  project = λ c. elim c [ template t ↦ some t | _ ↦ none ];
  project_inject = λ t. refl;
}

instance abbrev pub templates_kind : Kind (List TemplateStruct)
templates_kind = record {
  inject = templates;
  project = λ c. elim c [ templates t ↦ some t | _ ↦ none ];
  project_inject = λ t. refl;
}

instance abbrev pub list_kind : Kind ListStruct
list_kind = record {
  inject = list;
  project = λ c. elim c [ list t ↦ some t | _ ↦ none ];
  project_inject = λ t. refl;
}
