-- ===== src/DeepCopy/Copiers.antt =====
-- The `DeepCopyInto` of the parts of an object are copiers, of what the structs stand for.
use cluster_api_provider_lat.Base.{ℕ, String, List}
use cluster_api_provider_lat.Base.Int.{ℤ}
use cluster_api_provider_lat.Api.{
  ProjectRef, SecretReference, MachineAddress, StringMap, OwnerReference,
}
use cluster_api_provider_lat.Action.{pure}
use cluster_api_provider_lat.DeepCopy.Memory.{copy_pointer}
use cluster_api_provider_lat.DeepCopy.Kinds.{
  text_kind, integer_kind, natural_kind, texts_kind, string_map_kind, owners_kind, conditions_kind,
  addresses_kind, secret_reference_kind, project_ref_kind, vlan_config_kind, clusters_kind,
  machines_kind, templates_kind,
}
use cluster_api_provider_lat.DeepCopy.Views.{
  plain, at, text_at, meta_value, list_meta_value, vlan_config_value, cluster_spec_value,
  machine_spec_value, template_resource_value, template_spec_value,
}
use cluster_api_provider_lat.DeepCopy.Copy.{
  vlan_config_deep_copy_into, cluster_spec_deep_copy_into, machine_spec_deep_copy_into,
  template_resource_deep_copy_into, template_spec_deep_copy_into,
}
use cluster_api_provider_lat.DeepCopy.MemoryLaws.{same}
use cluster_api_provider_lat.DeepCopy.Copier.{
  Grows, Copies, IsCopier, made, bind-grows, bind-some, copy_field, plain-IsCopier, at-IsCopier,
}

pub text-IsCopier : IsCopier text_at (copy_pointer {T = String} pure)
text-IsCopier = at-IsCopier plain-IsCopier

pub integer-IsCopier : IsCopier (at {T = ℤ} plain) (copy_pointer {T = ℤ} pure)
integer-IsCopier = at-IsCopier plain-IsCopier

project_ref-IsCopier : IsCopier (at {T = ProjectRef} plain) (copy_pointer {T = ProjectRef} pure)
project_ref-IsCopier = at-IsCopier plain-IsCopier

secret_reference-IsCopier :
    IsCopier (at {T = SecretReference} plain) (copy_pointer {T = SecretReference} pure)
secret_reference-IsCopier = at-IsCopier plain-IsCopier

pub addresses-IsCopier :
    IsCopier (at {T = List MachineAddress} plain) (copy_pointer {T = List MachineAddress} pure)
addresses-IsCopier = at-IsCopier plain-IsCopier

vlan_config-Grows : Grows vlan_config_value
unfolding vlan_config_value
vlan_config-Grows f g w s =
    bind-grows (integer-IsCopier.grows f g w s.vid)
      λ _. bind-grows (text-IsCopier.grows f g w s.existing_vlan_id) λ _ _ e. e

vlan_config-Copies : Copies vlan_config_value vlan_config_deep_copy_into
unfolding vlan_config_value vlan_config_deep_copy_into
vlan_config-Copies n m le s x h₀ =
    copy_field integer-IsCopier n same le s.vid h₀ λ _ h1 _ m1 e1 d1 t1.
      copy_field text-IsCopier n e1 le s.existing_vlan_id h1 λ _ h2 _ m2 e2 d2 t2.
        made _ m2 same (bind-some _ _ (t1 m2 d2) (bind-some _ _ (t2 m2 same) h2))

pub vlan_config-IsCopier : IsCopier vlan_config_value vlan_config_deep_copy_into
vlan_config-IsCopier = record { grows = vlan_config-Grows; copies = vlan_config-Copies }

cluster_spec-Grows : Grows cluster_spec_value
unfolding cluster_spec_value
cluster_spec-Grows f g w s =
    bind-grows (project_ref-IsCopier.grows f g w s.project_ref)
      λ _. bind-grows ((at-IsCopier vlan_config-IsCopier).grows f g w s.vlan_config) λ _ _ e. e

cluster_spec-Copies : Copies cluster_spec_value cluster_spec_deep_copy_into
unfolding cluster_spec_value cluster_spec_deep_copy_into
cluster_spec-Copies n m le s x h₀ =
    copy_field project_ref-IsCopier n same le s.project_ref h₀ λ _ h1 _ m1 e1 d1 t1.
      copy_field (at-IsCopier vlan_config-IsCopier) n e1 le s.vlan_config h1 λ _ h2 _ m2 e2 d2 t2.
        made _ m2 same (bind-some _ _ (t1 m2 d2) (bind-some _ _ (t2 m2 same) h2))

pub cluster_spec-IsCopier : IsCopier cluster_spec_value cluster_spec_deep_copy_into
cluster_spec-IsCopier = record { grows = cluster_spec-Grows; copies = cluster_spec-Copies }

machine_spec-Grows : Grows machine_spec_value
unfolding machine_spec_value
machine_spec-Grows f g w s =
    bind-grows (text-IsCopier.grows f g w s.provider_id)
      λ _. bind-grows (secret_reference-IsCopier.grows f g w s.ssh_key_secret_ref) λ _ _ e. e

machine_spec-Copies : Copies machine_spec_value machine_spec_deep_copy_into
unfolding machine_spec_value machine_spec_deep_copy_into
machine_spec-Copies n m le s x h₀ =
    copy_field text-IsCopier n same le s.provider_id h₀ λ _ h1 _ m1 e1 d1 t1.
      copy_field secret_reference-IsCopier n e1 le s.ssh_key_secret_ref h1 λ _ h2 _ m2 e2 d2 t2.
        made _ m2 same (bind-some _ _ (t1 m2 d2) (bind-some _ _ (t2 m2 same) h2))

pub machine_spec-IsCopier : IsCopier machine_spec_value machine_spec_deep_copy_into
machine_spec-IsCopier = record { grows = machine_spec-Grows; copies = machine_spec-Copies }

template_resource-Grows : Grows template_resource_value
unfolding template_resource_value
template_resource-Grows f g w s = bind-grows (machine_spec-IsCopier.grows f g w s.spec) λ _ _ e. e

template_resource-Copies : Copies template_resource_value template_resource_deep_copy_into
unfolding template_resource_value template_resource_deep_copy_into
template_resource-Copies n m le s x h₀ =
    copy_field machine_spec-IsCopier n same le s.spec h₀
      λ _ h1 _ m1 e1 d1 t1. made _ m1 same (bind-some _ _ (t1 m1 same) h1)

pub template_resource-IsCopier : IsCopier template_resource_value template_resource_deep_copy_into
template_resource-IsCopier = record {
  grows = template_resource-Grows;
  copies = template_resource-Copies;
}

template_spec-Grows : Grows template_spec_value
unfolding template_spec_value
template_spec-Grows f g w s =
    bind-grows (template_resource-IsCopier.grows f g w s.template) λ _ _ e. e

template_spec-Copies : Copies template_spec_value template_spec_deep_copy_into
unfolding template_spec_value template_spec_deep_copy_into
template_spec-Copies n m le s x h₀ =
    copy_field template_resource-IsCopier n same le s.template h₀
      λ _ h1 _ m1 e1 d1 t1. made _ m1 same (bind-some _ _ (t1 m1 same) h1)

pub template_spec-IsCopier : IsCopier template_spec_value template_spec_deep_copy_into
template_spec-IsCopier = record { grows = template_spec-Grows; copies = template_spec-Copies }

pub meta-Grows : Grows meta_value
unfolding meta_value
meta-Grows f g w s =
    bind-grows ((at-IsCopier {T = StringMap} plain-IsCopier).grows f g w s.labels) λ _.
      bind-grows ((at-IsCopier {T = StringMap} plain-IsCopier).grows f g w s.annotations) λ _.
        bind-grows
          ((at-IsCopier {T = List OwnerReference} plain-IsCopier).grows f g w s.owner_references)
          λ _.
            bind-grows ((at-IsCopier {T = List String} plain-IsCopier).grows f g w s.finalizers)
              λ _.
                bind-grows ((at-IsCopier {T = ℕ} plain-IsCopier).grows f g w s.deletion_timestamp)
                  λ _ _ e. e

pub list_meta-Grows : Grows list_meta_value
unfolding list_meta_value
list_meta-Grows f g w s =
    bind-grows ((at-IsCopier {T = ℕ} plain-IsCopier).grows f g w s.remaining_item_count) λ _ _ e. e
