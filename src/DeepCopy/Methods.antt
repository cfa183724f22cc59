-- ===== src/DeepCopy/Methods.antt =====
-- Every `DeepCopy` and every `DeepCopyObject` runs as the copier of its type.
use cluster_api_provider_lat.Base.{Option, none, some, ◌≡◌, refl, arith}
use cluster_api_provider_lat.Action.{Outcome, pure, ◌>>=◌}
use cluster_api_provider_lat.DeepCopy.Layout.{Ref}
use cluster_api_provider_lat.DeepCopy.Memory.{Memory, next, read, above, copy_pointer}
use cluster_api_provider_lat.DeepCopy.Kinds.{
  cluster_kind, machine_kind, template_kind, list_kind, api_endpoint_kind, project_ref_kind,
  vlan_config_kind, cluster_spec_kind, cluster_status_kind, machine_spec_kind, machine_status_kind,
  template_resource_kind, template_spec_kind,
}
use cluster_api_provider_lat.DeepCopy.Views.{object_value, part_value, Content, PartContent}
use cluster_api_provider_lat.DeepCopy.Copy.{
  Apimachinery, ObjectType, latitude_cluster, latitude_cluster_list, latitude_machine,
  latitude_machine_list, latitude_machine_template, latitude_machine_template_list, as_object,
  deep_copy_object, deep_copy_part, PartType, api_endpoint_part, project_ref_part, vlan_config_part,
  cluster_spec_part, cluster_status_part, machine_spec_part, machine_status_part,
  template_resource_part, template_spec_part,
}
use cluster_api_provider_lat.DeepCopy.Copy.{
  api_endpoint_deep_copy, project_ref_deep_copy, vlan_config_deep_copy, cluster_spec_deep_copy,
  cluster_status_deep_copy, machine_spec_deep_copy, machine_status_deep_copy,
  template_resource_deep_copy, template_spec_deep_copy, api_endpoint_deep_copy_into,
  project_ref_deep_copy_into, cluster_deep_copy, cluster_deep_copy_object, cluster_list_deep_copy,
  cluster_list_deep_copy_object, machine_deep_copy, machine_deep_copy_object,
  machine_list_deep_copy, machine_list_deep_copy_object, template_deep_copy,
  template_deep_copy_object, template_list_deep_copy, template_list_deep_copy_object,
}
use cluster_api_provider_lat.DeepCopy.Copier.{
  Grows, IsCopier, Made, made, plain-IsCopier, at-IsCopier,
}
use cluster_api_provider_lat.DeepCopy.Copiers.{
  vlan_config-IsCopier, cluster_spec-IsCopier, machine_spec-IsCopier, template_resource-IsCopier,
  template_spec-IsCopier,
}
use cluster_api_provider_lat.DeepCopy.ObjectCopiers.{
  IsApimachinery, cluster_status-IsCopier, machine_status-IsCopier, cluster-IsCopier,
  machine-IsCopier, template-IsCopier, cluster_list-IsCopier, machine_list-IsCopier,
  template_list-IsCopier,
}

-- `as_object` keeps the pointer.
pub as_object_inj : (t : ObjectType) (q r : Ref) → as_object t q ≡ as_object t r → q ≡ r
unfolding as_object
as_object_inj t none none h = refl
as_object_inj t (some q) (some r) h = cc
as_object_inj t none (some r) h = cc
as_object_inj t (some q) none h = cc

-- `DeepCopyObject` is `DeepCopy`, in an interface.
boxed :
    (t : ObjectType) {m : Memory} {Q : Memory → Ref → Type 0} {s : Outcome Ref × Memory}
    → Made m Q s
    → Made m
        (λ k o. (q : Ref) × (o ≡ as_object t q) × Q k q)
        (((λ _. s) >>= λ c. pure (as_object t c)) m)
boxed t (made q k e h) = made (as_object t q) k e (q, refl, h)

module _ (a : Apimachinery) (deep : IsApimachinery a) where
  pub part-IsCopier : (t : PartType) → IsCopier (part_value t) (deep_copy_part a t)
  unfolding part_value PartContent deep_copy_part copy_pointer api_endpoint_deep_copy
      project_ref_deep_copy vlan_config_deep_copy cluster_spec_deep_copy cluster_status_deep_copy
      machine_spec_deep_copy machine_status_deep_copy template_resource_deep_copy
      template_spec_deep_copy api_endpoint_deep_copy_into project_ref_deep_copy_into
  part-IsCopier api_endpoint_part = at-IsCopier plain-IsCopier
  part-IsCopier project_ref_part = at-IsCopier plain-IsCopier
  part-IsCopier vlan_config_part = at-IsCopier vlan_config-IsCopier
  part-IsCopier cluster_spec_part = at-IsCopier cluster_spec-IsCopier
  part-IsCopier cluster_status_part = at-IsCopier (cluster_status-IsCopier a deep)
  part-IsCopier machine_spec_part = at-IsCopier machine_spec-IsCopier
  part-IsCopier machine_status_part = at-IsCopier (machine_status-IsCopier a deep)
  part-IsCopier template_resource_part = at-IsCopier template_resource-IsCopier
  part-IsCopier template_spec_part = at-IsCopier template_spec-IsCopier

  pub object-Grows : (t : ObjectType) → Grows (object_value t)
  unfolding object_value Content
  object-Grows latitude_cluster = (at-IsCopier (cluster-IsCopier a deep)).grows
  object-Grows latitude_cluster_list = (at-IsCopier (cluster_list-IsCopier a deep)).grows
  object-Grows latitude_machine = (at-IsCopier (machine-IsCopier a deep)).grows
  object-Grows latitude_machine_list = (at-IsCopier (machine_list-IsCopier a deep)).grows
  object-Grows latitude_machine_template = (at-IsCopier (template-IsCopier a deep)).grows
  object-Grows latitude_machine_template_list = (at-IsCopier (template_list-IsCopier a deep)).grows

  pub object-Made :
      (t : ObjectType) (m : Memory) (r : Ref) (x : Option (Content t))
      → object_value t (read m) r ≡ some x
      → Made m
          (λ k o. (q : Ref) × (o ≡ as_object t q) × (object_value t (above (next m) k) q ≡ some x))
          (deep_copy_object a t r m)
  unfolding object_value Content deep_copy_object cluster_deep_copy cluster_deep_copy_object
      cluster_list_deep_copy cluster_list_deep_copy_object machine_deep_copy
      machine_deep_copy_object machine_list_deep_copy machine_list_deep_copy_object
      template_deep_copy template_deep_copy_object template_list_deep_copy
      template_list_deep_copy_object
  object-Made latitude_cluster m r x h =
      boxed latitude_cluster
        ((at-IsCopier (cluster-IsCopier a deep)).copies (next m) m (omega arith) r x h)
  object-Made latitude_cluster_list m r x h =
      boxed latitude_cluster_list
        ((at-IsCopier (cluster_list-IsCopier a deep)).copies (next m) m (omega arith) r x h)
  object-Made latitude_machine m r x h =
      boxed latitude_machine
        ((at-IsCopier (machine-IsCopier a deep)).copies (next m) m (omega arith) r x h)
  object-Made latitude_machine_list m r x h =
      boxed latitude_machine_list
        ((at-IsCopier (machine_list-IsCopier a deep)).copies (next m) m (omega arith) r x h)
  object-Made latitude_machine_template m r x h =
      boxed latitude_machine_template
        ((at-IsCopier (template-IsCopier a deep)).copies (next m) m (omega arith) r x h)
  object-Made latitude_machine_template_list m r x h =
      boxed latitude_machine_template_list
        ((at-IsCopier (template_list-IsCopier a deep)).copies (next m) m (omega arith) r x h)
