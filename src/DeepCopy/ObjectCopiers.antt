-- ===== src/DeepCopy/ObjectCopiers.antt =====
-- The `DeepCopyInto` of the objects, of their statuses and of the lists are copiers, where those
-- that they call in k8s.io/apimachinery are.
use cluster_api_provider_lat.Base.{List}
use cluster_api_provider_lat.Action.{Action, pure, ◌>>=◌}
use cluster_api_provider_lat.DeepCopy.Memory.{Memory, Kind, copy_pointer, copy_each}
use cluster_api_provider_lat.DeepCopy.Kinds.{
  text_kind, integer_kind, natural_kind, texts_kind, string_map_kind, owners_kind, conditions_kind,
  addresses_kind, secret_reference_kind, project_ref_kind, vlan_config_kind, clusters_kind,
  machines_kind, templates_kind,
}
use cluster_api_provider_lat.DeepCopy.Views.{
  View, plain, conditions_at, meta_value, list_meta_value, cluster_status_value, cluster_value,
  machine_status_value, machine_value, template_value, list_value,
}
use cluster_api_provider_lat.DeepCopy.Copy.{
  Apimachinery, cluster_status_deep_copy_into, cluster_deep_copy_into, cluster_list_deep_copy_into,
  machine_status_deep_copy_into, machine_deep_copy_into, machine_list_deep_copy_into,
  template_deep_copy_into, template_list_deep_copy_into,
}
use cluster_api_provider_lat.DeepCopy.MemoryLaws.{same, Extends-trans}
use cluster_api_provider_lat.DeepCopy.Copier.{
  Grows, Copies, IsCopier, made, bind-grows, bind-some, copy_field, at-IsCopier, each-IsCopier,
}
use cluster_api_provider_lat.DeepCopy.Copiers.{
  text-IsCopier, integer-IsCopier, addresses-IsCopier, cluster_spec-IsCopier, machine_spec-IsCopier,
  template_spec-IsCopier, meta-Grows, list_meta-Grows,
}

-- The documented behaviour of the apimachinery's own copies: they are deep.
pub record IsApimachinery (a : Apimachinery) : Type 0 where
  pub meta_copied : Copies meta_value a.copy_meta
  pub list_meta_copied : Copies list_meta_value a.copy_list_meta
  pub condition_copied : Copies plain a.copy_condition

module _ (a : Apimachinery) (deep : IsApimachinery a) where
  open deep use {meta_copied, list_meta_copied, condition_copied}

  meta-IsCopier : IsCopier meta_value a.copy_meta
  meta-IsCopier = record { grows = meta-Grows; copies = meta_copied }

  list_meta-IsCopier : IsCopier list_meta_value a.copy_list_meta
  list_meta-IsCopier = record { grows = list_meta-Grows; copies = list_meta_copied }

  conditions-IsCopier : IsCopier conditions_at (copy_pointer (copy_each a.copy_condition))
  conditions-IsCopier =
      at-IsCopier (each-IsCopier (record { grows = λ f g w s x h. h; copies = condition_copied }))

  cluster_status-Grows : Grows cluster_status_value
  unfolding cluster_status_value
  cluster_status-Grows f g w s = bind-grows (text-IsCopier.grows f g w s.vlan_id) λ _.
      bind-grows (integer-IsCopier.grows f g w s.vlan_vid)
        λ _. bind-grows (conditions-IsCopier.grows f g w s.conditions) λ _ _ e. e

  cluster_status-Copies : Copies cluster_status_value (cluster_status_deep_copy_into a)
  unfolding cluster_status_value cluster_status_deep_copy_into
  cluster_status-Copies n m le s x h₀ =
      copy_field text-IsCopier n same le s.vlan_id h₀ λ _ h1 _ m1 e1 d1 t1.
        copy_field integer-IsCopier n e1 le s.vlan_vid h1 λ _ h2 _ m2 e2 d2 t2.
          copy_field conditions-IsCopier n e2 le s.conditions h2 λ _ h3 _ m3 e3 d3 t3.
            made _ m3 same (
              bind-some _ _ (t1 m3 (Extends-trans d2 d3))
                (bind-some _ _ (t2 m3 d3) (bind-some _ _ (t3 m3 same) h3)))

  pub cluster_status-IsCopier : IsCopier cluster_status_value (cluster_status_deep_copy_into a)
  cluster_status-IsCopier = record { grows = cluster_status-Grows; copies = cluster_status-Copies }

  cluster-Grows : Grows cluster_value
  unfolding cluster_value
  cluster-Grows f g w s = bind-grows (meta-IsCopier.grows f g w s.meta) λ _.
      bind-grows (cluster_spec-IsCopier.grows f g w s.spec)
        λ _. bind-grows (cluster_status-IsCopier.grows f g w s.status) λ _ _ e. e

  cluster-Copies : Copies cluster_value (cluster_deep_copy_into a)
  unfolding cluster_value cluster_deep_copy_into
  cluster-Copies n m le s x h₀ = copy_field meta-IsCopier n same le s.meta h₀ λ _ h1 _ m1 e1 d1 t1.
      copy_field cluster_spec-IsCopier n e1 le s.spec h1 λ _ h2 _ m2 e2 d2 t2.
        copy_field cluster_status-IsCopier n e2 le s.status h2 λ _ h3 _ m3 e3 d3 t3.
          made _ m3 same (
            bind-some _ _ (t1 m3 (Extends-trans d2 d3))
              (bind-some _ _ (t2 m3 d3) (bind-some _ _ (t3 m3 same) h3)))

  pub cluster-IsCopier : IsCopier cluster_value (cluster_deep_copy_into a)
  cluster-IsCopier = record { grows = cluster-Grows; copies = cluster-Copies }

  machine_status-Grows : Grows machine_status_value
  unfolding machine_status_value
  machine_status-Grows f g w s = bind-grows (addresses-IsCopier.grows f g w s.addresses) λ _.
      bind-grows (text-IsCopier.grows f g w s.failure_reason) λ _.
        bind-grows (text-IsCopier.grows f g w s.failure_message)
          λ _. bind-grows (conditions-IsCopier.grows f g w s.conditions) λ _ _ e. e

  machine_status-Copies : Copies machine_status_value (machine_status_deep_copy_into a)
  unfolding machine_status_value machine_status_deep_copy_into
  machine_status-Copies n m le s x h₀ =
      copy_field addresses-IsCopier n same le s.addresses h₀ λ _ h1 _ m1 e1 d1 t1.
        copy_field text-IsCopier n e1 le s.failure_reason h1 λ _ h2 _ m2 e2 d2 t2.
          copy_field text-IsCopier n e2 le s.failure_message h2 λ _ h3 _ m3 e3 d3 t3.
            copy_field conditions-IsCopier n e3 le s.conditions h3 λ _ h4 _ m4 e4 d4 t4.
              made _ m4 same (
                bind-some _ _ (t1 m4 (Extends-trans d2 (Extends-trans d3 d4))) (
                  bind-some _ _ (t2 m4 (Extends-trans d3 d4))
                    (bind-some _ _ (t3 m4 d4) (bind-some _ _ (t4 m4 same) h4))))

  pub machine_status-IsCopier : IsCopier machine_status_value (machine_status_deep_copy_into a)
  machine_status-IsCopier = record { grows = machine_status-Grows; copies = machine_status-Copies }

  machine-Grows : Grows machine_value
  unfolding machine_value
  machine-Grows f g w s = bind-grows (meta-IsCopier.grows f g w s.meta) λ _.
      bind-grows (machine_spec-IsCopier.grows f g w s.spec)
        λ _. bind-grows (machine_status-IsCopier.grows f g w s.status) λ _ _ e. e

  machine-Copies : Copies machine_value (machine_deep_copy_into a)
  unfolding machine_value machine_deep_copy_into
  machine-Copies n m le s x h₀ = copy_field meta-IsCopier n same le s.meta h₀ λ _ h1 _ m1 e1 d1 t1.
      copy_field machine_spec-IsCopier n e1 le s.spec h1 λ _ h2 _ m2 e2 d2 t2.
        copy_field machine_status-IsCopier n e2 le s.status h2 λ _ h3 _ m3 e3 d3 t3.
          made _ m3 same (
            bind-some _ _ (t1 m3 (Extends-trans d2 d3))
              (bind-some _ _ (t2 m3 d3) (bind-some _ _ (t3 m3 same) h3)))

  pub machine-IsCopier : IsCopier machine_value (machine_deep_copy_into a)
  machine-IsCopier = record { grows = machine-Grows; copies = machine-Copies }

  template-Grows : Grows template_value
  unfolding template_value
  template-Grows f g w s =
      bind-grows (meta-IsCopier.grows f g w s.meta)
        λ _. bind-grows (template_spec-IsCopier.grows f g w s.spec) λ _ _ e. e

  template-Copies : Copies template_value (template_deep_copy_into a)
  unfolding template_value template_deep_copy_into
  template-Copies n m le s x h₀ = copy_field meta-IsCopier n same le s.meta h₀ λ _ h1 _ m1 e1 d1 t1.
      copy_field template_spec-IsCopier n e1 le s.spec h1 λ _ h2 _ m2 e2 d2 t2.
        made _ m2 same (bind-some _ _ (t1 m2 d2) (bind-some _ _ (t2 m2 same) h2))

  pub template-IsCopier : IsCopier template_value (template_deep_copy_into a)
  template-IsCopier = record { grows = template-Grows; copies = template-Copies }

  -- The three lists are copied alike.
  module _ {T V : Type 0} ⦃k : Kind (List T)⦄ {v : View T V} {copy : T → Action Memory T}
      (c : IsCopier v copy) where
    list-Grows : Grows (list_value v)
    unfolding list_value
    list-Grows f g w l =
        bind-grows (list_meta-IsCopier.grows f g w l.meta)
          λ _. bind-grows ((at-IsCopier (each-IsCopier c)).grows f g w l.items) λ _ _ e. e

    list-IsCopier : IsCopier (list_value v) (λ l. do
      meta ← a.copy_list_meta l.meta
      items ← copy_pointer (copy_each copy) l.items
      pure (record l { meta = meta; items = items }))
    unfolding list_value
    list-IsCopier = record {
      grows = list-Grows;
      copies = λ n m le s x h₀.
          copy_field list_meta-IsCopier n same le s.meta h₀ λ _ h1 _ m1 e1 d1 t1.
            copy_field (at-IsCopier (each-IsCopier c)) n e1 le s.items h1 λ _ h2 _ m2 e2 d2 t2.
              made _ m2 same (bind-some _ _ (t1 m2 d2) (bind-some _ _ (t2 m2 same) h2));
    }

  pub cluster_list-IsCopier : IsCopier (list_value cluster_value) (cluster_list_deep_copy_into a)
  unfolding cluster_list_deep_copy_into
  cluster_list-IsCopier = list-IsCopier cluster-IsCopier

  pub machine_list-IsCopier : IsCopier (list_value machine_value) (machine_list_deep_copy_into a)
  unfolding machine_list_deep_copy_into
  machine_list-IsCopier = list-IsCopier machine-IsCopier

  pub template_list-IsCopier : IsCopier (list_value template_value) (template_list_deep_copy_into a)
  unfolding template_list_deep_copy_into
  template_list-IsCopier = list-IsCopier template-IsCopier
