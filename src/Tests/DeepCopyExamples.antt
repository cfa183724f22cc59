-- ===== src/Tests/DeepCopyExamples.antt =====
-- Copies of a small object.
use cluster_api_provider_lat.Base.{
  ℕ, String, List, [], ◌∷◌, none, some, true, ◌≡◌, refl, ltb, if◌then◌else◌, arith,
}
use cluster_api_provider_lat.Base.Int.{pos}
use cluster_api_provider_lat.Action.{Action, ok, pure, ◌>>=◌}
use cluster_api_provider_lat.Api.{StringMap, OwnerReference}
use cluster_api_provider_lat.DeepCopy.Layout.{
  Ref, ObjectMetaStruct, ListMetaStruct, MachineStruct, text, string_map, machine, conditions,
  vlan_config, integer,
}
use cluster_api_provider_lat.DeepCopy.Memory.{
  Memory, Store, read, above, new, load, copy_pointer, copy_each,
}
use cluster_api_provider_lat.DeepCopy.Kinds.{
  text_kind, natural_kind, texts_kind, string_map_kind, owners_kind,
}
use cluster_api_provider_lat.DeepCopy.Views.{
  vlan_config_value, at, each, meta_value, list_meta_value, machine_value, machine_spec_value,
  machine_status_value, Content, PartContent, object_value, part_value,
}
use cluster_api_provider_lat.DeepCopy.Copy.{
  Apimachinery, latitude_machine, vlan_config_part, as_object, machine_deep_copy_object,
  machine_deep_copy, machine_deep_copy_into, machine_spec_deep_copy_into,
  machine_status_deep_copy_into, deep_copy_object, deep_copy_part,
}
use cluster_api_provider_lat.DeepCopy.MemoryLaws.{same, Extends-trans}
use cluster_api_provider_lat.DeepCopy.Copier.{
  Copies, made, bind-some, copy_field, plain-IsCopier, at-IsCopier,
}
use cluster_api_provider_lat.DeepCopy.ObjectCopiers.{IsApimachinery}
use cluster_api_provider_lat.DeepCopy.Laws.{
  deep_copy_object_copies, deep_copy_object_isolates, deep_copy_part_copies,
}

copy_small_meta : ObjectMetaStruct → Action Memory ObjectMetaStruct
copy_small_meta s = do
  labels ← copy_pointer {T = StringMap} pure s.labels
  annotations ← copy_pointer {T = StringMap} pure s.annotations
  owner_references ← copy_pointer {T = List OwnerReference} pure s.owner_references
  finalizers ← copy_pointer {T = List String} pure s.finalizers
  deletion_timestamp ← copy_pointer {T = ℕ} pure s.deletion_timestamp
  pure (record s {
    labels = labels;
    annotations = annotations;
    owner_references = owner_references;
    finalizers = finalizers;
    deletion_timestamp = deletion_timestamp;
  })

copy_small_list_meta : ListMetaStruct → Action Memory ListMetaStruct
copy_small_list_meta s = do
  remaining_item_count ← copy_pointer {T = ℕ} pure s.remaining_item_count
  pure (record s { remaining_item_count = remaining_item_count })

abbrev small_apimachinery : Apimachinery
small_apimachinery = record {
  copy_meta = copy_small_meta;
  copy_list_meta = copy_small_list_meta;
  copy_condition = pure;
}

small_meta-Copies : Copies meta_value copy_small_meta
unfolding meta_value copy_small_meta
small_meta-Copies n m le s x h₀ =
    copy_field (at-IsCopier {T = StringMap} plain-IsCopier) n same le s.labels h₀
      λ _ h1 _ m1 e1 d1 t1.
        copy_field (at-IsCopier {T = StringMap} plain-IsCopier) n e1 le s.annotations h1
          λ _ h2 _ m2 e2 d2 t2.
            copy_field (at-IsCopier {T = List OwnerReference} plain-IsCopier) n e2 le
              s.owner_references h2
              λ _ h3 _ m3 e3 d3 t3.
                copy_field (at-IsCopier {T = List String} plain-IsCopier) n e3 le s.finalizers h3
                  λ _ h4 _ m4 e4 d4 t4.
                    copy_field (at-IsCopier {T = ℕ} plain-IsCopier) n e4 le s.deletion_timestamp h4
                      λ _ h5 _ m5 e5 d5 t5. made _ m5 same (
                        bind-some _ _
                          (t1 m5 (Extends-trans d2 (Extends-trans d3 (Extends-trans d4 d5))))
                          (bind-some _ _ (t2 m5 (Extends-trans d3 (Extends-trans d4 d5))) (
                            bind-some _ _ (t3 m5 (Extends-trans d4 d5))
                              (bind-some _ _ (t4 m5 d5) (bind-some _ _ (t5 m5 same) h5)))))

small_list_meta-Copies : Copies list_meta_value copy_small_list_meta
unfolding list_meta_value copy_small_list_meta
small_list_meta-Copies n m le s x h₀ =
    copy_field (at-IsCopier {T = ℕ} plain-IsCopier) n same le s.remaining_item_count h₀
      λ _ h1 _ m1 e1 d1 t1. made _ m1 same (bind-some _ _ (t1 m1 same) h1)

small_apimachinery_deep : IsApimachinery small_apimachinery
small_apimachinery_deep = record {
  meta_copied = small_meta-Copies;
  list_meta_copied = small_list_meta-Copies;
  condition_copied = plain-IsCopier.copies;
}

-- A machine at 4, with a provider id at 0, labels at 1, a failure reason at 2 and no condition at 3.
abbrev a_struct : MachineStruct
a_struct = record {
  type_meta = record { kind = "LatitudeMachine"; api_version = "v1beta1" };
  meta = record {
    name = "worker";
    namespace = "default";
    uid = "uid";
    generation = 1;
    labels = some 1;
    annotations = none;
    owner_references = none;
    finalizers = none;
    deletion_timestamp = none;
  };
  spec = record {
    provider_id = some 0;
    operating_system = "ubuntu";
    plan = "c2";
    ssh_key_secret_ref = none;
  };
  status = record {
    ready = true;
    provider_id = "latitude://sv_1";
    server_id = "sv_1";
    user_data_id = "";
    addresses = none;
    failure_reason = some 2;
    failure_message = none;
    conditions = some 3;
  };
}

abbrev a_memory : Memory
a_memory =
    machine a_struct
    ∷ conditions []
    ∷ text "InstanceNotReady"
    ∷ string_map (("role", "worker") ∷ [])
    ∷ text "latitude://sv_1"
    ∷ []

abbrev a_value : Content latitude_machine
unfolding Content
a_value = (
  a_struct.type_meta,
  record {
    meta = record {
      name = "worker";
      namespace = "default";
      uid = "uid";
      generation = 1;
      labels = ("role", "worker") ∷ [];
      annotations = [];
      owner_references = [];
      finalizers = [];
      deletion_timestamp = none;
    };
    spec = record {
      provider_id = some "latitude://sv_1";
      operating_system = "ubuntu";
      plan = "c2";
      ssh_key_secret_ref = none;
    };
    status = record {
      ready = true;
      provider_id = "latitude://sv_1";
      server_id = "sv_1";
      user_data_id = "";
      addresses = [];
      failure_reason = some "InstanceNotReady";
      failure_message = none;
      conditions = [];
    };
  },
)

abbrev copied_memory : Memory
copied_memory = (deep_copy_object small_apimachinery latitude_machine (some 4) a_memory).1

value_of_machine : object_value latitude_machine (read a_memory) (some 4) ≡ some (some a_value)
unfolding object_value at read each meta_value machine_value machine_spec_value machine_status_value
    Content
value_of_machine = refl

copy_of_machine :
    deep_copy_object small_apimachinery latitude_machine (some 4) a_memory
    ≡ (ok (as_object latitude_machine (some 9)), copied_memory)
unfolding deep_copy_object machine_deep_copy_object machine_deep_copy machine_deep_copy_into
    machine_spec_deep_copy_into machine_status_deep_copy_into copy_pointer copy_each load new read
    as_object copy_small_meta
copy_of_machine = refl

deep_copy_object_copies_example :
    (q : Ref) × (k : Memory) × (deep_copy_object small_apimachinery latitude_machine
        (some 4)
        a_memory
      ≡ (ok (as_object latitude_machine q), k))
    × (object_value latitude_machine (read k) (some 4) ≡ some (some a_value))
    × (object_value latitude_machine (read k) q ≡ some (some a_value))
deep_copy_object_copies_example =
    deep_copy_object_copies small_apimachinery small_apimachinery_deep latitude_machine a_memory
      (some 4) (some a_value) value_of_machine

-- The older cells, and the new ones.
abbrev old_cells : Store
old_cells p = if ltb p 5 then read copied_memory p else none

deep_copy_object_isolates_example :
    (object_value latitude_machine old_cells (some 4) ≡ some (some a_value))
    × (object_value latitude_machine (above 5 copied_memory) (some 9) ≡ some (some a_value))
deep_copy_object_isolates_example =
    deep_copy_object_isolates small_apimachinery small_apimachinery_deep latitude_machine a_memory
      (some 4) (some a_value) value_of_machine (some 9) copied_memory copy_of_machine old_cells
      (above 5 copied_memory) (λ p h. ground arith) (λ p h. ground arith)

-- A VLAN configuration at 1, with its number at 0.
abbrev vlan_memory : Memory
vlan_memory =
    vlan_config (record {
      subnet = "10.8.0.0/24";
      vid = some 0;
      existing_vlan_id = none;
      network_interface = "eno2";
    })
    ∷ integer (pos 2011)
    ∷ []

abbrev vlan_value : PartContent vlan_config_part
unfolding PartContent
vlan_value = record {
  subnet = "10.8.0.0/24";
  vid = some (pos 2011);
  existing_vlan_id = none;
  network_interface = "eno2";
}

value_of_vlan : part_value vlan_config_part (read vlan_memory) (some 1) ≡ some (some vlan_value)
unfolding part_value at read vlan_config_value PartContent
value_of_vlan = refl

deep_copy_part_copies_example :
    (q : Ref) × (k : Memory) × (deep_copy_part small_apimachinery vlan_config_part
        (some 1)
        vlan_memory
      ≡ (ok q, k))
    × (part_value vlan_config_part (read k) (some 1) ≡ some (some vlan_value))
    × (part_value vlan_config_part (above 2 k) q ≡ some (some vlan_value))
deep_copy_part_copies_example =
    deep_copy_part_copies small_apimachinery small_apimachinery_deep vlan_config_part vlan_memory
      (some 1) (some vlan_value) value_of_vlan
