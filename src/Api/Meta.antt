-- ===== src/Api/Meta.antt =====
-- Fields of Kubernetes and Cluster API objects. A map is an association list; a missing key and a
-- nil map read alike. A time is a number of seconds, and 0 is Go's zero time.
use cluster_api_provider_lat.Base.{ℕ, String, Bool, true, false, Option, none, some, List, [], ◌∷◌}
use cluster_api_provider_lat.Base.{◌==◌, string_eq, nat_eq, if◌then◌else◌}

abbrev pub StringMap : Type 0
StringMap = List (String × String)

abbrev pub lookup : String → StringMap → Option String
lookup k [] = none
lookup k ((j, v) ∷ m) = if j == k then some v else lookup k m

abbrev pub has_key : String → StringMap → Bool
has_key k m = elim (lookup k m) [ none ↦ false | some _ ↦ true ]

pub record NamespacedName : Type 0 where
  pub namespace : String
  pub name : String

pub record OwnerReference : Type 0 where
  pub api_version : String
  pub kind : String
  pub name : String

pub record ObjectMeta : Type 0 where
  pub name : String
  pub namespace : String
  pub uid : String
  pub generation : ℕ
  pub labels : StringMap
  pub annotations : StringMap
  pub owner_references : List OwnerReference
  pub finalizers : List String
  pub deletion_timestamp : Option ℕ

-- `!obj.DeletionTimestamp.IsZero()`
abbrev pub is_deleted : ObjectMeta → Bool
is_deleted m = elim (m.deletion_timestamp) [
  | none ↦ false
  | some t ↦ if t == 0 then false else true
]

-- `metav1.Condition`
pub record Condition : Type 0 where
  pub type : String
  pub status : String
  pub reason : String
  pub message : String
  pub observed_generation : ℕ
  pub last_transition_time : ℕ

abbrev pub condition_true : String
condition_true = "True"

abbrev pub condition_false : String
condition_false = "False"

-- `corev1.SecretReference`
pub record SecretReference : Type 0 where
  pub name : String
  pub namespace : String

-- `corev1.Secret`
abbrev pub Secret : Type 0
Secret = StringMap

-- `clusterv1.MachineAddress`, and its types that the code names
pub record MachineAddress : Type 0 where
  pub type : String
  pub address : String

abbrev pub machine_external_ip : String
machine_external_ip = "ExternalIP"

abbrev pub machine_internal_ip : String
machine_internal_ip = "InternalIP"

abbrev pub machine_host_name : String
machine_host_name = "Hostname"

-- `clusterv1.Machine`
pub record Machine : Type 0 where
  pub meta : ObjectMeta
  pub failure_domain : Option String
  pub data_secret_name : Option String
  pub infrastructure_ref : NamespacedName

-- `clusterv1.Cluster`, where `Spec.InfrastructureRef` is a pointer
pub record Cluster : Type 0 where
  pub meta : ObjectMeta
  pub infrastructure_ref : Option NamespacedName
