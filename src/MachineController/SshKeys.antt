-- ===== src/MachineController/SshKeys.antt =====
-- `getSSHKeys` of latitudemachine_controller.go.
use cluster_api_provider_lat.Base.{String, ◌<>◌, Option, none, some, List, [], ◌∷◌}
use cluster_api_provider_lat.Base.{◌==◌, string_eq, if◌then◌else◌}
use cluster_api_provider_lat.Go.Errors.{plain, wrapped, is_not_found}
use cluster_api_provider_lat.Go.Strings.{trim_space, split}
use cluster_api_provider_lat.Action.{
  Action, value, error, pure, fail, attempt, ◌>>=◌, when◌then◌else◌,
}
use cluster_api_provider_lat.Api.{NamespacedName, Secret, SecretReference, LatitudeMachine, lookup}
use cluster_api_provider_lat.Kube.{Kube}

abbrev key_names : List String
key_names = "ssh-key-ids" ∷ "sshKeys" ∷ "ssh_keys" ∷ "keys" ∷ []

-- The value of the first of the names that the secret has.
unfoldable pub first_of_names : List String → Secret → Option String
first_of_names [] secret = none
first_of_names (name ∷ names) secret = elim (lookup name secret) [
  | some v ↦ some v
  | none ↦ first_of_names names secret
]

-- Trims each part and leaves out what is empty then.
unfoldable pub trimmed_parts : List String → List String
unfolding trim_space
trimmed_parts [] = []
trimmed_parts (part ∷ parts) =
    let trimmed = trim_space part in
    let rest = trimmed_parts parts in if trimmed == "" then rest else trimmed ∷ rest

unfoldable pub parse_ssh_keys : String → List String
unfolding trimmed_parts split
parse_ssh_keys text =
    let trimmed = trim_space text in
    if trimmed == "" then [] else trimmed_parts (split trimmed b',')

-- The namespace of the reference, or else that of the machine.
abbrev pub secret_key : SecretReference → LatitudeMachine → NamespacedName
secret_key ref m = record {
  namespace = if ref.namespace == "" then m.meta.namespace else ref.namespace;
  name = ref.name;
}

abbrev pub secret_label : NamespacedName → String
secret_label key = key.namespace <> ("/" <> key.name)

abbrev pub keys_of_secret : {S : Type 0} → NamespacedName → Secret → Action S (List String)
keys_of_secret key secret = elim (first_of_names key_names secret) [
  | some text ↦ pure (parse_ssh_keys text)
  | none ↦ fail (
      plain (
        "SSH key secret "
        <> (secret_label key
            <> " does not contain any of the expected keys (ssh-key-ids, sshKeys, ssh_keys, keys)")))
]

module _ {W : Type 0} (kube : Kube W) where
  unfoldable pub get_ssh_keys : LatitudeMachine → Action W (List String)
  unfolding first_of_names parse_ssh_keys
  get_ssh_keys m = elim (m.spec.ssh_key_secret_ref) [
    | none ↦ pure []
    | some ref ↦
        let key = secret_key ref m in
        attempt (kube.get_secret key) >>= elim [
          | error e ↦
              when is_not_found e
              then fail (plain ("SSH key secret " <> (secret_label key <> " not found")))
              else fail (wrapped "failed to get SSH key secret" e)
          | value secret ↦ keys_of_secret key secret
        ]
  ]
