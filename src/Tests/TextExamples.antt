-- ===== src/Tests/TextExamples.antt =====
-- The theorems on addresses and on user data at concrete inputs.
use cluster_api_provider_lat.Base.{ℕ, ◌+◌, ◌≤◌, String, ◌<>◌, true, false, some, ◌≡◌, ◌⊎◌, refl}
use cluster_api_provider_lat.Base.Int.{pos}
use cluster_api_provider_lat.Action.{value}
use cluster_api_provider_lat.Go.Net.{parse_cidr, to4, apply_mask, show_ipv4}
use cluster_api_provider_lat.Vlan.{
  VlanNetplanConfig, inject_vlan_config_into_cloud_init, escape_for_yaml, calculate_vlan_ip_address,
  get_machine_index,
}
use cluster_api_provider_lat.Vlan.CloudInit.{
  IsInsertion, IsAppendix, is_incomplete, inject_vlan_config_into_cloud_init_lem,
}
use cluster_api_provider_lat.Go.Strings.{join, trim_space}
use cluster_api_provider_lat.MachineController.SshKeys.{parse_ssh_keys}
use cluster_api_provider_lat.MachineController.SshKeyLaws.{parse_ssh_keys-join}
use cluster_api_provider_lat.Vlan.Subnet.{machine_address_in_subnet}
use cluster_api_provider_lat.Base.{[], ◌∷◌, arith}
use cluster_api_provider_lat.Vlan.Address.{machine_address_range}
use cluster_api_provider_lat.Vlan.Index.{get_machine_index_collision}
use cluster_api_provider_lat.Vlan.Yaml.{read_quoted, read_quoted-escape_for_yaml}

abbrev a_config : VlanNetplanConfig
a_config = record {
  vid = pos 2007;
  subnet = "10.8.0.0/24";
  ip_address = "10.8.0.17";
  interface = "eno2";
}

abbrev some_user_data : String
some_user_data = "#cloud-config\nruncmd:\n  - 'true'\n"

inject_vlan_config_into_cloud_init_lem_example :
    let out = inject_vlan_config_into_cloud_init some_user_data a_config in
    ((is_incomplete a_config ≡ true) × (out ≡ some_user_data))
    ⊎ ((is_incomplete a_config ≡ false)
        × (IsInsertion some_user_data a_config out ⊎ IsAppendix some_user_data a_config out))
inject_vlan_config_into_cloud_init_lem_example =
    inject_vlan_config_into_cloud_init_lem some_user_data a_config

machine_address_range_example :
    (host : ℕ) × (calculate_vlan_ip_address "10.8.0.0/24" (get_machine_index "md-0-bpxyz")
      ≡ value (show_ipv4 (10, 8, 0, host)))
    × (host ≡ 10 + get_machine_index "md-0-bpxyz")
    × (10 ≤ host)
    × (host ≤ 250)
unfolding parse_cidr to4
machine_address_range_example = machine_address_range "10.8.0.0/24" "md-0-bpxyz" refl refl

get_machine_index_collision_example :
    get_machine_index "md-0-bpxyz" ≡ get_machine_index "md-0-d2xyz"
get_machine_index_collision_example = get_machine_index_collision "md-0-" "xyz" "b" "p" "d" "2" refl

read_quoted-escape_for_yaml_example :
    read_quoted false (escape_for_yaml "yq -r '.network'" <> ("'" <> "\n"))
    ≡ some ("yq -r '.network'", "\n")
read_quoted-escape_for_yaml_example = read_quoted-escape_for_yaml "yq -r '.network'" "\n" refl

machine_address_in_subnet_example :
    (host : ℕ) × (calculate_vlan_ip_address "10.8.0.0/22" (get_machine_index "md-0-bpxyz")
      ≡ value (show_ipv4 (10, 8, 0, host)))
    × (apply_mask (10 ∷ 8 ∷ 0 ∷ host ∷ []) 22 ≡ 10 ∷ 8 ∷ 0 ∷ 0 ∷ [])
unfolding parse_cidr
machine_address_in_subnet_example =
    machine_address_in_subnet "10.8.0.0/22" "md-0-bpxyz"
      (record { ip = 10 ∷ 8 ∷ 0 ∷ 0 ∷ []; ones = 22 }) 10 8 0 0 refl refl (omega arith)
      (omega arith)

parse_ssh_keys-join_example :
    parse_ssh_keys (join ("ssh_1" ∷ "ssh_2" ∷ []) ",") ≡ "ssh_1" ∷ "ssh_2" ∷ []
unfolding trim_space
parse_ssh_keys-join_example = parse_ssh_keys-join ("ssh_1" ∷ "ssh_2" ∷ []) refl
