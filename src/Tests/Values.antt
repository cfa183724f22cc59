-- ===== src/Tests/Values.antt =====
-- Known values.
use cluster_api_provider_lat.Base.{none, [], ◌∷◌, ◌≡◌, refl}
use cluster_api_provider_lat.Go.Base64.{encode_to_string}
use cluster_api_provider_lat.Go.Net.{parse_cidr, to4, show_ipv4}
use cluster_api_provider_lat.Action.{value}
use cluster_api_provider_lat.Vlan.{calculate_vlan_ip_address, get_machine_index, escape_for_yaml}
use cluster_api_provider_lat.MachineController.SshKeys.{parse_ssh_keys}

index_of_name : get_machine_index "cluster-control-plane-926v4" ≡ 198
unfolding get_machine_index
index_of_name = refl

address_of_machine : calculate_vlan_ip_address "10.8.0.0/24" 7 ≡ value "10.8.0.17"
unfolding calculate_vlan_ip_address parse_cidr to4 show_ipv4
address_of_machine = refl

encoded : encode_to_string "light wλ" ≡ "bGlnaHQgd867"
unfolding encode_to_string
encoded = refl

escaped : escape_for_yaml "it's" ≡ "it''s"
unfolding escape_for_yaml
escaped = refl

keys_parsed : parse_ssh_keys " a, ,b\n" ≡ "a" ∷ "b" ∷ []
unfolding parse_ssh_keys
keys_parsed = refl

no_prefix : parse_cidr "10.8.0.0" ≡ none
unfolding parse_cidr
no_prefix = refl
