-- ===== src/Vlan.antt =====
-- internal/controller/vlan_config.go, and `getMachineIndex` of latitudemachine_controller.go: the
-- address of a machine in its VLAN, and the configuration that is put into its user data.
pub mod Index
pub mod Address
pub mod Subnet
pub mod CloudInit
pub mod Yaml
use Prim.Native.String.{slice, len}
use cluster_api_provider_lat.Base.{ℕ, ◌+◌, ◌-◌, ◌*◌, ◌%◌, ◌^◌, code, String, ◌<>◌, Bool, ◌||◌}
use cluster_api_provider_lat.Base.{true, false, Option, none, some}
use cluster_api_provider_lat.Base.{◌==◌, string_eq, ltb, if◌then◌else◌}
use cluster_api_provider_lat.Base.Int.{ℤ, pos, negsuc}
use cluster_api_provider_lat.Go.Errors.{plain, wrapped}
use cluster_api_provider_lat.Go.Strings.{index, replace_all, decimal, show_int}
use cluster_api_provider_lat.Go.Net.{Ipv4, parse_cidr, parse_cidr_error, to4, show_ipv4}
use cluster_api_provider_lat.Action.{Result, value, error}

abbrev pub default_vlan_interface : String
default_vlan_interface = "eno2"

pub record VlanNetplanConfig : Type 0 where
  pub vid : ℤ
  pub subnet : String
  pub ip_address : String
  pub interface : String

abbrev or_default : String → String
or_default interface = if interface == "" then default_vlan_interface else interface

-- The prefix length of the subnet, and 24 if it does not parse.
unfoldable pub mask_size : String → ℕ
unfolding parse_cidr
mask_size subnet = elim (parse_cidr subnet) [ none ↦ 24 | some net ↦ net.ones ]

unfoldable pub generate_vlan_netplan_config : VlanNetplanConfig → String
unfolding mask_size show_int decimal
generate_vlan_netplan_config cfg =
    "  vlans:\n    vlan."
    <> (show_int cfg.vid
        <> (":\n      id: "
            <> (show_int cfg.vid
                <> ("\n      link: "
                    <> (or_default cfg.interface
                        <> ("\n      addresses: ["
                            <> (cfg.ip_address
                                <> ("/" <> (decimal (mask_size cfg.subnet) <> "]\n")))))))))

-- Doubles each single quote.
unfoldable pub escape_for_yaml : String → String
unfolding replace_all
escape_for_yaml s = replace_all s b'\'' "''"

-- The shell command; the parent interface that it falls back to is always the default one.
unfoldable pub vlan_command : VlanNetplanConfig → String
unfolding mask_size show_int decimal
vlan_command cfg =
    "if ! command -v yq >/dev/null 2>&1; then apt-get update -qq && apt-get install -y yq >/dev/null 2>&1; fi;PRIV_IFACE=$(yq -r '.network.ethernets | to_entries[] | select(.value.gateway4 == null) | .key' /etc/netplan/50-cloud-init.yaml 2>/dev/null | head -1); if [ -z \"$PRIV_IFACE\" ]; then PRIV_IFACE=\""
    <> (default_vlan_interface
        <> ("\"; fi; printf \"\\n    vlans:\\n        vlan."
            <> (show_int cfg.vid
                <> (":\\n            id: "
                    <> (show_int cfg.vid
                        <> ("\\n            link: $PRIV_IFACE\\n            addresses: ["
                            <> (cfg.ip_address
                                <> ("/"
                                    <> (decimal (mask_size cfg.subnet)
                                        <> ("]\\n\" >> /etc/netplan/50-cloud-init.yaml && netplan apply && mkdir -p /etc/rancher/rke2/config.yaml.d && echo \"node-ip: "
                                            <> (cfg.ip_address
                                                <> "\" > /etc/rancher/rke2/config.yaml.d/99-node-ip.yaml")))))))))))

abbrev pub entry : VlanNetplanConfig → String
entry cfg = "  - '" <> (escape_for_yaml (vlan_command cfg) <> "'\n")

abbrev pub appended_section : String → VlanNetplanConfig → String
appended_section user_data cfg =
    user_data <> ("\nruncmd:\n  - '" <> (escape_for_yaml (vlan_command cfg) <> "'\n"))

abbrev pub is_zero : ℤ → Bool
is_zero (pos n) = if ltb 0 n then false else true
is_zero (negsuc n) = false

abbrev pub insert_at : String → ℕ → String → String
insert_at s i t = slice s 0 i <> (t <> slice s i (len s))

-- From the position of the end of line after `runcmd:`.
abbrev pub placed_after : String → VlanNetplanConfig → ℕ → Option ℕ → String
placed_after user_data cfg idx none = appended_section user_data cfg
placed_after user_data cfg idx (some newline_idx) =
    insert_at user_data (idx + newline_idx + 1) (entry cfg)

-- From the position of `runcmd:`.
abbrev pub placed : String → VlanNetplanConfig → Option ℕ → String
placed user_data cfg none = appended_section user_data cfg
placed user_data cfg (some idx) =
    placed_after user_data cfg idx (index (slice user_data idx (len user_data)) "\n")

unfoldable pub inject_vlan_config_into_cloud_init : String → VlanNetplanConfig → String
inject_vlan_config_into_cloud_init user_data cfg =
    if is_zero cfg.vid || cfg.ip_address == "" || cfg.subnet == ""
    then user_data
    else placed user_data cfg (index user_data "runcmd:")

-- `newIP[3] = byte(baseOffset)`
abbrev pub with_host : Ipv4 → ℕ → Ipv4
with_host (a, b, c, d) base_offset = (a, b, c, base_offset % 256)

unfoldable pub calculate_vlan_ip_address : String → ℕ → Result String
calculate_vlan_ip_address subnet machine_index = elim (parse_cidr subnet) [
  | none ↦ error (wrapped "invalid subnet CIDR" (plain (parse_cidr_error subnet)))
  | some net ↦ elim (to4 net.ip) [
    | none ↦ error (plain "only IPv4 subnets are supported")
    | some ip ↦ value (show_ipv4 (with_host ip (10 + machine_index)))
  ]
]

-- `hash = hash*31 + int(c)` over the code points, as the bit pattern of a 64-bit `int`.
unfoldable pub hash_onto : String → ℕ → ℕ
hash_onto String.[] h = h
hash_onto (String.◌∷◌ c s) h = hash_onto s ((h * 31 + code c) % 2 ^ 64)

-- Go's remainder keeps the sign of the hash, which is then taken away.
unfoldable pub get_machine_index : String → ℕ
unfolding hash_onto
get_machine_index name =
    let hash = hash_onto name 0 in if ltb hash (2 ^ 63) then hash % 241 else (2 ^ 64 - hash) % 241
