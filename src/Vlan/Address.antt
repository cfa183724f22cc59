-- ===== src/Vlan/Address.antt =====
-- The address that a machine gets in the VLAN's subnet.
use cluster_api_provider_lat.Base.{ℕ, ◌+◌, ◌%◌, ◌≤◌, String, ◌≡◌, refl, some, arith}
use cluster_api_provider_lat.Go.Net.{IpNet, parse_cidr, to4, show_ipv4}
use cluster_api_provider_lat.Action.{value}
use cluster_api_provider_lat.Vlan.{calculate_vlan_ip_address, get_machine_index}
use cluster_api_provider_lat.Vlan.Index.{get_machine_index_bound}

-- In a subnet that parses to an IPv4 network, a machine's address has the network's first three
-- bytes, and its last byte is 10 plus the machine's index, from 10 to 250: it has not wrapped.
pub machine_address_range :
    (subnet name : String) {net : IpNet} {a b c d : ℕ}
    → parse_cidr subnet ≡ some net
    → to4 net.ip ≡ some (a, b, c, d)
    → (host : ℕ) × (calculate_vlan_ip_address subnet (get_machine_index name)
        ≡ value (show_ipv4 (a, b, c, host)))
      × (host ≡ 10 + get_machine_index name)
      × (10 ≤ host)
      × (host ≤ 250)
unfolding calculate_vlan_ip_address
machine_address_range subnet name {net} {a} {b} {c} {d} parsed v4 =
    let bound = get_machine_index_bound name in
    let small : (10 + get_machine_index name) % 256 ≡ 10 + get_machine_index name = omega arith in
    (
      10 + get_machine_index name,
      rw (parsed, v4, small, calculate_vlan_ip_address),
      refl,
      omega arith,
      omega arith,
    )
