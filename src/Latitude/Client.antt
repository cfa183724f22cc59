-- ===== src/Latitude/Client.antt =====
-- internal/latitude/client.go: the client's methods over the SDK.
mod Servers
mod Vlans
pub mod Laws
pub mod Setup
unfoldable pub use Servers.*
unfoldable pub use Vlans.*
use cluster_api_provider_lat.Latitude.Types.{ClientInterface}
use cluster_api_provider_lat.Latitude.Sdk.{Sdk}

-- `var _ ClientInterface = (*Client)(nil)`
abbrev pub client : {W : Type 0} → Sdk W → ClientInterface W
client sdk = record {
  create_server = create_server sdk;
  get_server = get_server sdk;
  delete_server = delete_server sdk;
  wait_for_server = wait_for_server sdk;
  get_available_plans = get_available_plans sdk;
  get_available_regions = get_available_regions sdk;
  create_user_data = create_user_data sdk;
  delete_user_data = delete_user_data sdk;
  create_vlan = create_vlan sdk;
  get_vlan = get_vlan sdk;
  list_vlans = list_vlans sdk;
  delete_vlan = delete_vlan sdk;
  attach_server_to_vlan = attach_server_to_vlan sdk;
  detach_server_from_vlan = detach_server_from_vlan sdk;
}
