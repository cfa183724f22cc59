-- ===== src/Latitude/Types.antt =====
-- The types of internal/latitude/client.go and `ClientInterface`.
use cluster_api_provider_lat.Base.{ℕ, String, Option, List}
use cluster_api_provider_lat.Base.Int.{ℤ}
use cluster_api_provider_lat.Action.{Action}

pub record ServerSpec : Type 0 where
  pub project : String
  pub plan : String
  pub operating_system : String
  pub site : String
  pub hostname : String
  pub ssh_keys : List String
  pub user_data : String

pub record Server : Type 0 where
  pub id : String
  pub status : String
  pub hostname : String
  pub ip_address : List String

pub record Vlan : Type 0 where
  pub id : String
  pub vid : ℤ
  pub subnet : String
  pub project : String

pub record CreateVlanRequest : Type 0 where
  pub project_id : String
  pub site : String
  pub subnet : String
  pub vid : Option ℤ

pub record CreateUserDataRequest : Type 0 where
  pub name : String
  pub content : String

-- A timeout is a number of seconds.
pub record ClientInterface (W : Type 0) : Type 0 where
  pub create_server : ServerSpec → Action W Server
  pub get_server : String → Action W Server
  pub delete_server : String → Action W (Unit {0})
  pub wait_for_server : String → String → ℕ → Action W Server
  pub get_available_plans : Action W (List String)
  pub get_available_regions : Action W (List String)
  pub create_user_data : CreateUserDataRequest → Action W String
  pub delete_user_data : String → Action W (Unit {0})
  pub create_vlan : CreateVlanRequest → Action W Vlan
  pub get_vlan : String → Action W Vlan
  pub list_vlans : String → Action W (List Vlan)
  pub delete_vlan : String → Action W (Unit {0})
  pub attach_server_to_vlan : String → String → Action W (Unit {0})
  pub detach_server_from_vlan : String → String → Action W (Unit {0})
