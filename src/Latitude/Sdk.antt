-- ===== src/Latitude/Sdk.antt =====
-- What the client calls of latitudesh-go-sdk: its requests, its answers with their optional fields,
-- and its operations. `W` is the state of everything outside the process.
use cluster_api_provider_lat.Base.{ℕ, String, Option, List}
use cluster_api_provider_lat.Base.Int.{ℤ}
use cluster_api_provider_lat.Action.{Action}

pub record CreateServerAttributes : Type 0 where
  pub project : String
  pub plan : String
  pub operating_system : String
  pub site : String
  pub hostname : String
  pub ssh_keys : List String
  pub billing : String
  pub user_data : Option String

pub record ServerAttributes : Type 0 where
  pub hostname : Option String
  pub status : Option String
  pub primary_ipv4 : Option String

pub record ServerData : Type 0 where
  pub id : Option String
  pub attributes : Option ServerAttributes

-- `Server`, with its `Data`
pub record ServerBody : Type 0 where
  pub contents : Option ServerData

-- `res.UserData.Data.ID`
pub record UserDataBody : Type 0 where
  pub id : Option String

pub record Attributes : Type 0 where
  pub slug : Option String

pub record CreateVlanAttributes : Type 0 where
  pub project : String
  pub site : String
  pub description : String

pub record VlanAttributes : Type 0 where
  pub description : Option String
  pub vid : Option ℤ

pub record VlanData : Type 0 where
  pub id : Option String
  pub attributes : Option VlanAttributes

-- `res.VirtualNetwork`, with its `Data`
pub record VlanBody : Type 0 where
  pub contents : Option VlanData

-- `res.Object`, with its `Data` and that one's `Data`
pub record VlanObject : Type 0 where
  pub contents : Option VlanBody

pub record Sdk (W : Type 0) : Type 0 where
  pub servers_create : CreateServerAttributes → Action W (Option ServerBody)
  pub servers_get : String → Action W (Option ServerBody)
  pub servers_delete : String → Action W (Unit {0})
  -- a list's `none` is a nil body or a nil `Data`; an item's is a nil `Attributes`
  pub plans_list : Action W (Option (List (Option Attributes)))
  pub regions_get : Action W (Option (List (Option Attributes)))
  pub user_data_create : String → String → Action W (Option UserDataBody)
  pub user_data_delete : String → Action W (Unit {0})
  pub private_networks_create : CreateVlanAttributes → Action W (Option VlanBody)
  pub private_networks_get : String → Action W (Option VlanObject)
  pub private_networks_list : Action W (Option (List VlanData))
  pub virtual_networks_delete : String → Action W (Unit {0})
  pub private_networks_assign : String → String → Action W (Unit {0})
  pub private_networks_delete_assignment : String → Action W (Unit {0})
  -- how many ticks of 30 seconds come before a context with this timeout is done
  pub ticks_within : ℕ → W → ℕ × W
