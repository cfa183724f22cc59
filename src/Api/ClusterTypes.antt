-- ===== src/Api/ClusterTypes.antt =====
-- api/v1beta1/latitudecluster_types.go
use cluster_api_provider_lat.Base.{ℕ, String, Bool, Option, List}
use cluster_api_provider_lat.Base.Int.{ℤ}
use cluster_api_provider_lat.Api.Meta.{ObjectMeta, Condition}

pub record ApiEndpoint : Type 0 where
  pub host : String
  pub port : ℕ

pub record ProjectRef : Type 0 where
  pub project_id : String

pub record VlanConfig : Type 0 where
  pub subnet : String
  pub vid : Option ℤ
  pub existing_vlan_id : Option String
  pub network_interface : String

pub record LatitudeClusterSpec : Type 0 where
  pub location : String
  pub project_ref : Option ProjectRef
  pub control_plane_endpoint : ApiEndpoint
  pub vlan_config : Option VlanConfig

pub record LatitudeClusterStatus : Type 0 where
  pub ready : Bool
  pub control_plane_endpoint : ApiEndpoint
  pub vlan_id : Option String
  pub vlan_vid : Option ℤ
  pub conditions : List Condition

pub record LatitudeCluster : Type 0 where
  pub meta : ObjectMeta
  pub spec : LatitudeClusterSpec
  pub status : LatitudeClusterStatus

abbrev pub get_cluster_conditions : LatitudeCluster → List Condition
get_cluster_conditions c = c.status.conditions

abbrev pub set_cluster_conditions : List Condition → LatitudeCluster → LatitudeCluster
set_cluster_conditions conditions c = record c {
  status = record c.status { conditions = conditions };
}

-- The list, but for its metadata.
pub record LatitudeClusterList : Type 0 where
  pub items : List LatitudeCluster
