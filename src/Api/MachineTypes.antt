-- ===== src/Api/MachineTypes.antt =====
-- api/v1beta1/latitudemachine_types.go
use cluster_api_provider_lat.Base.{String, Bool, Option, List}
use cluster_api_provider_lat.Api.Meta.{ObjectMeta, Condition, SecretReference, MachineAddress}

pub record LatitudeMachineSpec : Type 0 where
  pub provider_id : Option String
  pub operating_system : String
  pub plan : String
  pub ssh_key_secret_ref : Option SecretReference

pub record LatitudeMachineStatus : Type 0 where
  pub ready : Bool
  pub provider_id : String
  pub server_id : String
  pub user_data_id : String
  pub addresses : List MachineAddress
  pub failure_reason : Option String
  pub failure_message : Option String
  pub conditions : List Condition

pub record LatitudeMachine : Type 0 where
  pub meta : ObjectMeta
  pub spec : LatitudeMachineSpec
  pub status : LatitudeMachineStatus

abbrev pub instance_ready_condition : String
instance_ready_condition = "InstanceReady"

abbrev pub instance_provision_failed_reason : String
instance_provision_failed_reason = "InstanceProvisionFailed"

abbrev pub instance_not_ready_reason : String
instance_not_ready_reason = "InstanceNotReady"

abbrev pub instance_deletion_failed_reason : String
instance_deletion_failed_reason = "InstanceDeletionFailed"

abbrev pub waiting_for_cluster_infrastructure_reason : String
waiting_for_cluster_infrastructure_reason = "WaitingForClusterInfrastructure"

abbrev pub waiting_for_bootstrap_data_reason : String
waiting_for_bootstrap_data_reason = "WaitingForBootstrapData"

abbrev pub get_machine_conditions : LatitudeMachine → List Condition
get_machine_conditions m = m.status.conditions

abbrev pub set_machine_conditions : List Condition → LatitudeMachine → LatitudeMachine
set_machine_conditions conditions m = record m {
  status = record m.status { conditions = conditions };
}

-- The list, but for its metadata.
pub record LatitudeMachineList : Type 0 where
  pub items : List LatitudeMachine
