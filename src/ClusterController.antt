-- ===== src/ClusterController.antt =====
-- internal/controller/latitudecluster_controller.go
pub mod Conditions
pub mod Networks
pub mod Endpoint
pub mod Reconcile
pub mod ConditionLaws
pub mod NetworkLaws
pub mod EndpointLaws
pub mod SettledLaws
pub mod AddressLaws
pub mod RunLaws
pub mod NetworkRuns
pub mod Liveness
pub mod Progress
pub mod Lifetime
