-- ===== src/MachineController.antt =====
-- internal/controller/latitudemachine_controller.go
pub mod Conditions
pub mod Cloud
pub mod Liveness
pub mod Lifetime
pub mod Service
pub mod Patching
pub mod Custody
pub mod Lookup
pub mod SshKeys
pub mod Server
pub mod Reconcile
pub mod Frames
pub mod Asking
pub mod Creation
pub mod Consistency
pub mod Deletion
pub mod Failure
pub mod ConditionLaws
pub mod Lifecycle
pub mod Finalizer
pub mod Records
pub mod LookupLaws
pub mod SshKeyLaws
