-- ===== src/Api.antt =====
-- The objects that the controllers read and write: those of this repository (api/v1beta1), and of
-- the Kubernetes and Cluster API objects the fields that the code reads.
mod Meta
mod MachineTypes
mod ClusterTypes
mod TemplateTypes
pub use Meta.*
pub use MachineTypes.*
pub use ClusterTypes.*
pub use TemplateTypes.*
