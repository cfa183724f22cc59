-- ===== src/Latitude.antt =====
-- internal/latitude/client.go: the types, the interface that the controllers use, and the client.
mod Types
pub mod Sdk
pub mod Client
pub use Types.*
