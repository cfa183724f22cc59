-- ===== src/DeepCopy.antt =====
-- api/v1beta1/zz_generated.deepcopy.go: the copies that the controllers and their caches make of
-- the objects, on a memory of cells.
pub mod Layout
pub mod Memory
pub mod Kinds
pub mod Copy
pub mod Views
pub mod MemoryLaws
pub mod Copier
pub mod Copiers
pub mod ObjectCopiers
pub mod Methods
pub mod Laws
