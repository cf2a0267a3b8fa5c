-- ===== src/Collection.antt =====
-- The package index, pkg/database/collection.go.
pub mod Query
pub mod Members
pub mod Sound
pub mod Complete
pub mod Source
mod Examples
