-- ===== src/Package.antt =====
-- Packages and queries, pkg/common/package.go and pkg/common/tags.go.
pub mod Defs
pub mod Matching
pub mod Query
mod Examples
