-- ===== src/Files.antt =====
-- Files and directories in memory: pkg/filesystem/file.go and directory.go.
pub mod Memory
pub mod Directory
pub mod Lookup
pub mod Results
pub mod Mkdir
pub mod Size
pub mod Paths
pub mod Fuel
mod Examples
