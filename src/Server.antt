-- ===== src/Server.antt =====
-- The SFTP server: pkg/sftp/sshfs.go over directories in memory, and the dispatch of
-- pkg/sftp/filesystem.go.
pub mod State
pub mod Attributes
pub mod Handles
pub mod Paths
pub mod Dispatch
pub mod Sessions
pub mod Listing
pub mod Sound
pub mod Walks
pub mod Changes
mod Continue
mod HandleEffects
mod PathEffects
mod PathHandlers
mod Invariant
mod Examples
