-- ===== src/Cpio.antt =====
-- Archives for the initial file system: pkg/cpio/cpio.go.
pub mod Header
pub mod Tree
pub mod Writer
mod Format
mod Written
mod Archive
pub mod Extract
mod Adding
mod Copying
mod Examples
