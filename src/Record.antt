-- ===== src/Record.antt =====
-- Record files: pkg/record/record2.go.
pub mod Buffer
pub mod Values
pub mod Writer
pub mod Layout
mod Steps
mod Blocks
mod Written
mod Kept
mod Succeeds
mod Emit
pub mod Reader
mod Stretches
mod Reads
pub mod Dict
mod Heads
pub mod ReadBack
mod Views
mod RoundTrip
mod Recovered
mod Compares
mod Gets
mod Keys
mod Examples
