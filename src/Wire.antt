-- ===== src/Wire.antt =====
-- Binary readers and writers, pkg/common/binary/binary.go.
pub mod Numbers
pub mod Reader
pub mod Writer
pub mod RoundTrip
pub mod Results
pub mod Appends
mod Examples
