-- ===== src/Sftp.antt =====
-- The packets of the SFTP server, pkg/sftp/packet.go.
pub mod Packets
pub mod Decode
pub mod Encode
pub mod Layout
pub mod Requests
pub mod Decoding
pub mod Encoding
pub mod Framing
pub mod Attributes
mod Examples
