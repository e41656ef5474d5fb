-- ===== src/Framing.antt =====
-- framing/framing.go: the three codecs over bufio.Reader, and the laws that their users rely on.
pub mod Reader
pub mod Scan
pub mod Bytes
pub mod Codec
pub mod Legacy
pub mod Prefix
pub mod Laws
pub mod Empty
mod Tests
