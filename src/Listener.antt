-- ===== src/Listener.antt =====
-- The package listener.
pub mod Config
pub mod HostPort
pub mod Logging
pub mod Stream
pub mod Server
pub mod Accept
pub mod Tcp
pub mod Udp
pub mod Quic
pub mod WebSocket
pub mod Interleaving
mod Tests
mod ServerTests
mod RestartTests
pub mod Session
pub mod Lifecycle
pub mod Interface
pub mod Restart
