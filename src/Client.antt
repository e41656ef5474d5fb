-- ===== src/Client.antt =====
-- The package client.
pub mod Config
pub mod Udp
pub mod Quic
pub mod Exchange
pub mod Sending
pub mod Receiving
mod ReceivingTests
mod Tests
