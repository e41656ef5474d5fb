-- ===== src/Example.antt =====
-- example/: the programs that show how the library is used.
pub mod Echo
pub mod Servers
pub mod Clients
pub mod Exchange
pub mod Session
pub mod Stream
pub mod Datagrams
pub mod Frames
mod Tests
mod ServersTests
