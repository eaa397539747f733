-- ===== src/Net.antt =====
-- src/net: sockets over Winsock, their addresses and exceptions.
pub mod Winsock
pub mod Error
pub mod Address
pub mod Run
pub mod Startup
pub mod Socket
pub mod Transfer
pub mod Close
pub mod Method
pub mod Calls
pub mod Respects
pub mod Sessions
pub mod Stamps
pub mod Timed
pub mod Graceful
pub mod Balance
pub mod Laws
mod Tests
