-- ===== src/Protocols.antt =====
-- The headers of src/protocols: their fields at packed offsets (`#pragma pack(push,1)`), and the
-- checksums. A struct laid over a packet is read field by field from the bytes at its offset.
pub mod Ethernet
pub mod Ip
pub mod Udp
pub mod Tcp
pub mod Arp
pub mod Dhcp
pub mod Checksum
mod Tests
