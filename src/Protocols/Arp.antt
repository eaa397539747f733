-- ===== src/Protocols/Arp.antt =====
-- src/protocols/arp.h: the ARP message, 28 bytes after the Ethernet header.
use virtual_gw.Common.{ℕ, Option, List, ◌∷◌, ◌++◌}
use virtual_gw.Common.Words.{bytes16, bytes32, read16, read32}
use virtual_gw.Protocols.Ethernet.{MacAddress, mac_bytes, read_mac}
use virtual_gw.Protocols.Ip.{IpAddress}

-- `arp_request`
pub record ArpRequest : Type 0 where
  pub hardware_mac_address_type : ℕ
  pub protocol_address_type : ℕ
  pub hardware_mac_address_size : ℕ
  pub protocol_address_size : ℕ
  pub op : ℕ
  pub sender_mac : MacAddress
  pub sender_ip : IpAddress
  pub target_mac : MacAddress
  pub target_ip : IpAddress

abbrev pub sizeof_arp_request : ℕ
sizeof_arp_request = 28

abbrev pub arp_bytes : ArpRequest → List ℕ
arp_bytes a =
    bytes16 a.hardware_mac_address_type
    ++ (bytes16 a.protocol_address_type
        ++ (a.hardware_mac_address_size
            ∷ a.protocol_address_size
            ∷ (bytes16 a.op
                ++ (mac_bytes a.sender_mac
                    ++ (bytes32 a.sender_ip ++ (mac_bytes a.target_mac ++ bytes32 a.target_ip))))))

-- The fields that the code reads, by their offsets from the start of the Ethernet frame.
abbrev pub read_op : List ℕ → Option ℕ
read_op p = read16 p 20

abbrev pub read_sender_mac : List ℕ → Option MacAddress
read_sender_mac p = read_mac p 22

abbrev pub read_sender_ip : List ℕ → Option IpAddress
read_sender_ip p = read32 p 28

abbrev pub read_target_ip : List ℕ → Option IpAddress
read_target_ip p = read32 p 38
