-- ===== src/Protocols/Ip.antt =====
-- src/protocols/ip.h: IPv4 addresses and the IPv4 header, 20 bytes without options.
use virtual_gw.Common.{ℕ, ◌+◌, ◌*◌, ◌%◌, Option, List, ◌∷◌, ◌++◌}
use virtual_gw.Common.Words.{bytes16, bytes32, read8, read32}

-- `ip_address`: the member `int_val` of the union; `b[0]` is its lowest byte.
abbrev pub IpAddress : Type 0
IpAddress = ℕ

-- `ip_address(b1, b2, b3, b4)`
abbrev pub ip_of_bytes : ℕ → ℕ → ℕ → ℕ → IpAddress
ip_of_bytes b1 b2 b3 b4 = b1 + b2 * 256 + b3 * 65536 + b4 * 16777216

abbrev pub sizeof_ip_header : ℕ
sizeof_ip_header = 20

-- The fields of `ip_header`, by their offsets from the start of the Ethernet frame.
abbrev pub read_ver_ihl : List ℕ → Option ℕ
read_ver_ihl p = read8 p 14

abbrev pub read_proto : List ℕ → Option ℕ
read_proto p = read8 p 23

abbrev pub read_saddr : List ℕ → Option IpAddress
read_saddr p = read32 p 26

abbrev pub read_daddr : List ℕ → Option IpAddress
read_daddr p = read32 p 30

-- `int ip_len = (iph.ver_ihl & 0xf) * 4`, as five functions compute it.
abbrev pub ip_len : ℕ → ℕ
ip_len ver_ihl = ver_ihl % 16 * 4

-- `IPPROTO_TCP` and `IPPROTO_UDP` of winsock2.h.
abbrev pub ipproto_tcp : ℕ
ipproto_tcp = 6

abbrev pub ipproto_udp : ℕ
ipproto_udp = 17

-- `ip_header`
pub record IpHeader : Type 0 where
  pub ver_ihl : ℕ
  pub tos : ℕ
  pub tlen : ℕ
  pub identification : ℕ
  pub flags_fo : ℕ
  pub ttl : ℕ
  pub proto : ℕ
  pub crc : ℕ
  pub saddr : IpAddress
  pub daddr : IpAddress

abbrev pub ip_bytes : IpHeader → List ℕ
ip_bytes h =
    h.ver_ihl
    ∷ h.tos
    ∷ (bytes16 h.tlen
        ++ (bytes16 h.identification
            ++ (bytes16 h.flags_fo
                ++ (h.ttl ∷ h.proto ∷ (bytes16 h.crc ++ (bytes32 h.saddr ++ bytes32 h.daddr))))))
