-- ===== src/Protocols/Udp.antt =====
-- src/protocols/udp.h: the UDP header, 8 bytes, at an offset `off` from the start of the frame.
use virtual_gw.Common.{ℕ, ◌+◌, Option, List, ◌++◌}
use virtual_gw.Common.Words.{bytes16, read16}

abbrev pub sizeof_udp_header : ℕ
sizeof_udp_header = 8

abbrev pub read_udp_sport : List ℕ → ℕ → Option ℕ
read_udp_sport p off = read16 p off

abbrev pub read_udp_dport : List ℕ → ℕ → Option ℕ
read_udp_dport p off = read16 p (off + 2)

-- `udp_header`
pub record UdpHeader : Type 0 where
  pub sport : ℕ
  pub dport : ℕ
  pub total_length : ℕ
  pub checksum : ℕ

abbrev pub udp_bytes : UdpHeader → List ℕ
udp_bytes h = bytes16 h.sport ++ (bytes16 h.dport ++ (bytes16 h.total_length ++ bytes16 h.checksum))
