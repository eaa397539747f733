-- ===== src/Protocols/Dhcp.antt =====
-- src/protocols/dhcp.h: the DHCP header, 240 bytes that options follow.
use virtual_gw.Common.{ℕ, Option, List, ◌∷◌, ◌++◌}
use virtual_gw.Common.Words.{bytes16, bytes32, read8, read32}

-- `dhcp_header` without its options.
pub record DhcpHeader : Type 0 where
  pub op : ℕ
  pub htype : ℕ
  pub hlen : ℕ
  pub hops : ℕ
  pub xid : ℕ
  pub secs : ℕ
  pub flags : ℕ
  pub ciaddr : ℕ
  pub yiaddr : ℕ
  pub siaddr : ℕ
  pub giaddr : ℕ
  pub chaddr : List ℕ
  pub sname : List ℕ
  pub file : List ℕ
  pub magic_cookie : ℕ

abbrev pub sizeof_dhcp_header : ℕ
sizeof_dhcp_header = 240

abbrev pub dhcp_bytes : DhcpHeader → List ℕ
dhcp_bytes h =
    h.op
    ∷ h.htype
    ∷ h.hlen
    ∷ h.hops
    ∷ (bytes32 h.xid
        ++ (bytes16 h.secs
            ++ (bytes16 h.flags
                ++ (bytes32 h.ciaddr
                    ++ (bytes32 h.yiaddr
                        ++ (bytes32 h.siaddr
                            ++ (bytes32 h.giaddr
                                ++ (h.chaddr
                                    ++ (h.sname ++ (h.file ++ bytes32 h.magic_cookie))))))))))

-- The fields that the code reads, from the start of the header.
abbrev pub read_dhcp_op : List ℕ → Option ℕ
read_dhcp_op m = read8 m 0

abbrev pub read_xid : List ℕ → Option ℕ
read_xid m = read32 m 4

abbrev pub read_yiaddr : List ℕ → Option ℕ
read_yiaddr m = read32 m 16

abbrev pub read_magic_cookie : List ℕ → Option ℕ
read_magic_cookie m = read32 m 236
