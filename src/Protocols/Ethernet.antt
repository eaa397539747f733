-- ===== src/Protocols/Ethernet.antt =====
-- src/protocols/ethernet.h: MAC addresses and the Ethernet header, 14 bytes.
use virtual_gw.Common.{
  ℕ, ◌+◌, ◌≤◌, ◌≡◌, ◌↔◌, Bool, true, ◌&&◌, Option, some, List, [], ◌∷◌, ◌++◌, arith, ◌==◌, ◌>>=◌,
  length,
}
use virtual_gw.Common.Words.{bytes16, read8, read16, read8_in}

-- `mac_address`
pub record MacAddress : Type 0 where
  pub byte1 : ℕ
  pub byte2 : ℕ
  pub byte3 : ℕ
  pub byte4 : ℕ
  pub byte5 : ℕ
  pub byte6 : ℕ

-- `mac_address::operator ==`
unfoldable pub mac_eq : MacAddress → MacAddress → Bool
mac_eq m a =
    m.byte1 == a.byte1
    && m.byte2 == a.byte2
    && m.byte3 == a.byte3
    && m.byte4 == a.byte4
    && m.byte5 == a.byte5
    && m.byte6 == a.byte6

-- `mac_address(0xFF, …)`, which four functions declare as `broadcast_mac`.
abbrev pub broadcast_mac : MacAddress
broadcast_mac = record {
  byte1 = 255;
  byte2 = 255;
  byte3 = 255;
  byte4 = 255;
  byte5 = 255;
  byte6 = 255;
}

abbrev pub mac_bytes : MacAddress → List ℕ
mac_bytes m = m.byte1 ∷ m.byte2 ∷ m.byte3 ∷ m.byte4 ∷ m.byte5 ∷ m.byte6 ∷ []

unfoldable pub read_mac : List ℕ → ℕ → Option MacAddress
read_mac p off = do
  b1 ← read8 p off
  b2 ← read8 p (off + 1)
  b3 ← read8 p (off + 2)
  b4 ← read8 p (off + 3)
  b5 ← read8 p (off + 4)
  b6 ← read8 p (off + 5)
  some (record { byte1 = b1; byte2 = b2; byte3 = b3; byte4 = b4; byte5 = b5; byte6 = b6 })

-- `ethernet_header`; its `data` is what follows.
pub record EthernetHeader : Type 0 where
  pub dest : MacAddress
  pub source : MacAddress
  pub ether_type : ℕ

abbrev pub sizeof_ethernet_header : ℕ
sizeof_ethernet_header = 14

abbrev pub ethernet_bytes : EthernetHeader → List ℕ
ethernet_bytes h = mac_bytes h.dest ++ (mac_bytes h.source ++ bytes16 h.ether_type)

-- The field `ether_type` of the frame at the start of `p`.
abbrev pub read_ether_type : List ℕ → Option ℕ
read_ether_type p = read16 p 12

-- The comparison decides equality of addresses.
pub mac_eq_iff : (m a : MacAddress) → (mac_eq m a ≡ true) ↔ (m ≡ a)
unfolding mac_eq
mac_eq_iff m a = (λ h. ground arith, λ h. ground arith)

pub read_mac_in :
    (p : List ℕ) (off : ℕ) → off + 6 ≤ length p → (m : MacAddress) × (read_mac p off ≡ some m)
unfolding read_mac
read_mac_in p off h =
    let (b1, e1) = read8_in p off (omega arith) in
    let (b2, e2) = read8_in p (off + 1) (omega arith) in
    let (b3, e3) = read8_in p (off + 2) (omega arith) in
    let (b4, e4) = read8_in p (off + 3) (omega arith) in
    let (b5, e5) = read8_in p (off + 4) (omega arith) in
    let (b6, e6) = read8_in p (off + 5) (omega arith) in
    (
      record { byte1 = b1; byte2 = b2; byte3 = b3; byte4 = b4; byte5 = b5; byte6 = b6 },
      rw (e1, e2, e3, e4, e5, e6),
    )
