-- ===== src/Nfilter/Accepts.antt =====
-- Which packets the filter of src/nfilter.h passes.
use virtual_gw.Common.{
  ℕ, ◌+◌, ◌≤◌, ◌≡◌, ◌↔◌, ◌⊎◌, inl, inr, Bool, true, not, ◌&&◌, ◌||◌, some, List, arith, ◌==◌,
  Bool-cases, length,
}
use virtual_gw.Common.Words.{htons, read8_in, read16_in, read32_in}
use virtual_gw.Protocols.Ethernet.{read_ether_type}
use virtual_gw.Protocols.Ip.{
  IpAddress, read_ver_ihl, read_proto, read_saddr, read_daddr, ip_len, ipproto_tcp, ipproto_udp,
}
use virtual_gw.Protocols.Udp.{read_udp_sport, read_udp_dport}
use virtual_gw.Nfilter.{ports_match, ip_match, accepts, Nfilter}
use Prim.Native.Nat.{bit_and}
use virtual_gw.Nfilter.Port.{PortFilter, port_test}
use virtual_gw.Nfilter.Ip.{IpFilter, ip_test}

-- An address of a packet agrees with an option's where the mask has a bit.
abbrev pub Agrees : IpFilter → IpAddress → Type 0
Agrees f ip = bit_and ip f.mask ≡ bit_and f.ip f.mask

-- A port of a packet stands between the bounds.
abbrev pub Between : PortFilter → ℕ → Type 0
Between f p = (f.port_lo ≤ p) × (p ≤ f.port_hi)

-- What the filter reads in a packet, and what passes: an IPv4 packet whose addresses agree and which,
-- if it is UDP or TCP, has its ports between the bounds.
pub record Fields (p : List ℕ) (v : ℕ) : Type 0 where
  pub ether_type : ℕ
  pub saddr : ℕ
  pub daddr : ℕ
  pub proto : ℕ
  pub sport : ℕ
  pub dport : ℕ
  pub ether_type_is : read_ether_type p ≡ some ether_type
  pub saddr_is : read_saddr p ≡ some saddr
  pub daddr_is : read_daddr p ≡ some daddr
  pub proto_is : read_proto p ≡ some proto
  pub sport_is : read_udp_sport p (14 + ip_len v) ≡ some sport
  pub dport_is : read_udp_dport p (14 + ip_len v) ≡ some dport

abbrev pub HasPorts : ℕ → Type 0
HasPorts proto = (proto ≡ ipproto_udp) ⊎ (proto ≡ ipproto_tcp)

abbrev pub Passes : Nfilter → {p : List ℕ} {v : ℕ} → Fields p v → Type 0
Passes f x =
    (x.ether_type ≡ htons 0x0800)
    × Agrees f.sip x.saddr
    × Agrees f.dip x.daddr
    × (HasPorts x.proto → Between f.sport x.sport × Between f.dport x.dport)

Fields-long_enough :
    (p : List ℕ) (v : ℕ) → 14 + ip_len v + 4 ≤ length p → 34 ≤ length p → Fields p v
Fields-long_enough p v h k =
    let (ether_type, e) = read16_in p 12 (omega arith) in
    let (saddr, es) = read32_in p 26 (omega arith) in
    let (daddr, ed) = read32_in p 30 (omega arith) in
    let (proto, ep) = read8_in p 23 (omega arith) in
    let (sport, esp) = read16_in p (14 + ip_len v) (omega arith) in
    let (dport, edp) = read16_in p (14 + ip_len v + 2) (omega arith) in
    record {
      ether_type = ether_type;
      saddr = saddr;
      daddr = daddr;
      proto = proto;
      sport = sport;
      dport = dport;
      ether_type_is = e;
      saddr_is = es;
      daddr_is = ed;
      proto_is = ep;
      sport_is = esp;
      dport_is = edp;
    }

ip_test_iff : (f : IpFilter) (ip : IpAddress) → (ip_test f ip ≡ true) ↔ Agrees f ip
unfolding ip_test
ip_test_iff f ip = (λ e. ground arith, λ e. ground arith)

port_test_iff : (f : PortFilter) (p : ℕ) → (port_test f p ≡ true) ↔ Between f p
unfolding port_test
port_test_iff f p = (λ e. (ground arith, ground arith), λ e. ground arith)

-- The tests that follow one another, as one.
abbrev verdict : Nfilter → {p : List ℕ} {v : ℕ} → Fields p v → Bool
verdict f x =
    (x.ether_type == htons 0x0800)
    && ip_test f.sip x.saddr
    && ip_test f.dip x.daddr
    && (not (x.proto == ipproto_udp || x.proto == ipproto_tcp)
        || (port_test f.sport x.sport && port_test f.dport x.dport))

accepts-verdict :
    (f : Nfilter) (p : List ℕ) (v : ℕ) (x : Fields p v)
    → read_ver_ihl p ≡ some v
    → accepts f p ≡ some (verdict f x)
unfolding accepts ip_match ports_match
accepts-verdict f p v x ev =
    ground (arith, ev, x.ether_type_is, x.saddr_is, x.daddr_is, x.proto_is, x.sport_is, x.dport_is)

verdict_iff :
    (f : Nfilter) {p : List ℕ} {v : ℕ} (x : Fields p v) → (verdict f x ≡ true) ↔ Passes f x
verdict_iff f x =
    let (s, s') = ip_test_iff f.sip x.saddr in
    let (d, d') = ip_test_iff f.dip x.daddr in
    let (sp, sp') = port_test_iff f.sport x.sport in
    let (dp, dp') = port_test_iff f.dport x.dport in
    (
      λ e. (
        ground arith,
        s (ground arith),
        d (ground arith),
        λ h. (
          sp (elim h [ inl k ↦ ground arith | inr k ↦ ground arith ]),
          dp (elim h [ inl k ↦ ground arith | inr k ↦ ground arith ]),
        ),
      ),
      λ (e, a, b, h). elim (Bool-cases (x.proto == ipproto_udp || x.proto == ipproto_tcp)) [
        | inl k ↦
            let ports : HasPorts x.proto = elim (Bool-cases (x.proto == ipproto_udp)) [
              | inl u ↦ inl (ground arith)
              | inr u ↦ inr (ground arith)
            ] in
            let (one, two) = h ports in rw (s' a, d' b, sp' one, dp' two) (ground arith)
        | inr k ↦ rw (s' a, d' b) (ground arith)
      ],
    )

-- The filter on any packet that is long enough for its IP header and the ports behind it: it gives an
-- answer, and this is yes exactly if the packet is IPv4, both its addresses agree with the options'
-- under their masks, and, if it is UDP or TCP, both ports stand between their bounds.
pub accepts_iff :
    (f : Nfilter) (p : List ℕ) (v : ℕ)
    → read_ver_ihl p ≡ some v
    → 14 + ip_len v + 4 ≤ length p
    → 34 ≤ length p
    → (x : Fields p v) × (answer : Bool) × (accepts f p ≡ some answer)
      × ((answer ≡ true) ↔ Passes f x)
accepts_iff f p v ev h k =
    let x = Fields-long_enough p v h k in
    (x, verdict f x, accepts-verdict f p v x ev, verdict_iff f x)
