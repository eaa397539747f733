-- ===== src/Nfilter/Laws.antt =====
-- The filters of src/nfilter.h: what the options mean, and which packets pass.
use virtual_gw.Common.{
  ℕ, ◌+◌, ◌^◌, ◌≤◌, ◌<◌, ◌≡◌, refl, ap, ◌≢◌, ◌↔◌, inl, inr, true, false, none, some, List, [], ◌++◌,
  arith, ◌==◌, Bool-cases, length,
}
use virtual_gw.Common.Int.{pos, eqb_ℤ, eq_of_parts}
use virtual_gw.Common.Words.{htons, read8_in, read16_in, read32_in, Bytes, read16-lt, bit_and-zero}
use virtual_gw.Protocols.Ethernet.{read_ether_type}
use virtual_gw.Protocols.Ip.{IpAddress, read_ver_ihl, ip_len}
use virtual_gw.Common.Text.{Text, codes, atoi}
use virtual_gw.Nfilter.{default_filter, ports_match, ip_match, accepts}
use Prim.Native.Nat.{bit_and}
use virtual_gw.Common.Result.{ok}
use virtual_gw.Hl.Params.{Regexp, Groups, read_int_hit, read_int_miss, read_text_hit}
use virtual_gw.Nfilter.Port.{PortFilter, new_port_filter, port_test}
use virtual_gw.Nfilter.Ip.{IpFilter, new_ip_filter, prefix_mask, scan_ip, ip_test}

-- An option with one port, `sport 80`: the filter passes exactly the packets whose port, read in host
-- order, is that port. The regular expression for a range does not match.
pub port_test_single :
    (match : Regexp) (id opt : Text) (rg : Groups) (n : ℕ)
    → match (id ++ codes " +([0-9]+)") opt ≡ some rg
    → atoi (rg 1) ≡ pos n
    → n < 2 ^ 16
    → match (id ++ codes " +[0-9]+-([0-9]+)") opt ≡ none
    → (f : PortFilter) × (new_port_filter match id opt ≡ ok f)
      × ((p : ℕ) → p < 2 ^ 16 → (port_test f p ≡ true) ↔ (htons p ≡ n))
unfolding new_port_filter port_test
port_test_single match id opt rg n e a h e' = (
  record { id = id; port_lo = htons n; port_hi = htons n },
  ground (
    arith,
    read_int_hit match opt (id ++ codes " +([0-9]+)") (pos 0) false rg e,
    read_int_miss match opt (id ++ codes " +[0-9]+-([0-9]+)") (atoi (rg 1)) e',
  ),
  λ p k. (λ t. ground arith, λ t. ground arith),
)

-- An option with a range, `sport 1-256`: the bounds are compared in network order, so that where they
-- stand the other way round there, the filter passes no port at all, not those inside the range
-- either.
port_test_range_empty :
    (match : Regexp) (id opt : Text) (rg rg' : Groups) (lo hi p : ℕ)
    → match (id ++ codes " +([0-9]+)") opt ≡ some rg
    → atoi (rg 1) ≡ pos lo
    → match (id ++ codes " +[0-9]+-([0-9]+)") opt ≡ some rg'
    → atoi (rg' 1) ≡ pos hi
    → lo < 2 ^ 16
    → hi < 2 ^ 16
    → htons hi < htons lo
    → (f : PortFilter) × (new_port_filter match id opt ≡ ok f) × (port_test f p ≡ false)
unfolding new_port_filter port_test
port_test_range_empty match id opt rg rg' lo hi p e a e' a' kl kh h = (
  record { id = id; port_lo = htons lo; port_hi = htons hi },
  ground (
    arith,
    read_int_hit match opt (id ++ codes " +([0-9]+)") (pos 0) false rg e,
    read_int_hit match opt (id ++ codes " +[0-9]+-([0-9]+)") (atoi (rg 1)) false rg' e',
  ),
  ground arith,
)

mask_of_prefix : (mask : Text) → atoi mask ≢ pos 0 → prefix_mask mask ≡ 128
unfolding prefix_mask
mask_of_prefix mask h =
    let e : eqb_ℤ (atoi mask) (pos 0) ≡ false = elim (Bool-cases (eqb_ℤ (atoi mask) (pos 0))) [
      | inl t ↦ absurd (h (eq_of_parts (atoi mask) (pos 0) (ground arith)))
      | inr t ↦ t
    ] in
    rw e

-- An option with a prefix length, `sip 10.0.0.1/24`: whatever the length, if it is not 0, the mask
-- keeps one bit, the highest of the first byte, and the filter passes every address that has this
-- bit in common with the option's.
pub prefix_length_ignored :
    (match : Regexp) (id opt : Text) (rg rg' : Groups) (ip : IpAddress)
    → match (id ++ codes " +([0-9]+.[0-9]+.[0-9]+.[0-9]+)") opt ≡ some rg
    → scan_ip (rg 1) ≡ some ip
    → match (id ++ codes " +[0-9]+.[0-9]+.[0-9]+.[0-9]+/([0-9]+)") opt ≡ some rg'
    → atoi (rg' 1) ≢ pos 0
    → (f : IpFilter) × (new_ip_filter match id opt ≡ ok f)
      × ((addr : IpAddress) → ip_test f addr ≡ (bit_and addr 128 == bit_and ip 128))
unfolding new_ip_filter ip_test
prefix_length_ignored match id opt rg rg' ip e s e' h = (
  record { id = id; ip = ip; mask = 128 },
  rw (read_text_hit match opt (id ++ codes " +([0-9]+.[0-9]+.[0-9]+.[0-9]+)") [] false rg e) (
      rw s (
        rw
          (read_text_hit match opt (id ++ codes " +[0-9]+.[0-9]+.[0-9]+.[0-9]+/([0-9]+)") [] false
            rg' e')
          (ap (λ k. ok (record { id = id; ip = ip; mask = k })) (mask_of_prefix (rg' 1) h)))),
  λ addr. refl,
)

-- The filter of a new queue passes every IPv4 packet that is long enough to hold its headers.
pub default_accepts :
    (p : List ℕ) (v : ℕ)
    → Bytes p
    → read_ether_type p ≡ some (htons 0x0800)
    → read_ver_ihl p ≡ some v
    → 14 + ip_len v + 4 ≤ length p
    → 34 ≤ length p
    → accepts default_filter p ≡ some true
unfolding accepts ip_match ports_match port_test ip_test
default_accepts p v b et ev h k =
    let (saddr, es) = read32_in p 26 (omega arith) in
    let (daddr, ed) = read32_in p 30 (omega arith) in
    let (proto, ep) = read8_in p 23 (omega arith) in
    let (sport, esp) = read16_in p (14 + ip_len v) (omega arith) in
    let (dport, edp) = read16_in p (14 + ip_len v + 2) (omega arith) in
    ground (
      arith,
      bit_and-zero saddr,
      bit_and-zero daddr,
      bit_and-zero 0,
      read16-lt p (14 + ip_len v) sport b esp,
      read16-lt p (14 + ip_len v + 2) dport b edp,
    )
