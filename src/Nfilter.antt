-- ===== src/Nfilter.antt =====
-- src/nfilter.h: the filter of a queue, by IP addresses and ports. A packet is the bytes of its data;
-- `none` is a read past their end.
pub mod Ip
pub mod Port
pub mod Printed
pub mod Describe
pub mod Laws
pub mod Accepts
mod Tests
use virtual_gw.Common.{
  ℕ, ◌+◌, Bool, true, false, not, Option, some, List, ◌==◌, if◌then◌else◌, ◌>>=◌,
}
use virtual_gw.Common.Words.{htons}
use virtual_gw.Protocols.Ethernet.{read_ether_type}
use virtual_gw.Protocols.Ip.{
  read_ver_ihl, read_proto, read_saddr, read_daddr, ip_len, ipproto_tcp, ipproto_udp,
}
use virtual_gw.Protocols.Udp.{read_udp_sport, read_udp_dport}
use virtual_gw.Common.Text.{Text, codes}
use virtual_gw.Common.Result.{Result, ok, bind}
use virtual_gw.Hl.Params.{Regexp}
use Ip.{IpFilter, new_ip_filter, default_ip_filter, ip_test}
use Port.{PortFilter, new_port_filter, default_port_filter, port_test}

-- `nfilter`
pub record Nfilter : Type 0 where
  pub sport : PortFilter
  pub dport : PortFilter
  pub sip : IpFilter
  pub dip : IpFilter

abbrev pub default_filter : Nfilter
default_filter = record {
  sport = default_port_filter;
  dport = default_port_filter;
  sip = default_ip_filter;
  dip = default_ip_filter;
}

-- `set_options`
unfoldable pub set_options : Regexp → Text → Result Nfilter
set_options match opt = bind (new_port_filter match (codes "sport") opt) λ sport.
    bind (new_port_filter match (codes "dport") opt) λ dport.
      bind (new_ip_filter match (codes "sip") opt) λ sip.
        bind (new_ip_filter match (codes "dip") opt)
          λ dip. ok (record { sport = sport; dport = dport; sip = sip; dip = dip })

-- The tests of the ports, which UDP and TCP have at the same place.
unfoldable pub ports_match : Nfilter → List ℕ → ℕ → Option Bool
ports_match f p off = do
  sport ← read_udp_sport p off
  if not (port_test f.sport sport)
      then some false
      else (do dport ← read_udp_dport p off; some (port_test f.dport dport))

-- The tests on an IP packet, after that of `ether_type`.
unfoldable pub ip_match : Nfilter → List ℕ → Option Bool
ip_match f p = do
  ver_ihl ← read_ver_ihl p
  saddr ← read_saddr p
  daddr ← read_daddr p
  proto ← read_proto p
  if not (ip_test f.sip saddr)
      then some false
      else if not (ip_test f.dip daddr)
      then some false
      else if proto == ipproto_udp
      then ports_match f p (14 + ip_len ver_ihl)
      else if proto == ipproto_tcp
      then ports_match f p (14 + ip_len ver_ihl)
      else some true

-- `operator()`
unfoldable pub accepts : Nfilter → List ℕ → Option Bool
accepts f p = do
  ether_type ← read_ether_type p
  if ether_type == htons 0x0800 then ip_match f p else some false
