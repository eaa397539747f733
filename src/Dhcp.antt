-- ===== src/Dhcp.antt =====
-- src/dhcp_client.h: the DHCP client, which asks for the gateway's own address.
pub mod Memory
pub mod Options
pub mod Frames
pub mod Laws
pub mod Configured
mod Tests
use virtual_gw.Common.{
  ℕ, ◌+◌, Bool, true, false, not, Option, none, some, List, [], ◌∷◌, ◌++◌, ◌==◌, if◌then◌else◌,
  ◌>>=◌, length, drop, replicate,
}
use virtual_gw.Common.Words.{bytes32, htons, htonl}
use virtual_gw.Protocols.Ethernet.{
  broadcast_mac, mac_bytes, ethernet_bytes, read_ether_type, MacAddress,
}
use virtual_gw.Protocols.Ip.{
  IpAddress, ip_of_bytes, read_ver_ihl, read_proto, ip_len, ipproto_udp, ip_bytes, IpHeader,
}
use virtual_gw.Protocols.Udp.{sizeof_udp_header, udp_bytes, UdpHeader}
use virtual_gw.Protocols.Checksum.{ip_csum, udp_csum}
use virtual_gw.Protocols.Dhcp.{
  DhcpHeader, dhcp_bytes, sizeof_dhcp_header, read_dhcp_op, read_xid, read_yiaddr,
  read_magic_cookie,
}
use Options.{Locals, no_locals, parse_options}

-- The members of `dhcp_client`.
pub record DhcpClient : Type 0 where
  pub mask : IpAddress
  pub ip : IpAddress
  pub server : IpAddress
  pub is_configured : Bool
  pub mac : MacAddress
  pub xid : ℕ

-- The constructor; `draw` is the value of `rand()`.
unfoldable pub new_client : MacAddress → ℕ → DhcpClient
new_client mac draw = record {
  mask = 0;
  ip = 0;
  server = 0;
  is_configured = false;
  mac = mac;
  xid = draw;
}

abbrev pub dhcpdiscover : ℕ
dhcpdiscover = 1

abbrev pub dhcpoffer : ℕ
dhcpoffer = 2

abbrev pub dhcprequest : ℕ
dhcprequest = 3

abbrev pub dhcpack : ℕ
dhcpack = 5

abbrev pub dhcprelease : ℕ
dhcprelease = 7

abbrev pub broadcast_ip : IpAddress
broadcast_ip = ip_of_bytes 255 255 255 255

-- The options of a message of `send_packet`, with the end option; `none` is the assertion that fails
-- on an unknown type.
unfoldable pub message_options : DhcpClient → ℕ → Option (List ℕ)
message_options c message_type =
    if message_type == dhcpdiscover
    then some (53 ∷ 1 ∷ message_type ∷ 255 ∷ [])
    else if message_type == dhcprequest
    then some (
        53
        ∷ 1
        ∷ message_type
        ∷ 50
        ∷ 4
        ∷ (bytes32 c.ip ++ (54 ∷ 4 ∷ (bytes32 c.server ++ 255 ∷ []))))
    else if message_type == dhcprelease
    then some (
        53
        ∷ 1
        ∷ message_type
        ∷ 50
        ∷ 4
        ∷ (bytes32 c.ip ++ (54 ∷ 4 ∷ (bytes32 c.server ++ 255 ∷ []))))
    else none

-- The header of a message, laid into a buffer of zeros.
abbrev pub message_dhcp : DhcpClient → DhcpHeader
message_dhcp c = record {
  op = 1;
  htype = 1;
  hlen = 6;
  hops = 0;
  xid = c.xid;
  secs = 0;
  flags = 0;
  ciaddr = 0;
  yiaddr = 0;
  siaddr = 0;
  giaddr = 0;
  chaddr = mac_bytes c.mac ++ replicate 10 0;
  sname = replicate 64 0;
  file = replicate 128 0;
  magic_cookie = htonl 0x63825363;
}

abbrev pub message_udp : ℕ → ℕ → UdpHeader
message_udp total_length checksum = record {
  sport = htons 68;
  dport = htons 67;
  total_length = htons total_length;
  checksum = checksum;
}

abbrev pub message_ip : ℕ → ℕ → IpHeader
message_ip tlen crc = record {
  ver_ihl = 0x45;
  tos = 0;
  tlen = htons tlen;
  identification = 0;
  flags_fo = 0;
  ttl = 128;
  proto = ipproto_udp;
  crc = crc;
  saddr = 0;
  daddr = broadcast_ip;
}

-- The headers of `send_packet` before a message. The UDP checksum is taken over the segment with a
-- zero checksum, at the length that stands in its header, and the IP checksum over the 20 bytes of the
-- IP header.
unfoldable pub make_frame : MacAddress → List ℕ → Option (List ℕ)
make_frame mac body = do
  let total_length = sizeof_udp_header + length body
  let tlen = 20 + total_length
  udp_crc ←
      udp_csum (udp_bytes (message_udp total_length 0) ++ body) (htons (htons total_length)) 0
        broadcast_ip
  ip_crc ← ip_csum (ip_bytes (message_ip tlen 0)) 20
  some (
      ethernet_bytes (record { dest = broadcast_mac; source = mac; ether_type = htons 0x0800 })
      ++ (ip_bytes (message_ip tlen ip_crc)
          ++ (udp_bytes (message_udp total_length udp_crc) ++ body)))

-- `send_packet`: the frame sent.
unfoldable pub send_packet : DhcpClient → ℕ → Option (List ℕ)
send_packet c message_type = do
  options ← message_options c message_type
  make_frame c.mac (dhcp_bytes (message_dhcp c) ++ options)

-- A call that sends: the new state and the frames.
abbrev pub Sent : Type 0
Sent = DhcpClient × List (List ℕ)

unfoldable pub send_discover : DhcpClient → Option Sent
send_discover c = do
  frame ← send_packet c dhcpdiscover
  some (record c { is_configured = false }, frame ∷ [])

unfoldable pub send_request : DhcpClient → Option Sent
send_request c = do
  frame ← send_packet c dhcprequest
  some (record c { is_configured = false }, frame ∷ [])

-- `send_release`, also called by the destructor.
unfoldable pub send_release : DhcpClient → Option Sent
send_release c =
    if c.is_configured
    then (do
      frame ← send_packet c dhcprelease
      some (record c { is_configured = false }, frame ∷ []))
    else some (c, [])

-- The actions of `dispatch` on a message whose options are read.
unfoldable pub act : DhcpClient → List ℕ → Locals → Option Sent
act c dhcph l =
    if l.message_type == dhcpoffer
    then (do
      yiaddr ← read_yiaddr dhcph
      send_request (record c { ip = yiaddr; server = l.server; mask = l.mask }))
    else if l.message_type == dhcpack
    then some (record c { is_configured = true }, [])
    else some (c, [])

-- `dispatch` from the DHCP header on: the state, the frames sent, the result.
unfoldable pub on_dhcp : DhcpClient → List ℕ → Option (DhcpClient × List (List ℕ) × Bool)
on_dhcp c dhcph = do
  magic_cookie ← read_magic_cookie dhcph
  if not (magic_cookie == htonl 0x63825363) then some (c, [], false) else (do
    op ← read_dhcp_op dhcph
    if not (op == 2) then some (c, [], false) else (do
      xid ← read_xid dhcph
      if not (xid == c.xid) then some (c, [], true) else (do
        l ← parse_options 151 (drop sizeof_dhcp_header dhcph) 0 no_locals
        done ← act c dhcph l
        some (done.0, done.1, false))))

-- `dispatch`; `packet` is the memory that can be read from the packet's start on, and `none` a read
-- past its end.
unfoldable pub dispatch : DhcpClient → List ℕ → Option (DhcpClient × List (List ℕ) × Bool)
dispatch c packet = do
  ether_type ← read_ether_type packet
  if not (ether_type == htons 0x0800) then some (c, [], false) else (do
    proto ← read_proto packet
    if not (proto == ipproto_udp) then some (c, [], false) else (do
      ver_ihl ← read_ver_ihl packet
      on_dhcp c (drop (14 + ip_len ver_ihl + sizeof_udp_header) packet)))
