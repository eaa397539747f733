-- ===== src/Dhcp/Laws.antt =====
-- Laws of the DHCP client of src/dhcp_client.h: when it sends what, and when it is configured.
use virtual_gw.Common.{
  ℕ, ◌+◌, ◌≤◌, ◌<◌, ◌≡◌, refl, ◌∙◌, inl, inr, true, false, some, List, [], ◌∷◌, ◌++◌, arith,
  if◌then◌else◌, ==_refl, Bool-cases, ◌>>=◌, length, drop,
}
use virtual_gw.Common.Words.{htons, htonl}
use virtual_gw.Protocols.Ethernet.{read_ether_type}
use virtual_gw.Protocols.Ip.{read_ver_ihl, read_proto, ip_len, ipproto_udp}
use virtual_gw.Dhcp.{
  dhcpoffer, dhcprequest, dhcpack, dhcprelease, send_packet, send_request, send_release, act,
  on_dhcp, dispatch, DhcpClient,
}
use virtual_gw.Protocols.Dhcp.{read_dhcp_op, read_xid, read_yiaddr, read_magic_cookie}
use virtual_gw.Dhcp.Options.{no_locals}
use virtual_gw.Dhcp.Frames.{IsMac, send_packet-IsFrame}
use virtual_gw.Dhcp.Options.Laws.{parse_options_inside, DhcpOption, encode, AllOptions, learn_all}

-- A DHCP reply to the transaction `xid` that offers `yiaddr` with the options `os`: a UDP packet over
-- IPv4 with a header of `14 + ip_len v + 8` bytes before that of DHCP. From the options on, 10001
-- bytes can be read.
pub record IsReply (xid yiaddr : ℕ) (os : List DhcpOption) (packet : List ℕ) : Type 0 where
  pub v : ℕ
  pub ether_type_is : read_ether_type packet ≡ some (htons 0x0800)
  pub proto_is : read_proto packet ≡ some ipproto_udp
  pub ver_ihl_is : read_ver_ihl packet ≡ some v
  pub dhcph : List ℕ
  pub dhcph_is : drop (14 + ip_len v + 8) packet ≡ dhcph
  pub magic_is : read_magic_cookie dhcph ≡ some (htonl 0x63825363)
  pub op_is : read_dhcp_op dhcph ≡ some 2
  pub xid_is : read_xid dhcph ≡ some xid
  pub yiaddr_is : read_yiaddr dhcph ≡ some yiaddr
  pub rest : List ℕ
  pub options_are : drop 240 dhcph ≡ (encode os ++ 255 ∷ []) ++ rest
  pub readable : 10001 ≤ length (drop 240 dhcph)
  pub options_valid : AllOptions os
  pub options_short : length (encode os) < 300

dispatch-on_dhcp :
    (c : DhcpClient) (packet : List ℕ) (v : ℕ)
    → read_ether_type packet ≡ some (htons 0x0800)
    → read_proto packet ≡ some ipproto_udp
    → read_ver_ihl packet ≡ some v
    → dispatch c packet ≡ on_dhcp c (drop (14 + ip_len v + 8) packet)
unfolding dispatch
dispatch-on_dhcp c packet v e1 e2 e3 = rw (e1, e2, e3) refl

-- What `dispatch` does with a reply of its transaction: what `act` does with what the options say.
dispatch-reply :
    (c : DhcpClient) (y : ℕ) (os : List DhcpOption) (packet : List ℕ)
    (r : IsReply c.xid y os packet)
    → dispatch c packet ≡ (act c r.dhcph (learn_all os no_locals) >>= λ s. some (s.0, s.1, false))
unfolding on_dhcp
dispatch-reply c y os packet r =
    let read_all =
      parse_options_inside os (drop 240 r.dhcph) r.rest no_locals r.options_valid r.options_short
        r.options_are r.readable in
    dispatch-on_dhcp c packet r.v r.ether_type_is r.proto_is r.ver_ihl_is
    ∙ rw (r.dhcph_is, r.magic_is, r.op_is, r.xid_is, ==_refl c.xid, read_all) refl

-- The client with what an offer says.
abbrev pub taken : DhcpClient → ℕ → List DhcpOption → DhcpClient
taken c y os =
    let l = learn_all os no_locals in record c { ip = y; server = l.server; mask = l.mask }

-- An offer of our transaction: its address, server and mask are taken over, a request for them is
-- sent, and the client is not configured yet.
pub dispatch_offer :
    (c : DhcpClient) (y : ℕ) (os : List DhcpOption) (packet : List ℕ)
    → IsMac c.mac
    → IsReply c.xid y os packet
    → (learn_all os no_locals).message_type ≡ dhcpoffer
    → (frame : List ℕ) × (send_packet (taken c y os) dhcprequest ≡ some frame)
      × (dispatch c packet
          ≡ some (record (taken c y os) { is_configured = false }, frame ∷ [], false))
unfolding act send_request
dispatch_offer c y os packet v r e =
    let (options, frame, e1, e2, is_frame) =
      send_packet-IsFrame (taken c y os) dhcprequest v (inr (inl refl)) in
    (frame, e2, dispatch-reply c y os packet r ∙ rw (e, r.yiaddr_is, e2) refl)

-- An acknowledgement of our transaction configures the client and changes nothing else.
pub dispatch_ack :
    (c : DhcpClient) (y : ℕ) (os : List DhcpOption) (packet : List ℕ)
    → IsReply c.xid y os packet
    → (learn_all os no_locals).message_type ≡ dhcpack
    → dispatch c packet ≡ some (record c { is_configured = true }, [], false)
unfolding act
dispatch_ack c y os packet r e = dispatch-reply c y os packet r ∙ rw e refl

pub release_sends :
    (c : DhcpClient) (frame : List ℕ)
    → c.is_configured ≡ true
    → send_packet c dhcprelease ≡ some frame
    → send_release c ≡ some (record c { is_configured = false }, frame ∷ [])
unfolding send_release
release_sends c frame e h = ground arith

-- The lease is given back once: `send_release` of a configured client sends one release, and of a
-- client that is not nothing, so that calling it again sends nothing more. The MAC address is made
-- of bytes.
pub send_release_once :
    (c : DhcpClient)
    → IsMac c.mac
    → (c' : DhcpClient) × (sent : List (List ℕ)) × (send_release c ≡ some (c', sent))
      × (c'.is_configured ≡ false)
      × (length sent ≡ (if c.is_configured then 1 else 0))
      × (send_release c' ≡ some (c', []))
unfolding send_release
send_release_once c v = elim (Bool-cases c.is_configured) [
  | inl yes' ↦
      let (options, frame, e1, e2, is_frame) =
        send_packet-IsFrame c dhcprelease v (inr (inr refl)) in
      (
        record c { is_configured = false },
        frame ∷ [],
        release_sends c frame yes' e2,
        refl,
        ground arith,
        refl,
      )
  | inr no' ↦ (c, [], rw no' refl, no', rw no' refl, rw no' refl)
]
