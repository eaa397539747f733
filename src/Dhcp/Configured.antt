-- ===== src/Dhcp/Configured.antt =====
-- When the DHCP client of src/dhcp_client.h becomes configured.
use virtual_gw.Common.{
  ℕ, ◌+◌, ◌≡◌, ap, ◌∙◌, inl, inr, Bool, true, false, some, List, [], arith, ◌==◌, ==_iff,
  Bool-cases, >>=-eq-some, drop,
}
use virtual_gw.Common.Words.{htons, htonl}
use virtual_gw.Protocols.Ethernet.{read_ether_type}
use virtual_gw.Protocols.Ip.{read_ver_ihl, read_proto, ip_len, ipproto_udp}
use virtual_gw.Dhcp.{
  dhcpoffer, dhcprequest, dhcpack, send_packet, send_request, act, on_dhcp, dispatch, DhcpClient,
}
use virtual_gw.Protocols.Dhcp.{read_dhcp_op, read_xid, read_yiaddr, read_magic_cookie}
use virtual_gw.Dhcp.Options.{Locals, no_locals, parse_options}

act_configures :
    (c c' : DhcpClient) (m : List ℕ) (l : Locals) (sent : List (List ℕ))
    → c.is_configured ≡ false
    → act c m l ≡ some (c', sent)
    → c'.is_configured ≡ true
    → (l.message_type ≡ dhcpack) × (sent ≡ []) × (c' ≡ record c { is_configured = true })
unfolding act send_request
act_configures c c' m l sent e h k = elim (Bool-cases (l.message_type == dhcpoffer)) [
  | inl offer' ↦
      let (y, e1, h1) = >>=-eq-some (read_yiaddr m) _ (rw offer' at h) in
      let (frame, e2, h2) = >>=-eq-some (send_packet _ dhcprequest) _ h1 in absurd (ground arith)
  | inr other' ↦
      let h' = rw other' at h in
      elim (Bool-cases (l.message_type == dhcpack)) [
        | inl ack' ↦
            let h2 = rw ack' at h' in
            ((==_iff l.message_type dhcpack).0 ack', ground arith, ground arith)
        | inr neither' ↦ let h2 = rw neither' at h' in absurd (ground arith)
      ]
]

on_dhcp_configures :
    (c c' : DhcpClient) (m : List ℕ) (sent : List (List ℕ)) (b : Bool)
    → c.is_configured ≡ false
    → on_dhcp c m ≡ some (c', sent, b)
    → c'.is_configured ≡ true
    → (l : Locals) × (read_xid m ≡ some c.xid)
      × (parse_options 151 (drop 240 m) 0 no_locals ≡ some l)
      × (l.message_type ≡ dhcpack)
      × (sent ≡ [])
      × (c' ≡ record c { is_configured = true })
unfolding on_dhcp
on_dhcp_configures c c' m sent b e h k =
    let (magic, e1, h1) = >>=-eq-some (read_magic_cookie m) _ h in
    elim (Bool-cases (magic == htonl 0x63825363)) [
      | inr other' ↦ let h2 = rw other' at h1 in absurd (ground arith)
      | inl same' ↦
          let (op, e2, h2) = >>=-eq-some (read_dhcp_op m) _ (rw same' at h1) in
          elim (Bool-cases (op == 2)) [
            | inr request' ↦ let h3 = rw request' at h2 in absurd (ground arith)
            | inl reply' ↦
                let (xid, e3, h3) = >>=-eq-some (read_xid m) _ (rw reply' at h2) in
                elim (Bool-cases (xid == c.xid)) [
                  | inr foreign' ↦ let h4 = rw foreign' at h3 in absurd (ground arith)
                  | inl own' ↦
                      let (l, e4, h4) =
                        >>=-eq-some (parse_options 151 (drop 240 m) 0 no_locals) _
                          (rw own' at h3) in
                      let (s, e5, h5) = >>=-eq-some (act c m l) _ h4 in
                      let acted : act c m l ≡ some (c', sent) =
                        e5 ∙ ap (λ s. some s) (ground arith) in
                      let (a1, a2, a3) = act_configures c c' m l sent e acted k in
                      (l, e3 ∙ ap (λ n. some n) ((==_iff xid c.xid).0 own'), e4, a1, a2, a3)
                ]
          ]
    ]

-- Only an acknowledgement of our transaction configures the client.
pub configured_by_ack :
    (c c' : DhcpClient) (packet : List ℕ) (sent : List (List ℕ)) (b : Bool)
    → c.is_configured ≡ false
    → dispatch c packet ≡ some (c', sent, b)
    → c'.is_configured ≡ true
    → (v : ℕ) × (l : Locals) × (read_ether_type packet ≡ some (htons 0x0800))
      × (read_ver_ihl packet ≡ some v)
      × (read_xid (drop (14 + ip_len v + 8) packet) ≡ some c.xid)
      × (parse_options 151 (drop 240 (drop (14 + ip_len v + 8) packet)) 0 no_locals ≡ some l)
      × (l.message_type ≡ dhcpack)
      × (sent ≡ [])
      × (c' ≡ record c { is_configured = true })
unfolding dispatch
configured_by_ack c c' packet sent b e h k =
    let (t, e1, h1) = >>=-eq-some (read_ether_type packet) _ h in
    elim (Bool-cases (t == htons 0x0800)) [
      | inr other' ↦ let h2 = rw other' at h1 in absurd (ground arith)
      | inl ip' ↦
          let (proto, e2, h2) = >>=-eq-some (read_proto packet) _ (rw ip' at h1) in
          elim (Bool-cases (proto == ipproto_udp)) [
            | inr other' ↦ let h3 = rw other' at h2 in absurd (ground arith)
            | inl udp' ↦
                let (v, e3, h3) = >>=-eq-some (read_ver_ihl packet) _ (rw udp' at h2) in
                let (l, a1, a2, a3, a4, a5) =
                  on_dhcp_configures c c' (drop (14 + ip_len v + 8) packet) sent b e h3 k in
                (
                  v,
                  l,
                  e1 ∙ ap (λ n. some n) ((==_iff t (htons 0x0800)).0 ip'),
                  e3,
                  a1,
                  a2,
                  a3,
                  a4,
                  a5,
                )
          ]
    ]
