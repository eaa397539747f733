-- ===== src/Dhcp/Frames.antt =====
-- The frames that `send_packet` of src/dhcp_client.h sends.
use virtual_gw.Common.{
  ℕ, zero, suc, ◌+◌, ◌*◌, ◌<◌, ◌≡◌, refl, ap, ◌∙◌, ◌⊎◌, inl, inr, some, List, [], ◌∷◌, ◌++◌, arith,
  length, replicate, length-append,
}
use virtual_gw.Common.Words.{bytes16, bytes32, htons, htonl, htons_inv, Bytes}
use virtual_gw.Protocols.Ethernet.{broadcast_mac, mac_bytes, ethernet_bytes, MacAddress}
use virtual_gw.Protocols.Ip.{ipproto_udp, ip_bytes}
use virtual_gw.Protocols.Udp.{udp_bytes}
use virtual_gw.Protocols.Dhcp.{dhcp_bytes}
use virtual_gw.Protocols.Checksum.{ip_csum, udp_csum}
use virtual_gw.Protocols.Checksum.Closes.{word_sum-le, udp_csum_closes, ip_csum_closes}
use virtual_gw.Dhcp.{
  DhcpClient, broadcast_ip, message_options, message_dhcp, message_udp, message_ip, make_frame,
  send_packet, dhcpdiscover, dhcprequest, dhcprelease,
}

-- What a receiver checks in a frame around a message: the IP header and the UDP segment, each with a
-- checksum that verifies.
pub record IsFrame (mac : MacAddress) (body frame : List ℕ) : Type 0 where
  pub ip_crc : ℕ
  pub udp_crc : ℕ
  pub frame_is :
      frame
      ≡ ethernet_bytes (record { dest = broadcast_mac; source = mac; ether_type = htons 0x0800 })
        ++ (ip_bytes (message_ip (20 + (8 + length body)) ip_crc)
            ++ (udp_bytes (message_udp (8 + length body) udp_crc) ++ body))
  pub ip_verifies : ip_csum (ip_bytes (message_ip (20 + (8 + length body)) ip_crc)) 20 ≡ some 0
  pub udp_verifies :
      udp_csum
        (udp_bytes (message_udp (8 + length body) udp_crc) ++ body)
        (8 + length body)
        0
        broadcast_ip
      ≡ some 0

make_frame-IsFrame :
    (mac : MacAddress) (body : List ℕ) (n : ℕ)
    → Bytes body
    → length body ≡ 2 * n
    → n < 30000
    → (frame : List ℕ) × (make_frame mac body ≡ some frame) × IsFrame mac body frame
unfolding make_frame
make_frame-IsFrame mac body n b e h =
    let segment = 8 + length body in
    let udp_pre = bytes16 (htons 68) ++ (bytes16 (htons 67) ++ bytes16 (htons segment)) in
    let (u, eu, vu) =
      udp_csum_closes 3 n (4 + n) 0 broadcast_ip udp_pre body refl e (omega arith)
        (omega (arith, word_sum-le n body b e)) in
    let ip_pre =
      0x45 ∷ 0 ∷ (bytes16 (htons (20 + segment)) ++ (0 ∷ 0 ∷ 0 ∷ 0 ∷ 128 ∷ ipproto_udp ∷ [])) in
    let (i, ei, vi) =
      ip_csum_closes 5 4 10 ip_pre (bytes32 0 ++ bytes32 broadcast_ip) refl refl refl
        (omega arith) in
    let len : segment ≡ 2 * (4 + n) = omega arith in
    let eu' : udp_csum (udp_bytes (message_udp segment 0) ++ body) (htons (htons segment)) 0
          broadcast_ip
        ≡ some u =
      ap (λ k. udp_csum (udp_bytes (message_udp segment 0) ++ body) k 0 broadcast_ip)
        (htons_inv segment (omega arith) ∙ len)
      ∙ eu in
    (
      _,
      rw (eu', ei) refl,
      record {
        ip_crc = i;
        udp_crc = u;
        frame_is = refl;
        ip_verifies = vi;
        udp_verifies =
            ap (λ k. udp_csum (udp_bytes (message_udp segment u) ++ body) k 0 broadcast_ip) len
            ∙ vu;
      },
    )

-- The bytes of a MAC address are bytes.
pub record IsMac (mac : MacAddress) : Type 0 where
  pub byte1_fits : mac.byte1 < 256
  pub byte2_fits : mac.byte2 < 256
  pub byte3_fits : mac.byte3 < 256
  pub byte4_fits : mac.byte4 < 256
  pub byte5_fits : mac.byte5 < 256
  pub byte6_fits : mac.byte6 < 256

Bytes-append : (xs ys : List ℕ) → Bytes xs → Bytes ys → Bytes (xs ++ ys)
Bytes-append [] ys a b = b
Bytes-append (x ∷ xs) ys a b = (a.0, Bytes-append xs ys a.1 b)

Bytes-zeros : (n : ℕ) → Bytes (replicate n 0)
Bytes-zeros zero = tt
Bytes-zeros (suc n) = (omega arith, Bytes-zeros n)

message-Bytes : (c : DhcpClient) → IsMac c.mac → Bytes (dhcp_bytes (message_dhcp c))
message-Bytes c v =
    let front_bytes = 1 ∷ 1 ∷ 6 ∷ 0 ∷ (bytes32 c.xid ++ (replicate 20 0 ++ mac_bytes c.mac)) in
    Bytes-append front_bytes (replicate 202 0 ++ bytes32 (htonl 0x63825363)) (omega (arith, v))
      (Bytes-append (replicate 202 0) (bytes32 (htonl 0x63825363)) (Bytes-zeros 202) (omega arith))

-- A message with the options `options`.
abbrev pub Message : DhcpClient → ℕ → Type 0
Message c t =
    (options : List ℕ) × (frame : List ℕ) × (message_options c t ≡ some options)
    × (send_packet c t ≡ some frame)
    × IsFrame c.mac (dhcp_bytes (message_dhcp c) ++ options) frame

with_options :
    (c : DhcpClient) (t : ℕ) (options : List ℕ) (k : ℕ)
    → IsMac c.mac
    → message_options c t ≡ some options
    → Bytes options
    → length options ≡ 2 * k
    → k < 1000
    → Message c t
unfolding send_packet
with_options c t options k v e b l h =
    let len = length-append (dhcp_bytes (message_dhcp c)) options in
    let bytes = Bytes-append (dhcp_bytes (message_dhcp c)) options (message-Bytes c v) b in
    let (frame, made, is_frame) =
      make_frame-IsFrame c.mac (dhcp_bytes (message_dhcp c) ++ options) (120 + k) bytes
        (omega arith) (omega arith) in
    (options, frame, e, rw (e, made) refl, is_frame)

-- Each of the three messages can be sent: the frame has the message behind an IP header and a UDP
-- header whose checksums verify, if the MAC address is made of bytes.
pub send_packet-IsFrame :
    (c : DhcpClient) (t : ℕ)
    → IsMac c.mac
    → (t ≡ dhcpdiscover) ⊎ (t ≡ dhcprequest) ⊎ (t ≡ dhcprelease)
    → Message c t
unfolding message_options
send_packet-IsFrame c t v (inl e) =
    rw e (
      with_options c dhcpdiscover (53 ∷ 1 ∷ 1 ∷ 255 ∷ []) 2 v refl (omega arith) refl (omega arith))
send_packet-IsFrame c t v (inr (inl e)) =
    rw e (with_options c dhcprequest _ 8 v refl (omega arith) refl (omega arith))
send_packet-IsFrame c t v (inr (inr e)) =
    rw e (with_options c dhcprelease _ 8 v refl (omega arith) refl (omega arith))
