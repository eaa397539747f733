-- ===== src/Vgw/Frames.antt =====
-- The frames that the server of src/virtual_gw.h answers with.
use virtual_gw.Common.{
  ℕ, zero, suc, ◌+◌, ◌*◌, ◌/◌, ◌≤◌, ◌≡◌, refl, none, some, List, [], ◌∷◌, ◌++◌, arith, length,
}
use virtual_gw.Common.Words.{add_u32, htons, read16_in, read32_in}
use virtual_gw.Protocols.Ethernet.{read_mac, ethernet_bytes, read_mac_in, MacAddress}
use virtual_gw.Protocols.Ip.{IpAddress, read_saddr, ipproto_udp, ip_bytes}
use virtual_gw.Protocols.Udp.{read_udp_sport, udp_bytes}
use virtual_gw.Common.Text.{Text}
use virtual_gw.Protocols.Checksum.{sum_words, udp_csum, segment_csum, ip_csum, finish, pseudo_hdr}
use virtual_gw.Vgw.{Served, send, answer, reply_bytes, reply_ip, reply_udp}

-- The message behind the three headers, with these checksums.
abbrev pub carried : MacAddress → IpAddress → IpAddress → ℕ → ℕ → ℕ → List ℕ → List ℕ
carried mac s_ip d_ip dport ip_crc udp_crc body =
    let total_length = 8 + length body in
    ethernet_bytes (record { dest = mac; source = mac; ether_type = htons 0x0800 })
    ++ (ip_bytes (reply_ip s_ip d_ip (20 + total_length) ip_crc)
        ++ (udp_bytes (reply_udp dport total_length udp_crc) ++ body))

sum_words-some :
    (n : ℕ) (buf : List ℕ) (sum : ℕ) → 2 * n ≤ length buf → (t : ℕ) × (sum_words buf n sum ≡ some t)
unfolding sum_words
sum_words-some zero buf sum h = (sum, refl)
sum_words-some (suc n) [] sum h = absurd (omega arith)
sum_words-some (suc n) (lo ∷ []) sum h = absurd (omega arith)
sum_words-some (suc n) (lo ∷ hi ∷ buf) sum h =
    sum_words-some n buf (add_u32 sum (lo + hi * 256)) (omega arith)

udp_csum-some :
    (buf : List ℕ) (nbytes : ℕ) (saddr daddr : IpAddress)
    → nbytes ≤ length buf
    → (c : ℕ) × (udp_csum buf nbytes saddr daddr ≡ some c)
unfolding udp_csum segment_csum
udp_csum-some buf nbytes saddr daddr h =
    let (pseudo, e1) =
      sum_words-some 6 (pseudo_hdr saddr daddr ipproto_udp nbytes) 0 (omega arith) in
    let (whole, e2) = sum_words-some (nbytes / 2) buf pseudo (omega arith) in
    (finish whole, rw (e1, e2) refl)

ip_csum-some :
    (buf : List ℕ) (nbytes : ℕ) → nbytes ≤ length buf → (c : ℕ) × (ip_csum buf nbytes ≡ some c)
unfolding ip_csum
ip_csum-some buf nbytes h =
    let (whole, e) = sum_words-some (nbytes / 2) buf 0 (omega arith) in (finish whole, rw e refl)

send-carried :
    (mac : MacAddress) (s_ip d_ip : IpAddress) (dport : ℕ) (body : List ℕ)
    → (ip_crc : ℕ) × (udp_crc : ℕ) × (send mac s_ip d_ip dport body
        ≡ some (carried mac s_ip d_ip dport ip_crc udp_crc body))
unfolding send
send-carried mac s_ip d_ip dport body =
    let total_length = 8 + length body in
    let (udp_crc, eu) =
      udp_csum-some (udp_bytes (reply_udp dport total_length 0) ++ body)
        (htons (htons total_length)) s_ip d_ip (omega arith) in
    let (ip_crc, ei) =
      ip_csum-some (ip_bytes (reply_ip s_ip d_ip (20 + total_length) 0)) 20 (omega arith) in
    (ip_crc, udp_crc, rw (eu, ei) refl)

-- The frame that answers a packet: to its source, from the server's address.
abbrev pub Answer : IpAddress → List ℕ → ℕ → List ℕ → List ℕ → Type 0
Answer ip packet udph body frame =
    (mac : MacAddress) × (saddr : IpAddress) × (sport : ℕ) × (ip_crc : ℕ) × (udp_crc : ℕ)
    × (read_mac packet 6 ≡ some mac)
    × (read_saddr packet ≡ some saddr)
    × (read_udp_sport packet udph ≡ some sport)
    × (frame ≡ carried mac ip saddr (htons sport) ip_crc udp_crc body)

-- The server answers every packet that holds its headers.
pub answer-Answer :
    (left : List ℕ) (request_id : ℕ) (name : Text) (ip : IpAddress) (packet : List ℕ)
    (udph result : ℕ) (s : Served)
    → 34 ≤ udph
    → udph + 2 ≤ length packet
    → (frame : List ℕ) × (answer left request_id name ip packet udph result s
        ≡ some (none, s, frame ∷ [], 1))
      × Answer ip packet udph (reply_bytes left name request_id result) frame
unfolding answer
answer-Answer left request_id name ip packet udph result s h k =
    let body = reply_bytes left name request_id result in
    let (mac, em) = read_mac_in packet 6 (omega arith) in
    let (saddr, es) = read32_in packet 26 (omega arith) in
    let (sport, ep) = read16_in packet udph (omega arith) in
    let (ip_crc, udp_crc, e) = send-carried mac ip saddr (htons sport) body in
    (
      carried mac ip saddr (htons sport) ip_crc udp_crc body,
      rw (em, es, ep, e) refl,
      (mac, saddr, sport, ip_crc, udp_crc, em, es, ep, refl),
    )
