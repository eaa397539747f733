-- ===== src/Arp/Laws.antt =====
-- The ARP client of src/arp_client.h: learning, answering, resolving.
-- A lookup after an assignment, at every key.
use virtual_gw.Arp.Frames.{send_reply-wire, send_request-wire, wire-Reads, IsValid}
use virtual_gw.Common.{
  ℕ, ◌^◌, ◌≤◌, ◌<◌, ◌≡◌, refl, ◌≢◌, ◌⊎◌, Bool, true, false, none, some, List, [], ◌∷◌, ◌++◌, arith,
  ◌==◌, if◌then◌else◌, length,
}
use virtual_gw.Common.Words.{htons, read16_in, read32_in}
use virtual_gw.Arp.{
  ArpClient, ArpTable, Frame, send_reply, send_request, find, assign, on_reply, on_request, on_arp,
  dispatch, get_mac,
}
use virtual_gw.Protocols.Ethernet.{MacAddress, broadcast_mac, read_ether_type, read_mac_in}
use virtual_gw.Protocols.Ip.{IpAddress}
use virtual_gw.Protocols.Arp.{read_op, read_sender_mac, read_sender_ip, read_target_ip}

pub find-assign :
    (i j : IpAddress) (m : MacAddress) (table : ArpTable)
    → find j (assign i m table) ≡ (if i == j then some m else find j table)
unfolding find assign
find-assign i j m [] = refl
find-assign i j m ((k, n) ∷ table) = ground (arith, find-assign i j m table)

-- An ARP reply is learned, whoever it was meant for: `dispatch` handles the packet, sends nothing,
-- and then finds the sender's MAC address under the sender's IP address, and under every other
-- address what it found before.
pub dispatch_learns :
    (c : ArpClient) (p : List ℕ) (m : MacAddress) (i j : IpAddress)
    → read_ether_type p ≡ some (htons 0x0806)
    → read_op p ≡ some (htons 2)
    → read_sender_mac p ≡ some m
    → read_sender_ip p ≡ some i
    → (c' : ArpClient) × (dispatch c p ≡ some (c', [], true))
      × (find j c'.arp_table ≡ (if i == j then some m else find j c.arp_table))
      × (c'.ip ≡ c.ip)
      × (c'.mac ≡ c.mac)
unfolding dispatch on_arp on_reply
dispatch_learns c p m i j e o s t = (
  record c { arp_table = assign i m c.arp_table },
  ground arith,
  find-assign i j m c.arp_table,
  refl,
  refl,
)

-- A packet that is neither an ARP reply nor an ARP request for our address changes nothing, is
-- answered by nothing and is left to the next handler.
pub dispatch_ignores :
    (c : ArpClient) (p : List ℕ) (t o i : ℕ)
    → read_ether_type p ≡ some t
    → read_op p ≡ some o
    → read_target_ip p ≡ some i
    → ((t ≢ htons 0x0806) ⊎ ((o ≢ htons 2) × ((o ≢ htons 1) ⊎ (i ≢ c.ip))))
    → dispatch c p ≡ some (c, [], false)
unfolding dispatch on_arp
dispatch_ignores c p t o i e q r h = ground arith

-- Every access of `dispatch` to a packet of at least 42 bytes is inside the packet.
dispatch_in_bounds : (c : ArpClient) (p : List ℕ) → 42 ≤ length p → dispatch c p ≢ none
unfolding dispatch on_arp on_reply on_request
dispatch_in_bounds c p h = ground (
  arith,
  read16_in p 12 (omega arith),
  read16_in p 20 (omega arith),
  read_mac_in p 22 (omega arith),
  read32_in p 28 (omega arith),
  read32_in p 38 (omega arith),
)

-- `dispatch` and `get_mac` keep the buffers at their size.
pub dispatch-IsValid :
    (c c' : ArpClient) (p : List ℕ) (sent : List Frame) (b : Bool)
    → IsValid c
    → dispatch c p ≡ some (c', sent, b)
    → IsValid c'
unfolding dispatch on_arp on_reply on_request send_reply
dispatch-IsValid c c' p sent b v e = ground arith

-- Resolution: a client `a` that does not know the address of a gateway `b` sends one request; `b`
-- answers it with one reply, also where the frames are padded on the way; from the reply `a` learns
-- the MAC address of `b`, which it then finds without sending anything. Both addresses are 32-bit
-- numbers.
pub get_mac_resolves :
    (a b : ArpClient) (pad1 pad2 : List ℕ)
    → IsValid a
    → IsValid b
    → a.ip < 2 ^ 32
    → b.ip < 2 ^ 32
    → find b.ip a.arp_table ≡ none
    → (request : Frame) × (reply : Frame) × (a' : ArpClient) × (b' : ArpClient) × (a'' : ArpClient)
      × (get_mac a b.ip ≡ (a', request ∷ [], none))
      × (dispatch b (request ++ pad1) ≡ some (b', reply ∷ [], true))
      × (dispatch a' (reply ++ pad2) ≡ some (a'', [], true))
      × (get_mac a'' b.ip ≡ (a'', [], some b.mac))
unfolding get_mac dispatch on_arp on_reply on_request send_request
get_mac_resolves a b pad1 pad2 va vb ha hb e =
    let asks = wire-Reads a 1 broadcast_mac b.ip pad1 ha hb in
    let answers = wire-Reads b 2 a.mac a.ip pad2 hb ha in
    (
      (send_request a b.ip).1,
      (send_reply b a.mac a.ip).1,
      (send_request a b.ip).0,
      (send_reply b a.mac a.ip).0,
      record a {
        arp_table = assign b.ip b.mac a.arp_table;
        request_buffer = (send_request a b.ip).0.request_buffer;
      },
      ground arith,
      rw (send_request-wire a b.ip va) (ground (arith, asks)),
      rw (send_reply-wire b a.mac a.ip vb) (ground (arith, answers)),
      ground (arith, find-assign b.ip b.ip b.mac a.arp_table),
    )
