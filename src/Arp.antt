-- ===== src/Arp.antt =====
-- src/arp_client.h: the ARP client, which answers requests for the gateway's address and keeps the
-- table from IP to MAC addresses that the router asks.
pub mod Frames
pub mod Laws
mod Tests
use virtual_gw.Protocols.Ethernet.{
  EthernetHeader, MacAddress, broadcast_mac, ethernet_bytes, sizeof_ethernet_header,
  read_ether_type,
}
use virtual_gw.Common.{
  ℕ, ◌+◌, Bool, true, false, Option, none, some, List, [], ◌∷◌, ◌==◌, if◌then◌else◌, ◌>>=◌, take,
  store,
}
use virtual_gw.Common.Words.{htons}
use virtual_gw.Protocols.Ip.{IpAddress}
use virtual_gw.Protocols.Arp.{
  ArpRequest, arp_bytes, sizeof_arp_request, read_op, read_sender_mac, read_sender_ip,
  read_target_ip,
}

-- A `std::map<ip_address,mac_address>`. It is only searched and assigned to, so its order is of no
-- account.
abbrev pub ArpTable : Type 0
ArpTable = List (IpAddress × MacAddress)

-- The fields of `arp_client`, with the static buffers of `send_reply` and `send_request`.
pub record ArpClient : Type 0 where
  pub ip : IpAddress
  pub mac : MacAddress
  pub arp_table : ArpTable
  pub reply_buffer : List ℕ
  pub request_buffer : List ℕ

-- The bytes that one call of `transport.send` sends.
abbrev pub Frame : Type 0
Frame = List ℕ

-- `_arp_table.find(ip)`
unfoldable pub find : IpAddress → ArpTable → Option MacAddress
find ip [] = none
find ip ((i, m) ∷ table) = if i == ip then some m else find ip table

-- `_arp_table[ip] = mac`
unfoldable pub assign : IpAddress → MacAddress → ArpTable → ArpTable
assign ip mac [] = (ip, mac) ∷ []
assign ip mac ((i, m) ∷ table) = if i == ip then (ip, mac) ∷ table else (i, m) ∷ assign ip mac table

-- The headers of a message, every field of them assigned.
abbrev pub message_ethernet : ArpClient → MacAddress → EthernetHeader
message_ethernet c target_mac = record {
  dest = target_mac;
  source = c.mac;
  ether_type = htons 0x0806;
}

abbrev pub message_arp : ArpClient → ℕ → MacAddress → IpAddress → ArpRequest
message_arp c op target_mac target_ip = record {
  hardware_mac_address_type = htons 1;
  protocol_address_type = htons 0x0800;
  hardware_mac_address_size = 6;
  protocol_address_size = 4;
  op = htons op;
  sender_mac = c.mac;
  sender_ip = c.ip;
  target_mac = target_mac;
  target_ip = target_ip;
}

-- What `send_reply` and `send_request` lay into their buffer.
abbrev pub message : ArpClient → ℕ → MacAddress → IpAddress → List ℕ → List ℕ
message c op target_mac target_ip buffer =
    store (store buffer 0 (ethernet_bytes (message_ethernet c target_mac))) sizeof_ethernet_header
      (arp_bytes (message_arp c op target_mac target_ip))

unfoldable pub send_reply : ArpClient → MacAddress → IpAddress → ArpClient × Frame
send_reply c target_mac target_ip =
    let buffer = message c 2 target_mac target_ip c.reply_buffer in
    (record c { reply_buffer = buffer }, take (sizeof_arp_request + sizeof_ethernet_header) buffer)

unfoldable pub send_request : ArpClient → IpAddress → ArpClient × Frame
send_request c target_ip =
    let buffer = message c 1 broadcast_mac target_ip c.request_buffer in
    (
      record c { request_buffer = buffer },
      take (sizeof_arp_request + sizeof_ethernet_header) buffer,
    )

unfoldable pub set_ip : ArpClient → IpAddress → ArpClient
set_ip c ip = record c { ip = ip }

-- What a handler does: the new state, the frames sent in order, the result.
abbrev pub Outcome : Type 0 → Type 0
Outcome A = ArpClient × List Frame × A

-- The part of `dispatch` for a reply.
unfoldable pub on_reply : ArpClient → List ℕ → Option (Outcome Bool)
on_reply c packet = do
  sender_mac ← read_sender_mac packet
  sender_ip ← read_sender_ip packet
  some (record c { arp_table = assign sender_ip sender_mac c.arp_table }, [], true)

-- The part of `dispatch` for a request for our address.
unfoldable pub on_request : ArpClient → List ℕ → Option (Outcome Bool)
on_request c packet = do
  sender_mac ← read_sender_mac packet
  sender_ip ← read_sender_ip packet
  let sent = send_reply c sender_mac sender_ip
  some (sent.0, sent.1 ∷ [], true)

-- The tests of `dispatch` on the fields `Op` and `target_ip`; a request for another address falls
-- through to the second test.
unfoldable pub on_arp : ArpClient → List ℕ → ℕ → Option (Outcome Bool)
on_arp c packet op =
    if op == htons 1
    then (do
      target_ip ← read_target_ip packet
      if target_ip == c.ip then on_request c packet else some (c, [], false))
    else if op == htons 2
    then on_reply c packet
    else some (c, [], false)

-- `dispatch`; `none` is a read past the end of the memory that holds the packet.
unfoldable pub dispatch : ArpClient → List ℕ → Option (Outcome Bool)
dispatch c packet = do
  ether_type ← read_ether_type packet
  if ether_type == htons 0x0806
      then (do op ← read_op packet; on_arp c packet op)
      else some (c, [], false)

-- `get_mac`: the address is assigned to the out parameter where the result is `some`.
unfoldable pub get_mac : ArpClient → IpAddress → Outcome (Option MacAddress)
get_mac c ip = elim (find ip c.arp_table) [
  | none ↦ (let sent = send_request c ip in (sent.0, sent.1 ∷ [], none))
  | some mac ↦ (c, [], some mac)
]
