-- ===== src/Arp/Frames.antt =====
-- The frames that src/arp_client.h sends, and what the reads of a frame find in them.
use virtual_gw.Common.{
  ℕ, ◌^◌, ◌≤◌, ◌<◌, ◌≡◌, refl, ap, some, List, ◌++◌, arith, length, take, drop, length-drop,
  store_front,
}
use virtual_gw.Common.Words.{htons, read16, read32, bytes32_inv}
use virtual_gw.Arp.{
  ArpClient, Frame, message_ethernet, message_arp, message, send_reply, send_request,
}
use virtual_gw.Protocols.Ethernet.{
  MacAddress, broadcast_mac, read_mac, ethernet_bytes, read_ether_type,
}
use virtual_gw.Protocols.Ip.{IpAddress}
use virtual_gw.Protocols.Arp.{arp_bytes, read_op, read_sender_mac, read_sender_ip, read_target_ip}

-- The 42 bytes of a message.
abbrev pub wire : ArpClient → ℕ → MacAddress → IpAddress → Frame
wire c op m i = ethernet_bytes (message_ethernet c m) ++ arp_bytes (message_arp c op m i)

-- Each function's buffer holds a message, so it is a buffer of 1024 bytes still.
pub record IsValid (c : ArpClient) : Type 0 where
  pub reply_size : length c.reply_buffer ≡ 1024
  pub request_size : length c.request_buffer ≡ 1024

message-take :
    (c : ArpClient) (op : ℕ) (m : MacAddress) (i : IpAddress) (buffer : List ℕ)
    → 42 ≤ length buffer
    → take 42 (message c op m i buffer) ≡ wire c op m i
message-take c op m i buffer h =
    rw (store_front buffer (ethernet_bytes (message_ethernet c m)) (omega arith)) (
      rw (
        store_front (drop 14 buffer) (arp_bytes (message_arp c op m i))
          (omega (arith, length-drop 14 buffer))))

pub send_reply-wire :
    (c : ArpClient) (m : MacAddress) (i : IpAddress)
    → IsValid c
    → (send_reply c m i).1 ≡ wire c 2 m i
unfolding send_reply
send_reply-wire c m i v = message-take c 2 m i c.reply_buffer (omega arith)

pub send_request-wire :
    (c : ArpClient) (i : IpAddress) → IsValid c → (send_request c i).1 ≡ wire c 1 broadcast_mac i
unfolding send_request
send_request-wire c i v = message-take c 1 broadcast_mac i c.request_buffer (omega arith)

-- What a receiver reads from a message, followed by anything (a short frame is padded).
pub record Reads (c : ArpClient) (op : ℕ) (i : IpAddress) (p : List ℕ) : Type 0 where
  pub ether_type_is : read_ether_type p ≡ some (htons 0x0806)
  pub op_is : read_op p ≡ some (htons op)
  pub sender_mac_is : read_sender_mac p ≡ some c.mac
  pub sender_ip_is : read_sender_ip p ≡ some c.ip
  pub target_ip_is : read_target_ip p ≡ some i

pub wire-Reads :
    (c : ArpClient) (op : ℕ) (m : MacAddress) (i : IpAddress) (pad : List ℕ)
    → c.ip < 2 ^ 32
    → i < 2 ^ 32
    → Reads c op i (wire c op m i ++ pad)
unfolding read16 read32 read_mac
wire-Reads c op m i pad h k = record {
  ether_type_is = refl;
  op_is = ap (λ w. some w) (omega arith);
  sender_mac_is = refl;
  sender_ip_is = ap (λ w. some w) (bytes32_inv c.ip h);
  target_ip_is = ap (λ w. some w) (bytes32_inv i k);
}
