-- ===== src/Dhcp/Tests.antt =====
-- Runs of the DHCP client, and its laws at inputs that meet their hypotheses.
use virtual_gw.Common.{
  ℕ, ◌+◌, ◌<◌, ◌≡◌, refl, inl, inr, true, false, none, some, List, [], ◌∷◌, ◌++◌, arith, ltb,
  if◌then◌else◌, length, drop, replicate, length-replicate,
}
use virtual_gw.Common.Words.{bytes32, htons, htonl, read16, read32}
use virtual_gw.Protocols.Ethernet.{read_ether_type, MacAddress}
use virtual_gw.Protocols.Ip.{ip_of_bytes, read_ver_ihl, ip_len}
use virtual_gw.Dhcp.{dhcprequest, dhcpack, send_packet, dispatch, DhcpClient}
use virtual_gw.Protocols.Dhcp.{read_xid}
use virtual_gw.Dhcp.Frames.{IsMac, Message, send_packet-IsFrame}
use virtual_gw.Dhcp.Options.{Locals, no_locals, parse_options}
use virtual_gw.Dhcp.Options.Laws.{
  DhcpOption, message_type, server_id, subnet_mask, other, encode, AllOptions, learn_all,
  parse_options_reads,
}
use virtual_gw.Dhcp.Laws.{IsReply, taken, dispatch_offer, dispatch_ack}
use virtual_gw.Dhcp.Configured.{configured_by_ack}

abbrev card : MacAddress
card = record { byte1 = 0; byte2 = 22; byte3 = 62; byte4 = 1; byte5 = 2; byte6 = 3 }

card-IsMac : IsMac card
card-IsMac = record {
  byte1_fits = omega arith;
  byte2_fits = omega arith;
  byte3_fits = omega arith;
  byte4_fits = omega arith;
  byte5_fits = omega arith;
  byte6_fits = omega arith;
}

abbrev client : DhcpClient
client = record {
  mask = 0;
  ip = 0;
  server = 0;
  is_configured = false;
  mac = card;
  xid = 0x12345678;
}

-- The memory behind a packet.
behind : (xs : List ℕ) × (length xs ≡ 10100)
behind = (replicate 10100 0, length-replicate {A = ℕ} 10100 0)

abbrev options_of : ℕ → List DhcpOption
options_of t =
    message_type t
    ∷ server_id (ip_of_bytes 10 0 0 1)
    ∷ other 51 (0 ∷ 1 ∷ 0 ∷ 0 ∷ [])
    ∷ subnet_mask (ip_of_bytes 255 255 255 0)
    ∷ []

options-AllOptions : (t : ℕ) → t < 256 → AllOptions (options_of t)
options-AllOptions t h = omega (arith, h)

-- A reply of the type `t` that offers 10.0.0.7.
abbrev reply_header : List ℕ
reply_header =
    2
    ∷ 1
    ∷ 6
    ∷ 0
    ∷ (bytes32 0x12345678
        ++ (replicate 8 0
            ++ (bytes32 (ip_of_bytes 10 0 0 7) ++ (replicate 216 0 ++ bytes32 (htonl 0x63825363)))))

abbrev reply : ℕ → List ℕ
reply t =
    replicate 12 0
    ++ (8
        ∷ 0
        ∷ 0x45
        ∷ (replicate 8 0
            ++ (17
                ∷ (replicate 18 0
                    ++ (reply_header ++ ((encode (options_of t) ++ 255 ∷ []) ++ behind.0))))))

reply-IsReply :
    (t : ℕ) → t < 256 → IsReply 0x12345678 (ip_of_bytes 10 0 0 7) (options_of t) (reply t)
unfolding read16 read32
reply-IsReply t h = record {
  v = 0x45;
  ether_type_is = refl;
  proto_is = refl;
  ver_ihl_is = refl;
  dhcph = reply_header ++ ((encode (options_of t) ++ 255 ∷ []) ++ behind.0);
  dhcph_is = refl;
  magic_is = refl;
  op_is = refl;
  xid_is = refl;
  yiaddr_is = refl;
  rest = behind.0;
  options_are = refl;
  readable = omega (arith, behind.1);
  options_valid = options-AllOptions t h;
  options_short = omega arith;
}

send_packet-IsFrame_example : Message client dhcprequest
send_packet-IsFrame_example = send_packet-IsFrame client dhcprequest card-IsMac (inr (inl refl))

parse_options_reads_example :
    parse_options 151 ((encode (options_of 2) ++ 255 ∷ []) ++ []) 0 no_locals ≡ (
      if ltb 10000 (length ((encode (options_of 2) ++ 255 ∷ []) ++ []))
      then some (learn_all (options_of 2) no_locals)
      else none)
parse_options_reads_example =
    parse_options_reads (options_of 2) [] no_locals (options-AllOptions 2 (omega arith))
      (omega arith)

offered :
    (frame : List ℕ) × (send_packet (taken client (ip_of_bytes 10 0 0 7) (options_of 2)) dhcprequest
      ≡ some frame)
    × (dispatch client (reply 2)
        ≡ some (
          record (taken client (ip_of_bytes 10 0 0 7) (options_of 2)) { is_configured = false },
          frame ∷ [],
          false,
        ))
offered =
    dispatch_offer client (ip_of_bytes 10 0 0 7) (options_of 2) (reply 2) card-IsMac
      (reply-IsReply 2 (omega arith)) refl

acknowledged : dispatch client (reply 5) ≡ some (record client { is_configured = true }, [], false)
acknowledged =
    dispatch_ack client (ip_of_bytes 10 0 0 7) (options_of 5) (reply 5)
      (reply-IsReply 5 (omega arith)) refl

abbrev no_frames : List (List ℕ)
no_frames = []

configured_by_ack_example :
    (v : ℕ) × (l : Locals) × (read_ether_type (reply 5) ≡ some (htons 0x0800))
    × (read_ver_ihl (reply 5) ≡ some v)
    × (read_xid (drop (14 + ip_len v + 8) (reply 5)) ≡ some client.xid)
    × (parse_options 151 (drop 240 (drop (14 + ip_len v + 8) (reply 5))) 0 no_locals ≡ some l)
    × (l.message_type ≡ dhcpack)
    × (no_frames ≡ [])
    × (record client { is_configured = true } ≡ record client { is_configured = true })
configured_by_ack_example =
    configured_by_ack client (record client { is_configured = true }) (reply 5) no_frames false refl
      acknowledged refl
