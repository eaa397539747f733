-- ===== src/Vgw.antt =====
-- src/virtual_gw.h: the server of the configuration protocol, which runs commands on the queues.
pub mod Laws
pub mod Frames
pub mod Operates
mod Tests
use virtual_gw.Common.{
  ℕ, ◌+◌, ◌-◌, ◌*◌, Bool, true, not, Option, none, some, List, [], ◌∷◌, ◌++◌, ◌==◌, if◌then◌else◌,
  ◌>>=◌, length, take, drop, replicate,
}
use virtual_gw.Common.Int.{ℤ, bits32}
use virtual_gw.Common.Words.{bytes32, htons, read8, read32}
use virtual_gw.Protocols.Ethernet.{read_mac, ethernet_bytes, read_ether_type, MacAddress}
use virtual_gw.Protocols.Ip.{
  IpAddress, read_ver_ihl, read_proto, read_saddr, ip_len, ipproto_udp, ip_bytes, IpHeader,
}
use virtual_gw.Protocols.Udp.{
  sizeof_udp_header, read_udp_sport, read_udp_dport, udp_bytes, UdpHeader,
}
use virtual_gw.Common.Text.{Text, codes, text_eq, atoi}
use virtual_gw.Common.Result.{Exception, std_exception, text}
use virtual_gw.Hl.Params.{Regexp, Groups}
use virtual_gw.Protocols.Checksum.{ip_csum, udp_csum}
use virtual_gw.Dispatcher.Table.{NqList}
use virtual_gw.Dispatcher.Commands.{
  Outcome, set_qsize, clear_queue, set_filter, set_qdisc, push_back_qdisc,
}

abbrev pub vgw_protocol_id : ℕ
vgw_protocol_id = 0x2A32D435

abbrev pub vgw_port : ℕ
vgw_port = 2007

abbrev pub server_name_len : ℕ
server_name_len = 32

-- The fields of `vgw_header`, from its start: the name at 4, the request at 36, the type at 40, the
-- data of a command at 41.
abbrev pub read_protocol_id : List ℕ → Option ℕ
read_protocol_id m = read32 m 0

abbrev pub read_type : List ℕ → Option ℕ
read_type m = read8 m 40

-- The C string at the start of a memory; `none` is a memory that ends before the string does.
unfoldable pub c_string : List ℕ → Option Text
c_string [] = none
c_string (c ∷ m) = let rest = c_string m in if c == 0 then some [] else (do s ← rest; some (c ∷ s))

-- The `enum` of the types.
abbrev pub type_discovery : ℕ
type_discovery = 1

abbrev pub type_reply : ℕ
type_reply = 2

abbrev pub type_server_command : ℕ
type_server_command = 3

-- What a command changes: the queues, and `Ctrl_break_handler::ctrl_break_pressed`.
pub record Served : Type 0 where
  pub nq_list : NqList
  pub ctrl_break_pressed : Bool

-- A run of commands, and the exception that ended it.
abbrev pub Ran : Type 0
Ran = Option Exception × Served

-- One command after another: an exception leaves the rest out.
unfoldable pub and_then : Ran → (Served → Ran) → Ran
and_then (none, s) f = f s
and_then (some e, s) f = (some e, s)

-- A command on the queues.
unfoldable pub on_queues : Served → (NqList → Outcome) → Ran
on_queues s f = let r = f s.nq_list in (r.0, record s { nq_list = r.1 })

-- The `catch` in `exec`: the result, or the exception that it does not catch.
unfoldable pub caught : Ran → Option Exception × ℕ × Served
caught (none, s) = (none, 1, s)
caught (some std_exception, s) = (none, 0, s)
caught (some text, s) = (some text, 0, s)

module _ (match : Regexp) where
  -- The macro `COMMAND`.
  unfoldable pub command : Text → Text → (Groups → Served → Ran) → Served → Ran
  command pattern cmd code s = elim (match pattern cmd) [ some rg ↦ code rg s | none ↦ (none, s) ]

  -- The commands on the queue `q_key`; `garbage` is the uninitialised member of a new `band_qdisc`.
  unfoldable pub queue_commands : ℤ → Text → Text → Served → Ran
  queue_commands garbage q_key cmd s =
      and_then
        (and_then
          (and_then
            (and_then
              (command (codes "^reset") cmd (λ rg s. on_queues s (λ m. clear_queue m q_key)) s)
              (command (codes "^qsize +([0-9]+)") cmd
                λ rg s. on_queues s (λ m. set_qsize m q_key (bits32 (atoi (rg 1))))))
            (command (codes "^filter +(.*)") cmd
              λ rg s. on_queues s (λ m. set_filter match m q_key (rg 1))))
          (command (codes "^set:([0-9]+) +([a-z]+) +(.+)") cmd
            λ rg s. on_queues s (λ m. set_qdisc match garbage m q_key (rg 1) (rg 2) (rg 3))))
        (command (codes "^push_back +([a-z]+) +(.+)") cmd
          λ rg s. on_queues s (λ m. push_back_qdisc match garbage m q_key (rg 1) (rg 2)))

  -- The body of the `try` in `exec`; `print` only prints.
  unfoldable pub run_command : ℤ → Text → Served → Ran
  run_command garbage cmd s =
      and_then
        (command (codes "^[[:space:]]*stop[[:space:]]*$") cmd
          (λ rg s. (none, record s { ctrl_break_pressed = true })) s)
        (command (codes "q:([-_A-Za-z0-9]+) +(.*)") cmd
          λ rg s. queue_commands garbage (rg 1) (rg 2) s)

  -- `exec`; `vgwh` is the memory from the header on, and `none` a read past its end.
  unfoldable pub exec : ℤ → List ℕ → Served → Option (Option Exception × ℕ × Served)
  exec garbage vgwh s = do
    type ← read_type vgwh
    if type == type_discovery
        then some (none, 1, s)
        else if type == type_server_command
        then (do cmd ← c_string (drop 41 vgwh); some (caught (run_command garbage cmd s)))
        else some (none, 0, s)

-- `vgw_header<reply>`, 48 bytes. `left` is what the memory held: behind the name, in the three bytes
-- before the result, nothing is written.
unfoldable pub name_field : List ℕ → Text → List ℕ
name_field left name =
    let copied = take server_name_len (name ++ 0 ∷ []) in
    copied ++ take (server_name_len - length copied) left

unfoldable pub reply_bytes : List ℕ → Text → ℕ → ℕ → List ℕ
reply_bytes left name request_id result =
    bytes32 vgw_protocol_id
    ++ (name_field left name
        ++ (bytes32 request_id
            ++ (type_reply ∷ (take 3 (left ++ replicate 3 0) ++ bytes32 result))))

abbrev pub reply_udp : ℕ → ℕ → ℕ → UdpHeader
reply_udp dport total_length checksum = record {
  sport = htons vgw_port;
  dport = htons dport;
  total_length = htons total_length;
  checksum = checksum;
}

abbrev pub reply_ip : IpAddress → IpAddress → ℕ → ℕ → IpHeader
reply_ip s_ip d_ip tlen crc = record {
  ver_ihl = 0x45;
  tos = 0;
  tlen = htons tlen;
  identification = 0;
  flags_fo = 0;
  ttl = 128;
  proto = ipproto_udp;
  crc = crc;
  saddr = s_ip;
  daddr = d_ip;
}

-- `send`: the frame around the message `body`; both MAC addresses are the receiver's.
unfoldable pub send : MacAddress → IpAddress → IpAddress → ℕ → List ℕ → Option (List ℕ)
send d_mac s_ip d_ip udp_dport body = do
  let total_length = sizeof_udp_header + length body
  let tlen = 20 + total_length
  udp_crc ←
      udp_csum (udp_bytes (reply_udp udp_dport total_length 0) ++ body) (htons (htons total_length))
        s_ip d_ip
  ip_crc ← ip_csum (ip_bytes (reply_ip s_ip d_ip tlen 0)) 20
  some (
      ethernet_bytes (record { dest = d_mac; source = d_mac; ether_type = htons 0x0800 })
      ++ (ip_bytes (reply_ip s_ip d_ip tlen ip_crc)
          ++ (udp_bytes (reply_udp udp_dport total_length udp_crc) ++ body)))

-- What `dispatch` does: the exception that leaves it, the state, the frames sent, its result.
abbrev pub Dispatched : Type 0
Dispatched = Option Exception × Served × List (List ℕ) × ℕ

-- The reply of `dispatch` to the sender of `packet`, whose UDP header stands at `udph`.
unfoldable pub answer : List ℕ → ℕ → Text → IpAddress → List ℕ → ℕ → ℕ → Served → Option Dispatched
answer left request_id server_name ip packet udph result s = do
  source ← read_mac packet 6
  saddr ← read_saddr packet
  sport ← read_udp_sport packet udph
  frame ← send source ip saddr (htons sport) (reply_bytes left server_name request_id result)
  some (none, s, frame ∷ [], 1)

module _ (match : Regexp) where
  -- `dispatch` from the `vgw_header` on.
  unfoldable pub on_vgw :
      ℤ → List ℕ → ℕ → Text → IpAddress → Served → List ℕ → ℕ → Option Dispatched
  on_vgw garbage left request_id server_name ip s packet udph = do
    let vgwh = drop (udph + sizeof_udp_header) packet
    protocol_id ← read_protocol_id vgwh
    if not (protocol_id == vgw_protocol_id) then some (none, s, [], 0) else (do
      name ← c_string (drop 4 vgwh)
      if not (text_eq name server_name) then some (none, s, [], 1) else (do
        r ← exec match garbage vgwh s
        elim r.0 [
          | some e ↦ some (some e, r.2, [], 0)
          | none ↦ answer left request_id server_name ip packet udph r.1 r.2
        ]))

  -- `dispatch`; `packet` is the memory from the packet's start on, and `none` a read past its end.
  unfoldable pub dispatch : ℤ → List ℕ → ℕ → Text → IpAddress → Served → List ℕ → Option Dispatched
  dispatch garbage left request_id server_name ip s packet = do
    ether_type ← read_ether_type packet
    if not (ether_type == htons 0x0800) then some (none, s, [], 0) else (do
      proto ← read_proto packet
      if not (proto == ipproto_udp) then some (none, s, [], 0) else (do
        ver_ihl ← read_ver_ihl packet
        let udph = 14 + ip_len ver_ihl
        dport ← read_udp_dport packet udph
        if not (htons dport == vgw_port)
            then some (none, s, [], 0)
            else on_vgw garbage left request_id server_name ip s packet udph))
