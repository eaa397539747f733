-- ===== src/Vgw/Laws.antt =====
-- Laws of the commands of src/virtual_gw.h.
use virtual_gw.Common.{
  ℕ, ◌+◌, ◌≡◌, refl, ◌∙◌, inl, inr, false, Option, none, some, List, [], ◌∷◌, arith, Option-cases,
  drop,
}
use virtual_gw.Common.Int.{ℤ}
use virtual_gw.Common.Words.{htons}
use virtual_gw.Protocols.Ethernet.{read_ether_type}
use virtual_gw.Protocols.Ip.{IpAddress, read_ver_ihl, read_proto, ip_len, ipproto_udp}
use virtual_gw.Protocols.Udp.{read_udp_dport}
use virtual_gw.Common.Text.{Text, codes, text_eq, text_eq_sound}
use virtual_gw.Hl.Params.{Regexp, Groups}
use virtual_gw.Nqueue.{Nqueue}
use virtual_gw.Dispatcher.Table.{NqList, find, erase}
use virtual_gw.Dispatcher.Commands.{set_qsize, clear_queue, set_filter, set_qdisc, push_back_qdisc}
use virtual_gw.Dispatcher.Laws.{with_queue_local}
use virtual_gw.Vgw.{
  vgw_port, vgw_protocol_id, read_protocol_id, c_string, dispatch, on_vgw, Served, Ran, and_then,
  on_queues, command, queue_commands,
}

-- A step of a command leaves the queue of the name `j` alone.
abbrev Keeps : Text → (Served → Ran) → Type 0
Keeps j f = (s : Served) → find j (f s).1.nq_list ≡ find j s.nq_list

and_then-Keeps :
    (j : Text) (r : Ran) (g : Served → Ran) (x : Option Nqueue)
    → find j r.1.nq_list ≡ x
    → Keeps j g
    → find j (and_then r g).1.nq_list ≡ x
unfolding and_then
and_then-Keeps j (none, s) g x h b = b s ∙ h
and_then-Keeps j (some e, s) g x h b = h

command-Keeps :
    (match : Regexp) (j pattern cmd : Text) (code : Groups → Served → Ran)
    → ((rg : Groups) → Keeps j (code rg))
    → Keeps j (command match pattern cmd code)
unfolding command
command-Keeps match j pattern cmd code a s = elim (Option-cases (match pattern cmd)) [
  | inl e ↦ rw (e, command) refl
  | inr (rg, e) ↦ rw (e, command) (a rg s)
]

find-erase : (key j : Text) (m : NqList) → text_eq j key ≡ false → find j (erase key m) ≡ find j m
unfolding find erase
find-erase key j [] e = refl
find-erase key j ((k, n) ∷ m) e =
    ground (arith, find-erase key j m e, text_eq_sound key k, text_eq_sound j k)

-- A command `q:key …` changes no queue but that of its key, whether it ends or throws.
pub queue_commands_local :
    (match : Regexp) (garbage : ℤ) (key j cmd : Text) (s : Served)
    → text_eq j key ≡ false
    → find j (queue_commands match garbage key cmd s).1.nq_list ≡ find j s.nq_list
unfolding queue_commands on_queues clear_queue set_qsize set_filter set_qdisc push_back_qdisc
queue_commands_local match garbage key j cmd s e =
    and_then-Keeps j _ _ (find j s.nq_list)
      (and_then-Keeps j _ _ (find j s.nq_list)
        (and_then-Keeps j _ _ (find j s.nq_list)
          (and_then-Keeps j _ _ (find j s.nq_list)
            (command-Keeps match j (codes "^reset") cmd _ (λ rg s. find-erase key j s.nq_list e) s)
            (command-Keeps match j (codes "^qsize +([0-9]+)") cmd _
              λ rg s. with_queue_local s.nq_list key j _ e))
          (command-Keeps match j (codes "^filter +(.*)") cmd _
            λ rg s. with_queue_local s.nq_list key j _ e))
        (command-Keeps match j (codes "^set:([0-9]+) +([a-z]+) +(.+)") cmd _
          λ rg s. with_queue_local s.nq_list key j _ e))
      (command-Keeps match j (codes "^push_back +([a-z]+) +(.+)") cmd _
        λ rg s. with_queue_local s.nq_list key j _ e)

-- A packet for a server of another name is taken and has no effect: nothing runs, nothing is
-- answered.
pub other_server_ignored :
    (match : Regexp) (garbage : ℤ) (left : List ℕ) (request_id v dport : ℕ)
    (server_name name : Text) (ip : IpAddress) (s : Served) (packet : List ℕ)
    → read_ether_type packet ≡ some (htons 0x0800)
    → read_proto packet ≡ some ipproto_udp
    → read_ver_ihl packet ≡ some v
    → read_udp_dport packet (14 + ip_len v) ≡ some dport
    → htons dport ≡ vgw_port
    → read_protocol_id (drop (14 + ip_len v + 8) packet) ≡ some vgw_protocol_id
    → c_string (drop 4 (drop (14 + ip_len v + 8) packet)) ≡ some name
    → text_eq name server_name ≡ false
    → dispatch match garbage left request_id server_name ip s packet ≡ some (none, s, [], 1)
unfolding dispatch on_vgw
other_server_ignored match garbage left request_id v dport server_name name ip s packet e1 e2 e3 e4
      e5 e6 e7 e8 =
    rw (e1, e2, e3, e4, e5, e6, e7, e8) refl
