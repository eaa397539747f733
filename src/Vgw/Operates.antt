-- ===== src/Vgw/Operates.antt =====
-- The server of src/virtual_gw.h changes the queues by commands of the dispatcher only.
use virtual_gw.Common.{
  ℕ, ◌+◌, ◌≡◌, refl, sym, inl, inr, not, Option, none, some, List, [], arith, ◌==◌, Option-cases,
  >>=-eq-some, drop, if-eq-some, some_has,
}
use virtual_gw.Common.Int.{ℤ, bits32}
use virtual_gw.Common.Words.{htons}
use mathlib.Core.Path.{subst}
use virtual_gw.Protocols.Ethernet.{read_mac, read_ether_type}
use virtual_gw.Protocols.Ip.{IpAddress, read_ver_ihl, read_proto, read_saddr, ip_len, ipproto_udp}
use virtual_gw.Protocols.Udp.{sizeof_udp_header, read_udp_sport, read_udp_dport}
use virtual_gw.Common.Text.{Text, codes, text_eq, atoi}
use virtual_gw.Common.Result.{Exception}
use virtual_gw.Hl.Params.{Regexp, Groups}
use virtual_gw.Dispatcher.Table.{NqList}
use virtual_gw.Dispatcher.Thread.{
  Command, System, run_on, by_command, qsize, clear, filter, qdisc, push_back,
}
use virtual_gw.Dispatcher.Atomic.History.{Did, Did-more}
use virtual_gw.Dispatcher.Locks.{with_queues}
use virtual_gw.Vgw.{
  read_type, type_discovery, type_server_command, c_string, send, reply_bytes, read_protocol_id,
  vgw_protocol_id, vgw_port, Served, Ran, Dispatched, and_then, on_queues, command, queue_commands,
  run_command, caught, exec, answer, on_vgw, dispatch,
}

module _ (match : Regexp) (rand : ℕ → ℕ) (garbage : ℤ) (start s : System) where
  -- The queues are those of a history in which nothing comes and nothing is sent.
  abbrev pub Reaches : NqList → Type 0
  Reaches m = Did match rand start (with_queues s m) [] []

  -- A step of the server goes on with such a history.
  abbrev Operates : (Served → Ran) → Type 0
  Operates f = (t : Served) → Reaches t.nq_list → Reaches (f t).1.nq_list

  and_then-Reaches :
      (r : Ran) (f : Served → Ran)
      → Reaches r.1.nq_list
      → Operates f
      → Reaches (and_then r f).1.nq_list
  unfolding and_then
  and_then-Reaches (none, t) f h k = k t h
  and_then-Reaches (some e, t) f h k = h

  command-Operates :
      (pattern cmd : Text) (code : Groups → Served → Ran)
      → ((rg : Groups) → Operates (code rg))
      → Operates (command match pattern cmd code)
  unfolding command
  command-Operates pattern cmd code a t h = elim (Option-cases (match pattern cmd)) [
    | inl e ↦ rw (e, command) h
    | inr (rg, e) ↦ rw (e, command) (a rg t h)
  ]

  queue_commands-Operates : (key cmd : Text) → Operates (queue_commands match garbage key cmd)
  unfolding queue_commands on_queues run_on
  queue_commands-Operates key cmd t h =
      and_then-Reaches _ _
        (and_then-Reaches _ _
          (and_then-Reaches _ _
            (and_then-Reaches _ _
              (command-Operates (codes "^reset") cmd _ (λ rg t h. step t.nq_list (clear key) h) t h)
              (command-Operates (codes "^qsize +([0-9]+)") cmd _
                λ rg t h. step t.nq_list (qsize key (bits32 (atoi (rg 1)))) h))
            (command-Operates (codes "^filter +(.*)") cmd _
              λ rg t h. step t.nq_list (filter key (rg 1)) h))
          (command-Operates (codes "^set:([0-9]+) +([a-z]+) +(.+)") cmd _
            λ rg t h. step t.nq_list (qdisc key (rg 1) (rg 2) (rg 3)) h))
        (command-Operates (codes "^push_back +([a-z]+) +(.+)") cmd _
          λ rg t h. step t.nq_list (push_back key (rg 1) (rg 2)) h)
    where
      step : (m : NqList) (c : Command) → Reaches m → Reaches (run_on match garbage c m).1
      step m c h =
          Did-more match rand start (with_queues s m) (with_queues s (run_on match garbage c m).1)
            [] [] [] [] h (by_command garbage c, refl, refl)

  run_command-Operates : (cmd : Text) → Operates (run_command match garbage cmd)
  unfolding run_command
  run_command-Operates cmd t h =
      and_then-Reaches _ _
        (command-Operates (codes "^[[:space:]]*stop[[:space:]]*$") cmd _ (λ rg t h. h) t h)
        (command-Operates (codes "q:([-_A-Za-z0-9]+) +(.*)") cmd _
          λ rg t h. queue_commands-Operates (rg 1) (rg 2) t h)

  caught-Reaches : (r : Ran) → Reaches r.1.nq_list → Reaches (caught r).2.nq_list
  unfolding caught
  caught-Reaches (none, t) h = h
  caught-Reaches (some Exception.std_exception, t) h = h
  caught-Reaches (some Exception.text, t) h = h

  exec-Reaches :
      (vgwh : List ℕ) (t : Served) (r : Option Exception × ℕ × Served)
      → Reaches t.nq_list
      → exec match garbage vgwh t ≡ some r
      → Reaches r.2.nq_list
  unfolding exec
  exec-Reaches vgwh t r h e =
      let (type, e1, e2) = >>=-eq-some (read_type vgwh) _ e in
      elim (if-eq-some (type == type_discovery) _ _ e2) [
        | inl k ↦ some_has (λ z. Reaches z.2.nq_list) k h
        | inr k ↦ elim (if-eq-some (type == type_server_command) _ _ k) [
          | inl j ↦
              let (cmd, e3, e4) = >>=-eq-some (c_string (drop 41 vgwh)) _ j in
              some_has (λ z. Reaches z.2.nq_list) e4
                (caught-Reaches (run_command match garbage cmd t) (run_command-Operates cmd t h))
          | inr j ↦ some_has (λ z. Reaches z.2.nq_list) j h
        ]
      ]

  answer_keeps :
      (left : List ℕ) (request_id : ℕ) (name : Text) (ip : IpAddress) (packet : List ℕ)
      (udph result : ℕ) (t : Served) (r : Dispatched)
      → answer left request_id name ip packet udph result t ≡ some r
      → r.1 ≡ t
  unfolding answer
  answer_keeps left request_id name ip packet udph result t r e =
      let (source, e1, e2) = >>=-eq-some (read_mac packet 6) _ e in
      let (saddr, e3, e4) = >>=-eq-some (read_saddr packet) _ e2 in
      let (sport, e5, e6) = >>=-eq-some (read_udp_sport packet udph) _ e4 in
      let (frame, e7, e8) =
        >>=-eq-some (send source ip saddr (htons sport) (reply_bytes left name request_id result)) _
          e6 in
      ground arith

  replied :
      (left : List ℕ) (request_id : ℕ) (name : Text) (ip : IpAddress) (packet : List ℕ) (udph : ℕ)
      (x : Option Exception) (n : ℕ) (t : Served) (r : Dispatched)
      → Reaches t.nq_list
      → (elim x [
        | some e ↦ some (some e, t, [], 0)
        | none ↦ answer left request_id name ip packet udph n t
      ])
        ≡ some r
      → Reaches r.1.nq_list
  replied left request_id name ip packet udph (some e) n t r h k =
      some_has (λ z. Reaches z.1.nq_list) k h
  replied left request_id name ip packet udph none n t r h k =
      subst (λ z. Reaches z.nq_list)
        (sym (answer_keeps left request_id name ip packet udph n t r k)) h

  on_vgw-Reaches :
      (left : List ℕ) (request_id : ℕ) (name : Text) (ip : IpAddress) (packet : List ℕ) (udph : ℕ)
      (t : Served) (r : Dispatched)
      → Reaches t.nq_list
      → on_vgw match garbage left request_id name ip t packet udph ≡ some r
      → Reaches r.1.nq_list
  unfolding on_vgw
  on_vgw-Reaches left request_id name ip packet udph t r h e =
      let vgwh = drop (udph + sizeof_udp_header) packet in
      let (protocol_id, e1, e2) = >>=-eq-some (read_protocol_id vgwh) _ e in
      elim (if-eq-some (not (protocol_id == vgw_protocol_id)) _ _ e2) [
        | inl k ↦ some_has (λ z. Reaches z.1.nq_list) k h
        | inr k ↦
            let (its_name, e3, e4) = >>=-eq-some (c_string (drop 4 vgwh)) _ k in
            elim (if-eq-some (not (text_eq its_name name)) _ _ e4) [
              | inl j ↦ some_has (λ z. Reaches z.1.nq_list) j h
              | inr j ↦
                  let (x, e5, e6) = >>=-eq-some (exec match garbage vgwh t) _ j in
                  replied left request_id name ip packet udph x.0 x.1 x.2 r
                    (exec-Reaches vgwh t x h e5) e6
            ]
      ]

  -- Whatever the packet, the server leaves the queues as commands have made them.
  pub dispatch-Reaches :
      (left : List ℕ) (request_id : ℕ) (name : Text) (ip : IpAddress) (packet : List ℕ) (t : Served)
      (r : Dispatched)
      → Reaches t.nq_list
      → dispatch match garbage left request_id name ip t packet ≡ some r
      → Reaches r.1.nq_list
  unfolding dispatch
  dispatch-Reaches left request_id name ip packet t r h e =
      let (ether_type, e1, e2) = >>=-eq-some (read_ether_type packet) _ e in
      elim (if-eq-some (not (ether_type == htons 0x0800)) _ _ e2) [
        | inl k ↦ some_has (λ z. Reaches z.1.nq_list) k h
        | inr k ↦
            let (proto, e3, e4) = >>=-eq-some (read_proto packet) _ k in
            elim (if-eq-some (not (proto == ipproto_udp)) _ _ e4) [
              | inl j ↦ some_has (λ z. Reaches z.1.nq_list) j h
              | inr j ↦
                  let (ver_ihl, e5, e6) = >>=-eq-some (read_ver_ihl packet) _ j in
                  let udph = 14 + ip_len ver_ihl in
                  let (dport, e7, e8) = >>=-eq-some (read_udp_dport packet udph) _ e6 in
                  elim (if-eq-some (not (htons dport == vgw_port)) _ _ e8) [
                    | inl i ↦ some_has (λ z. Reaches z.1.nq_list) i h
                    | inr i ↦ on_vgw-Reaches left request_id name ip packet udph t r h i
                  ]
            ]
      ]
