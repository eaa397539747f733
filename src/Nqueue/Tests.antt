-- ===== src/Nqueue/Tests.antt =====
-- Runs of a queue, and its laws at inputs that meet their hypotheses.
use virtual_gw.Common.{ℕ, ◌*◌, ◌≡◌, refl, ◌≢◌, none, some, List, [], ◌∷◌, ◌++◌, replicate}
use virtual_gw.Common.Int.{pos}
use virtual_gw.Nqueue.{Out, Nqueue, new_nqueue, can_pop_all, packet_out, after_all, send_front}
use virtual_gw.Packets.{Npacket, PacketsRawQueue, push, pop, new_queue, empty}
use virtual_gw.Qdisc.{Qdisc, band, delay, can_pop}
use virtual_gw.Qdisc.Band.{BandQdisc}
use virtual_gw.Qdisc.Band
use virtual_gw.Qdisc.Delay
use virtual_gw.Nqueue.Laws.{AllYes, packet_out_delay, packet_out_sends_front}

-- A UDP packet from 10.0.0.1:80 to 10.0.0.2:1025.
abbrev packet : Npacket
packet = record {
  uid = pos 1;
  in_time = pos 1000;
  bytes =
      replicate 12 0
      ++ (8
          ∷ 0
          ∷ 0x45
          ∷ (replicate 8 0
              ++ (17 ∷ 0 ∷ 0 ∷ 10 ∷ 0 ∷ 0 ∷ 1 ∷ 10 ∷ 0 ∷ 0 ∷ 2 ∷ 0 ∷ 80 ∷ 4 ∷ 1 ∷ [])));
}

-- A bucket without a limit, and one packet that waits.
abbrev unlimited : BandQdisc
unlimited = record {
  rate = pos 0;
  burst = pos 1500;
  quota = pos 0;
  max_delay = pos 0;
  last_ts = pos 0;
}

abbrev with_one : List Qdisc → Nqueue
with_one ds = record new_nqueue { packets = push (new_queue 10240) packet; qdisc_vec = ds }

abbrev draws : ℕ → ℕ
draws i = 37 * i

sent :
    (n : Nqueue) × (packet_out draws 0 (with_one (band unlimited ∷ [])) (pos 1010)
      ≡ some (some packet.bytes, n, 0))
unfolding packet_out can_pop_all can_pop Band.can_pop after_all send_front pop push new_queue
sent = (_, refl)

packet_out_sends_front_example :
    (ds : List Qdisc) × (q : PacketsRawQueue) × (p : Npacket) × AllYes draws
      (pos 1010)
      0
      (with_one (band unlimited ∷ [])).qdisc_vec
      (with_one (band unlimited ∷ [])).packets
      ds
      q
      0
    × ((with_one (band unlimited ∷ [])).qdisc_vec ≢ [])
    × (q.packets ≡ p ∷ sent.0.packets.packets)
    × (packet.bytes ≡ p.bytes)
    × (sent.0.qdisc_vec ≡ ds)
packet_out_sends_front_example =
    packet_out_sends_front draws 0 (pos 1010) (with_one (band unlimited ∷ [])) sent.0 0 packet.bytes
      sent.1

kept :
    (n : Nqueue) × (packet_out draws 0
        (with_one (band unlimited ∷ delay (record { ms = pos 5 }) ∷ []))
        (pos 1010)
      ≡ some (none, n, 0))
unfolding packet_out can_pop_all can_pop Band.can_pop Delay.can_pop after_all push new_queue empty
kept = (_, refl)

abbrev no_send : Out
no_send = (none, kept.0, 0)

packet_out_delay_example : no_send.0 ≡ none
packet_out_delay_example =
    packet_out_delay draws 0 (pos 1010) (band unlimited ∷ []) [] (record { ms = pos 5 })
      (with_one (band unlimited ∷ delay (record { ms = pos 5 }) ∷ [])) no_send refl kept.1
