-- ===== src/Gateway/Tests/Together.antt =====
-- A packet that waits in a queue and is sent by the thread.
use virtual_gw.Common.{ℕ, ◌+◌, ◌≤◌, ◌≡◌, refl, false, some, List, [], ◌∷◌, length}
use virtual_gw.Common.Int.{pos}
use virtual_gw.Common.Words.{read16, read32}
use virtual_gw.Protocols.Ethernet.{mac_eq, read_mac}
use virtual_gw.Common.Text.{codes}
use virtual_gw.Gateway.Tests.{knowing, forwarding, no_match}
use virtual_gw.Gateway.{configured, handle, Gateway}
use virtual_gw.Arp
use virtual_gw.Router
use virtual_gw.Vgw
use virtual_gw.Qdisc.{band}
use virtual_gw.Qdisc
use virtual_gw.Qdisc.Band.{BandQdisc}
use virtual_gw.Qdisc.Band
use virtual_gw.Packets.{push, pop, new_queue, new_npacket}
use virtual_gw.Nqueue.{new_nqueue, packet_in, packet_out, can_pop_all, after_all, send_front}
use virtual_gw.Nfilter.{accepts, ip_match}
use virtual_gw.Nfilter.Ip.{ip_test}
use virtual_gw.Dispatcher
use virtual_gw.Dispatcher.{offer, pump}
use virtual_gw.Dispatcher.Table.{NqList}
use virtual_gw.Dispatcher.Thread.{at_test, by_wait, by_pump}
use virtual_gw.Gateway.Main.{run_loop, unless, carry_on, behind, running}
use virtual_gw.Packets.Mass.{mass}
use virtual_gw.Dispatcher.Mass.{held_by}
use virtual_gw.Gateway.Together.{
  Process, Turns, Turns-trans, then_turn, no_turn, by_dispatcher, all_read, all_sent,
  behind_addresses, sent_was_read,
}
use virtual_gw.Gateway.Alone.{run_loop-Turns}

-- Its queue `slow` has a bucket without a limit.
abbrev unlimited : BandQdisc
unlimited = record {
  rate = pos 0;
  burst = pos 1500;
  quota = pos 0;
  max_delay = pos 0;
  last_ts = pos 0;
}

abbrev queues : NqList
queues = (codes "slow", record new_nqueue { qdisc_vec = band unlimited ∷ [] }) ∷ []

abbrev shaping : Gateway
shaping = record knowing {
  router = record knowing.router { qm = record knowing.router.qm { nq_list = queues } };
}

abbrev process : Process
process = record { gateway = shaping; prev_time = pos 0; should_stop = false; phase = at_test }

reads : (g : Gateway) × (run_loop no_match forwarding shaping ≡ some (running, g, []))
unfolding run_loop unless carry_on behind handle configured Vgw.dispatch Arp.dispatch Arp.set_ip
    Router.dispatch Router.resolve Router.forward Arp.find Arp.get_mac Dispatcher.push offer read16
    read32 read_mac mac_eq packet_in accepts new_nqueue new_npacket ip_match ip_test
reads = (_, refl)

abbrev draws : ℕ → ℕ
draws i = i

abbrev later : Process
later = record process { gateway = reads.0 }

passes :
    (frame : List ℕ) × (m : NqList) × (pump draws 0 reads.0.router.qm.nq_list (pos 400)
      ≡ some (frame ∷ [], m, 0))
unfolding pump packet_out can_pop_all Qdisc.can_pop Band.can_pop after_all send_front pop push
    new_queue new_nqueue run_loop reads
passes = (_, _, refl)

-- The thread waits and makes its pass when the loop has read the packets.
day : (q : Process) × Turns no_match draws process q
unfolding reads
day = (
  _,
  Turns-trans (run_loop-Turns no_match draws forwarding process reads.0 [] reads.1).0 (
      then_turn (by_dispatcher (by_wait (pos 400) refl refl) refl) (
        then_turn (by_dispatcher (by_pump (pos 400) (passes.0 ∷ []) passes.1 0 refl passes.2) refl)
          no_turn)),
)

sent_was_read_example :
    mass (behind_addresses length) (all_sent day.1)
      + held_by (behind_addresses length) day.0.gateway.router.qm.nq_list
    ≤ mass (behind_addresses length) (all_read day.1) + held_by (behind_addresses length) queues
sent_was_read_example = sent_was_read length day.1 (tt, tt)
