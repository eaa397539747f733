-- ===== src/Dispatcher/Tests.antt =====
-- Runs of the dispatcher, and its laws at inputs that meet their hypotheses.
use virtual_gw.Common.{
  ◌+◌, ◌*◌, ◌≤◌, ◌≡◌, refl, ◌⊎◌, true, false, none, some, [], ◌∷◌, ◌++◌, length, replicate,
}
use virtual_gw.Common.Int.{pos, ◌+ℤ◌, ◌-ℤ◌, wrap}
use virtual_gw.Common.Words.{read16, read32}
use virtual_gw.Common.Text.{codes, text_eq, text_lt}
use virtual_gw.Dispatcher.Thread.{
  by_push, run_on, System, Steps, at_test, at_end, by_wait, by_pump, by_report, by_command, by_stop,
  by_exit, no_step, then_step, clear,
}
use virtual_gw.Packets.{new_npacket, Npacket}
use virtual_gw.Nqueue.{new_nqueue, packet_in, packet_out}
use virtual_gw.Nfilter.{accepts, ip_match, ports_match}
use virtual_gw.Dispatcher.{push, offer, pump, report}
use virtual_gw.Dispatcher.Table.{NqList, IsSorted, erase}
use virtual_gw.Dispatcher.Commands.{clear_queue}
use virtual_gw.Hl.Params.{Regexp}
use virtual_gw.Packets.Mass.{mass}
use virtual_gw.Dispatcher.Mass.{held_by}
use virtual_gw.Dispatcher.Conserve.{all_left, all_came, conserved}
use virtual_gw.Dispatcher.Printed.{print_all}
use virtual_gw.Dispatcher.Steady.{all_told, unchanged_untold}
use virtual_gw.Dispatcher.Order.{Steps-IsSorted}
use virtual_gw.Nfilter.Ip.{ip_test}
use virtual_gw.Nfilter.Port.{port_test}
use virtual_gw.Dispatcher.Laws.{AllRefuse, Delivered, offer_delivers}

-- Two queues, and a packet that is not IPv4, which both refuse.
abbrev queues : NqList
queues = (codes "fast", new_nqueue) ∷ (codes "slow", new_nqueue) ∷ []

abbrev foreign : Npacket
foreign = record { uid = pos 1; in_time = pos 1000; bytes = replicate 60 0 }

refused : offer queues foreign ≡ some (false, queues)
unfolding offer packet_in accepts read16
refused = refl

-- An IPv4 packet of UDP, which `fast` takes.
abbrev domestic : Npacket
domestic = record {
  uid = pos 1;
  in_time = pos 1000;
  bytes =
      replicate 12 0
      ++ (8
          ∷ 0
          ∷ 0x45
          ∷ (replicate 8 0
              ++ (17 ∷ 0 ∷ 0 ∷ 10 ∷ 0 ∷ 0 ∷ 1 ∷ 10 ∷ 0 ∷ 0 ∷ 2 ∷ 0 ∷ 80 ∷ 4 ∷ 1 ∷ [])));
}

taken : (m : NqList) × (offer queues domestic ≡ some (true, m))
unfolding offer packet_in new_nqueue accepts read16 ip_match read32 ip_test ports_match port_test
taken = (_, refl)

offer_delivers_example :
    ((true ≡ true) × Delivered queues domestic taken.0)
    ⊎ ((true ≡ false) × (taken.0 ≡ queues) × AllRefuse queues domestic)
offer_delivers_example = offer_delivers queues taken.0 domestic true taken.1

-- The thread waits, a command comes before the packets, then a frame that no queue takes, and the
-- thread ends after its round.
abbrev start : System
start = record {
  dispatcher = record { nq_list = queues; uid_base = pos 0; draws = 0; new_packet = true };
  prev_time = pos 0;
  should_stop = false;
  phase = at_test;
}

abbrev no_match : Regexp
no_match pattern text = none

nothing_at_400 : pump (λ i. 37 * i) 0 queues (pos 400) ≡ some ([], queues, 0)
unfolding pump packet_out new_nqueue
nothing_at_400 = refl

life :
    Steps no_match
      (λ i. 37 * i)
      start
      (record start {
        dispatcher = (record {
          nq_list = (codes "slow", new_nqueue) ∷ [];
          uid_base = pos 1;
          draws = 0;
          new_packet = false;
        });
        should_stop = true;
        phase = at_end;
      })
unfolding run_on clear_queue erase text_eq report wrap ◌-ℤ◌ ◌+ℤ◌ push offer packet_in accepts read16
    new_npacket
life = then_step (by_wait (pos 400) refl refl) (
    then_step (by_pump (pos 400) [] queues 0 refl nothing_at_400) (
      then_step (by_command (pos 0) (clear (codes "fast"))) (
        then_step (by_push (pos 450) foreign.bytes (foreign.bytes ∷ []) _ refl) (
          then_step (by_report (pos 400) refl)
            (then_step by_stop (then_step (by_exit refl refl) no_step))))))

Steps-IsSorted_example : IsSorted ((codes "slow", new_nqueue) ∷ [])
unfolding text_lt
Steps-IsSorted_example = Steps-IsSorted no_match (λ i. 37 * i) start _ life ((refl, tt), (tt, tt))

-- By the length of the frames.
conserved_example :
    mass length (all_left life) + held_by length ((codes "slow", new_nqueue) ∷ [])
    ≤ mass length (all_came life) + held_by length queues
unfolding text_lt
conserved_example = conserved length life ((refl, tt), (tt, tt))

-- The thread waits and makes its pass, a frame comes, and nothing is told.
calm : (t : System) × (h : Steps no_match (λ i. 37 * i) start t) × (all_told h ≡ [])
unfolding all_told push offer packet_in accepts read16 new_npacket
calm = (
  _,
  then_step (by_wait (pos 400) refl refl) (
      then_step (by_pump (pos 400) [] queues 0 refl nothing_at_400) (
        then_step (by_push (pos 450) foreign.bytes (foreign.bytes ∷ []) _ refl)
          (then_step (by_report (pos 400) refl) no_step))),
  refl,
)

unchanged_untold_example : print_all calm.0.dispatcher.nq_list ≡ print_all queues
unchanged_untold_example = unchanged_untold calm.1 calm.2
