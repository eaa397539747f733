-- ===== src/Dispatcher/Atomic/Tests.antt =====
-- A run of `queue_dispatcher` in src/nqueue.h in which the threads take turns between the queues.
use virtual_gw.Common.{ℕ, ◌≡◌, refl, true, false, none, some, List, [], ◌∷◌, ◌++◌, replicate}
use virtual_gw.Common.Int.{ℤ, pos, ◌+ℤ◌, wrap}
use virtual_gw.Common.Words.{read16}
use virtual_gw.Common.Text.{codes}
use virtual_gw.Hl.Params.{Regexp}
use virtual_gw.Packets.{new_npacket}
use virtual_gw.Nqueue.{new_nqueue, packet_in, packet_out}
use virtual_gw.Nfilter.{accepts}
use virtual_gw.Dispatcher.Table.{NqList}
use virtual_gw.Dispatcher.Thread.{Steps, at_test, at_report}
use virtual_gw.Dispatcher.Conserve.{all_came, all_left}
use virtual_gw.Dispatcher.Locks.{
  Shared, Run, nobody, begin, next, wait, stop, pump_enter, pump_next, pump_leave, push_enter,
  push_next, push_sent, leave, packet_of,
}
use virtual_gw.Dispatcher.Atomic.Refine.{Run-Steps}

abbrev queues : NqList
queues = (codes "fast", new_nqueue) ∷ (codes "slow", new_nqueue) ∷ []

abbrev no_match : Regexp
no_match pattern text = none

abbrev foreign : List ℕ
foreign = replicate 60 0

abbrev start : Shared
start = record {
  system = record {
    dispatcher = record { nq_list = queues; uid_base = pos 0; draws = 0; new_packet = true };
    prev_time = pos 0;
    should_stop = false;
    phase = at_test;
  };
  sent = [];
  arrived = [];
}

-- The thread asks its two queues, and is told to stop in between; then a frame comes that no queue
-- takes.
abbrev finish : Shared
finish = record {
  system = record {
    dispatcher = record { nq_list = queues; uid_base = pos 1; draws = 0; new_packet = false };
    prev_time = pos 0;
    should_stop = true;
    phase = at_report (pos 400);
  };
  sent = foreign ∷ [];
  arrived = foreign ∷ [];
}

idle : (time : ℤ) → packet_out (λ i. i) 0 new_nqueue time ≡ some (none, new_nqueue, 0)
unfolding packet_out new_nqueue
idle time = refl

turns : Run no_match (λ i. i) start finish nobody
unfolding packet_in accepts read16 packet_of new_npacket wrap ◌+ℤ◌
turns =
    next
      (next
        (next
          (next
            (next
              (next
                (next
                  (next
                    (next (next (next begin (wait (pos 400) refl refl)) (pump_enter (pos 400) refl))
                      (pump_next (pos 400) 0 [] (codes "fast") new_nqueue new_nqueue none 0 refl
                        (idle (pos 400))))
                    stop)
                  (pump_next (pos 400) 1 [] (codes "slow") new_nqueue new_nqueue none 0 refl
                    (idle (pos 400))))
                (pump_leave (pos 400) 2 [] refl))
              (push_enter (pos 500) foreign))
            (push_next (pos 500) foreign 0 (codes "fast") new_nqueue new_nqueue refl refl))
          (push_next (pos 500) foreign 1 (codes "slow") new_nqueue new_nqueue refl refl))
        (push_sent (pos 500) foreign 2 refl))
      leave

Run-Steps_example :
    (history : Steps no_match (λ i. i) start.system finish.system) × (finish.sent
      ≡ start.sent ++ all_left history)
    × (finish.arrived ≡ start.arrived ++ all_came history)
Run-Steps_example = Run-Steps no_match (λ i. i) start finish turns
