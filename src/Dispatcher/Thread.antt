-- ===== src/Dispatcher/Thread.antt =====
-- The life of `queue_dispatcher` of src/nqueue.h: its thread, and what goes on beside it. Each
-- part of an operation between taking the lock and giving it back is one step, so a history of the
-- steps is an interleaving.
use virtual_gw.Common.{ℕ, ◌≡◌, Bool, true, false, some, List, []}
use virtual_gw.Common.Int.{ℤ}
use virtual_gw.Common.Text.{Text}
use virtual_gw.Hl.Params.{Regexp}
use virtual_gw.Dispatcher.{QueueDispatcher, push, pump, report}
use virtual_gw.Dispatcher.Table.{NqList}
use virtual_gw.Dispatcher.Commands.{
  Outcome, set_qsize, clear_queue, set_filter, set_qdisc, push_back_qdisc,
}

-- The commands, as values.
pub data Command : Type 0 where
  qsize : Text → ℕ → Command
  clear : Text → Command
  filter : Text → Text → Command
  qdisc : Text → Text → Text → Text → Command
  push_back : Text → Text → Text → Command

unfoldable pub run_on : Regexp → ℤ → Command → NqList → Outcome
run_on match garbage (qsize key new_size) m = set_qsize m key new_size
run_on match garbage (clear key) m = clear_queue m key
run_on match garbage (filter key opt) m = set_filter match m key opt
run_on match garbage (qdisc key index name params) m =
    set_qdisc match garbage m key index name params
run_on match garbage (push_back key name params) m = push_back_qdisc match garbage m key name params

-- Where the thread stands in `main`: at the test of `should_stop`, before the lock for the packets
-- of this time, before the test of 500 milliseconds at this time, or at its end.
pub data Phase : Type 0 where
  at_test : Phase
  at_pump : ℤ → Phase
  at_report : ℤ → Phase
  at_end : Phase

-- The dispatcher with its thread: `prev_time` of `main`, and the event `should_stop`.
pub record System : Type 0 where
  pub dispatcher : QueueDispatcher
  pub prev_time : ℤ
  pub should_stop : Bool
  pub phase : Phase

-- A step: a command, an arrival, the thread's wait for a packet, its two blocks under the lock,
-- `stop_join`'s `should_stop.Set()`, and the end of the thread, which `stop_join` waits for.
pub data Step (match : Regexp) (rand : ℕ → ℕ) (s : System) : System → Type 0 where
  by_command :
      (garbage : ℤ) (c : Command)
      → Step match rand s (record s {
        dispatcher = record s.dispatcher {
          nq_list = (run_on match garbage c s.dispatcher.nq_list).1;
        };
      })
  by_push :
      (time : ℤ) (p : List ℕ) (sent : List (List ℕ)) (d : QueueDispatcher)
      → push s.dispatcher time p ≡ some (sent, d)
      → Step match rand s (record s { dispatcher = d })
  by_wait :
      (time : ℤ)
      → s.phase ≡ at_test
      → s.should_stop ≡ false
      → Step match rand s (record s {
        dispatcher = record s.dispatcher { new_packet = false };
        phase = at_pump time;
      })
  by_pump :
      (time : ℤ) (sent : List (List ℕ)) (m : NqList) (draws : ℕ)
      → s.phase ≡ at_pump time
      → pump rand s.dispatcher.draws s.dispatcher.nq_list time ≡ some (sent, m, draws)
      → Step match rand s (record s {
        dispatcher = record s.dispatcher { nq_list = m; draws = draws };
        phase = at_report time;
      })
  by_report :
      (time : ℤ)
      → s.phase ≡ at_report time
      → Step match rand s (record s {
        dispatcher = (report s.dispatcher [] s.prev_time time).after;
        prev_time = (report s.dispatcher [] s.prev_time time).prev_time;
        phase = at_test;
      })
  by_stop : Step match rand s (record s { should_stop = true })
  by_exit :
      s.phase ≡ at_test → s.should_stop ≡ true → Step match rand s (record s { phase = at_end })

-- One step after another.
pub data Steps (match : Regexp) (rand : ℕ → ℕ) : System → System → Type 0 where
  no_step : {s : System} → Steps match rand s s
  then_step : {s t u : System} → Step match rand s t → Steps match rand t u → Steps match rand s u
