-- ===== src/Dispatcher.antt =====
-- `queue_dispatcher` of src/nqueue.h: the queues by name, the commands on them, arrivals, and the
-- thread that sends. Each operation runs under the lock, so it is a step from state to state. The
-- clock's readings are arguments; what `print` shows stands in Dispatcher/Printed.
pub mod Table
pub mod Commands
pub mod Laws
pub mod Thread
pub mod Order
pub mod Mass
pub mod Conserve
pub mod Locks
pub mod Atomic
pub mod Printed
pub mod Steady
mod Tests
use virtual_gw.Common.{
  ℕ, Bool, true, false, Option, none, some, List, [], ◌∷◌, if◌then◌else◌, ◌>>=◌,
}
use virtual_gw.Common.Int.{ℤ, pos, leb_ℤ, sub_int}
use virtual_gw.Common.Text.{Text}
use virtual_gw.Packets.{Npacket, new_npacket, Report, show_stat}
use virtual_gw.Nqueue.{packet_in, packet_out}
use Table.{NqList}

-- `nq_list`, the static `npacket::uid_base`, the draws of `rand` used, the event `new_packet`.
pub record QueueDispatcher : Type 0 where
  pub nq_list : NqList
  pub uid_base : ℤ
  pub draws : ℕ
  pub new_packet : Bool

-- The loop of `push`: the packet goes to the first queue that takes it.
unfoldable pub offer : NqList → Npacket → Option (Bool × NqList)
offer [] p = some (false, [])
offer ((k, n) ∷ m) p = do
  r ← packet_in n p
  elim r.0 [
    | true ↦ some (true, (k, r.1) ∷ m)
    | false ↦ (do rest ← offer m p; some (rest.0, (k, n) ∷ rest.1))
  ]

-- `push`, at time `time`; a packet that no queue takes is sent at once.
unfoldable pub push : QueueDispatcher → ℤ → List ℕ → Option (List (List ℕ) × QueueDispatcher)
push d time p = do
  let made = new_npacket d.uid_base time p
  r ← offer d.nq_list made.1
  let d' = record d { nq_list = r.1; uid_base = made.0 }
  some (if r.0 then ([], record d' { new_packet = true }) else (p ∷ [], d'))

-- One pass over the queues in `main`: every queue may send one packet.
unfoldable pub pump : (ℕ → ℕ) → ℕ → NqList → ℤ → Option (List (List ℕ) × NqList × ℕ)
pump rand used [] time = some ([], [], used)
pump rand used ((k, n) ∷ m) time = do
  out ← packet_out rand used n time
  rest ← pump rand out.2 m time
  some (elim out.0 [ none ↦ rest.0 | some bytes ↦ bytes ∷ rest.0 ], (k, out.1) ∷ rest.1, rest.2)

-- The statistics of all queues, printed every half second.
unfoldable pub show_stats : NqList → ℤ → List (Text × Report) × NqList
show_stats [] time = ([], [])
show_stats ((k, n) ∷ m) time =
    let shown = show_stat n.packets time in
    let rest = show_stats m time in
    ((k, shown.0) ∷ rest.0, (k, record n { packets = shown.1 }) ∷ rest.1)

-- What a round of `main` does: the frames sent, the statistics shown, the new `prev_time`, the state.
pub record Round : Type 0 where
  pub sent : List (List ℕ)
  pub shown : List (Text × Report)
  pub prev_time : ℤ
  pub after : QueueDispatcher

-- The end of a round: `if (time - prev_time >= 500)`.
unfoldable pub report : QueueDispatcher → List (List ℕ) → ℤ → ℤ → Round
report d sent prev_time time =
    let late = sub_int time prev_time in
    if leb_ℤ (pos 500) late
    then (let s = show_stats d.nq_list time in
        record {
          sent = sent;
          shown = s.0;
          prev_time = sub_int time (sub_int late (pos 500));
          after = record d { nq_list = s.1 };
        })
    else record { sent = sent; shown = []; prev_time = prev_time; after = d }

-- A round of the loop in `main`, at time `time`. The wait takes the event `new_packet`. The inner
-- `for` runs once: its last expression clears `one_more_time`, whatever the queues have said.
unfoldable pub round : (ℕ → ℕ) → QueueDispatcher → ℤ → ℤ → Option Round
round rand d prev_time time = do
  r ← pump rand d.draws d.nq_list time
  some (report (record d { nq_list = r.1; draws = r.2; new_packet = false }) r.0 prev_time time)
