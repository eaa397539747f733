-- ===== src/Dispatcher/Locks.antt =====
-- `queue_dispatcher` of src/nqueue.h between taking `lock` and giving it back: the loops over the
-- queues go on queue by queue, and what needs no lock may happen at any point of them. A critical
-- section of Windows has one owner at a time (`lock` of src/hl/concurrency.h).
use virtual_gw.Common.{
  ℕ, suc, ◌≡◌, Bool, true, false, Option, none, some, List, [], ◌∷◌, ◌++◌, get_elem?, set,
}
use virtual_gw.Common.Int.{ℤ, pos, leb_ℤ, sub_int}
use virtual_gw.Common.Text.{Text}
use virtual_gw.Hl.Params.{Regexp}
use virtual_gw.Packets.{Npacket, new_npacket, show_stat}
use virtual_gw.Nqueue.{Nqueue, packet_in, packet_out}
use virtual_gw.Nqueue.Mass.{gone}
use virtual_gw.Dispatcher.Table.{NqList}
use virtual_gw.Dispatcher.Thread.{Command, run_on, at_test, at_pump, at_report, at_end, System}

-- Who holds the lock, and how far it has come: the thread in its loop over the queues at `time`, with
-- the number of queues behind it and the frames sent in this pass; in its loop that prints; another
-- thread in `push` of the bytes, with the packet made of them and the number of queues behind it, or
-- in a command; or a thread that has only to give the lock back.
pub data Holder : Type 0 where
  nobody : Holder
  pumps : (time : ℤ) (i : ℕ) (sent : List (List ℕ)) → Holder
  prints : (time : ℤ) (i : ℕ) → Holder
  pushes : (time : ℤ) (bytes : List ℕ) (i : ℕ) → Holder
  commands : (garbage : ℤ) (c : Command) → Holder
  leaves : Holder

-- Whether the thread is in its loop that prints.
abbrev pub is_printing : Holder → Bool
is_printing nobody = false
is_printing (pumps time i sent) = false
is_printing (prints time i) = true
is_printing (pushes time bytes i) = false
is_printing (commands garbage c) = false
is_printing leaves = false

-- What the threads share, the frames that have been sent so far, and those that have come.
pub record Shared : Type 0 where
  pub system : System
  pub sent : List (List ℕ)
  pub arrived : List (List ℕ)

-- Writes to what is shared.
abbrev pub with_queues : System → NqList → System
with_queues s m = record s { dispatcher = record s.dispatcher { nq_list = m } }

abbrev pub pumped_to : System → NqList → ℕ → System
pumped_to s m used = record s { dispatcher = record s.dispatcher { nq_list = m; draws = used } }

abbrev pub made_packet : System → ℤ → List ℕ → System
made_packet s time p = record s {
  dispatcher = record s.dispatcher { uid_base = (new_npacket s.dispatcher.uid_base time p).0 };
}

abbrev pub event_is : System → Bool → System
event_is s b = record s { dispatcher = record s.dispatcher { new_packet = b } }

-- The packet that `push` has made, of which the counter `uid_base` tells the number.
unfoldable pub packet_of : System → ℤ → List ℕ → Npacket
packet_of s time p = record { uid = s.dispatcher.uid_base; in_time = time; bytes = p }

-- `prev_time = time - (time - prev_time - 500)`
unfoldable pub next_prev : ℤ → ℤ → ℤ
next_prev prev_time time = sub_int time (sub_int (sub_int time prev_time) (pos 500))

pub data Move (match : Regexp) (rand : ℕ → ℕ) (s : Shared) : Holder → Shared → Holder → Type 0 where
  -- Without the lock.
  wait :
      {h : Holder} (time : ℤ)
      → s.system.phase ≡ at_test
      → s.system.should_stop ≡ false
      → Move match rand s h
          (record s { system = record (event_is s.system false) { phase = at_pump time } })
          h
  stop :
      {h : Holder}
      → Move match rand s h (record s { system = record s.system { should_stop = true } }) h
  exit :
      {h : Holder}
      → s.system.phase ≡ at_test
      → s.system.should_stop ≡ true
      → Move match rand s h (record s { system = record s.system { phase = at_end } }) h
  skip :
      {h : Holder} (time : ℤ)
      → is_printing h ≡ false
      → s.system.phase ≡ at_report time
      → leb_ℤ (pos 500) (sub_int time s.system.prev_time) ≡ false
      → Move match rand s h (record s { system = record s.system { phase = at_test } }) h
  -- The thread's loop over the queues.
  pump_enter :
      (time : ℤ) → s.system.phase ≡ at_pump time → Move match rand s nobody s (pumps time 0 [])
  pump_next :
      (time : ℤ) (i : ℕ) (out : List (List ℕ)) (k : Text) (n n' : Nqueue) (o : Option (List ℕ))
      (used : ℕ)
      → get_elem? s.system.dispatcher.nq_list i ≡ some (k, n)
      → packet_out rand s.system.dispatcher.draws n time ≡ some (o, n', used)
      → Move match rand s
          (pumps time i out)
          (record s {
            system = pumped_to s.system (set s.system.dispatcher.nq_list i (k, n')) used;
            sent = s.sent ++ gone o;
          })
          (pumps time (suc i) (out ++ gone o))
  pump_leave :
      (time : ℤ) (i : ℕ) (out : List (List ℕ))
      → get_elem? s.system.dispatcher.nq_list i ≡ none
      → Move match rand s
          (pumps time i out)
          (record s { system = record s.system { phase = at_report time } })
          nobody
  -- Its loop that prints.
  print_enter :
      (time : ℤ)
      → s.system.phase ≡ at_report time
      → leb_ℤ (pos 500) (sub_int time s.system.prev_time) ≡ true
      → Move match rand s nobody
          (record s { system = record s.system { prev_time = next_prev s.system.prev_time time } })
          (prints time 0)
  print_next :
      (time : ℤ) (i : ℕ) (k : Text) (n : Nqueue)
      → get_elem? s.system.dispatcher.nq_list i ≡ some (k, n)
      → Move match rand s
          (prints time i)
          (record s {
            system = with_queues s.system (
                set s.system.dispatcher.nq_list i
                  (k, record n { packets = (show_stat n.packets time).1 }));
          })
          (prints time (suc i))
  print_leave :
      (time : ℤ) (i : ℕ)
      → get_elem? s.system.dispatcher.nq_list i ≡ none
      → Move match rand s
          (prints time i)
          (record s { system = record s.system { phase = at_test } })
          nobody
  -- `push`.
  push_enter :
      (time : ℤ) (p : List ℕ)
      → Move match rand s nobody
          (record s { system = made_packet s.system time p; arrived = s.arrived ++ p ∷ [] })
          (pushes time p 0)
  push_next :
      (time : ℤ) (p : List ℕ) (i : ℕ) (k : Text) (n n' : Nqueue)
      → get_elem? s.system.dispatcher.nq_list i ≡ some (k, n)
      → packet_in n (packet_of s.system time p) ≡ some (false, n')
      → Move match rand s
          (pushes time p i)
          (record s { system = with_queues s.system (set s.system.dispatcher.nq_list i (k, n')) })
          (pushes time p (suc i))
  push_taken :
      (time : ℤ) (p : List ℕ) (i : ℕ) (k : Text) (n n' : Nqueue)
      → get_elem? s.system.dispatcher.nq_list i ≡ some (k, n)
      → packet_in n (packet_of s.system time p) ≡ some (true, n')
      → Move match rand s
          (pushes time p i)
          (record s {
            system =
                event_is (with_queues s.system (set s.system.dispatcher.nq_list i (k, n'))) true;
          })
          leaves
  push_sent :
      (time : ℤ) (p : List ℕ) (i : ℕ)
      → get_elem? s.system.dispatcher.nq_list i ≡ none
      → Move match rand s (pushes time p i) (record s { sent = s.sent ++ p ∷ [] }) leaves
  -- A command.
  command_enter : (garbage : ℤ) (c : Command) → Move match rand s nobody s (commands garbage c)
  command_runs :
      (garbage : ℤ) (c : Command)
      → Move match rand s
          (commands garbage c)
          (record s {
            system = with_queues s.system (run_on match garbage c s.system.dispatcher.nq_list).1;
          })
          leaves
  leave : Move match rand s leaves s nobody

-- The moves since a moment at which nobody held the lock.
pub data Run (match : Regexp) (rand : ℕ → ℕ) (start : Shared) : Shared → Holder → Type 0 where
  begin : Run match rand start start nobody
  next :
      {s t : Shared} {h h' : Holder}
      → Run match rand start s h
      → Move match rand s h t h'
      → Run match rand start t h'
