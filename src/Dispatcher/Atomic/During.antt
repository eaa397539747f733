-- ===== src/Dispatcher/Atomic/During.antt =====
-- How far the part of `queue_dispatcher` in src/nqueue.h that holds the lock has come: what is shared,
-- `s`, against what it was when the lock was taken, with what has happened without the lock, `c`.
use virtual_gw.Common.{ℕ, ◌≡◌, refl, sym, ap, Bool, true, false, some, List, ◌++◌, length}
use virtual_gw.Common.Int.{ℤ, pos, leb_ℤ, sub_int}
use mathlib.Core.Path.{subst}
use virtual_gw.Packets.{new_npacket}
use virtual_gw.Dispatcher.{pump, show_stats}
use virtual_gw.Dispatcher.Table.{NqList}
use virtual_gw.Dispatcher.Laws.{AllRefuse}
use virtual_gw.Dispatcher.Thread.{Phase, at_test, at_pump, at_report, System}
use virtual_gw.Dispatcher.Locks.{
  Holder, nobody, pumps, prints, pushes, commands, leaves, is_printing, with_queues, pumped_to,
  made_packet, event_is, next_prev,
}

-- The thread in its loop: the queues before the iterator have been asked.
pub record Pumping (rand : ℕ → ℕ) (c s : System) (time : ℤ) (i : ℕ) (out : List (List ℕ))
    : Type 0 where
  pub before : NqList
  pub behind : NqList
  pub pumped : NqList
  pub used : ℕ
  pub parts : c.dispatcher.nq_list ≡ before ++ behind
  pub count : length before ≡ i
  pub ran : pump rand c.dispatcher.draws before time ≡ some (out, pumped, used)
  pub phase : c.phase ≡ at_pump time
  pub shows : s ≡ pumped_to c (pumped ++ behind) used

-- The thread in its loop that prints.
pub record Printing (c s : System) (time : ℤ) (i : ℕ) : Type 0 where
  pub before : NqList
  pub behind : NqList
  pub parts : c.dispatcher.nq_list ≡ before ++ behind
  pub count : length before ≡ i
  pub phase : c.phase ≡ at_report time
  pub late : leb_ℤ (pos 500) (sub_int time c.prev_time) ≡ true
  pub shows : s ≡ record (with_queues c ((show_stats before time).1 ++ behind)) {
    prev_time = next_prev c.prev_time time;
  }

-- An arrival in its loop: the queues before the iterator have refused it.
pub record Pushing (c s : System) (time : ℤ) (p : List ℕ) (i : ℕ) : Type 0 where
  pub before : NqList
  pub behind : NqList
  pub parts : c.dispatcher.nq_list ≡ before ++ behind
  pub count : length before ≡ i
  pub refused : AllRefuse before (new_npacket c.dispatcher.uid_base time p).1
  pub shows : s ≡ made_packet c time p

abbrev pub During : (ℕ → ℕ) → System → Holder → System → Type 0
During rand c nobody s = s ≡ c
During rand c (pumps time i out) s = Pumping rand c s time i out
During rand c (prints time i) s = Printing c s time i
During rand c (pushes time p i) s = Pushing c s time p i
During rand c (commands garbage cmd) s = s ≡ c
During rand c leaves s = s ≡ c

-- Where the thread stands while it holds the lock.
abbrev pub Stays : Holder → Phase → Type 0
Stays nobody ph = Unit {0}
Stays (pumps time i out) ph = ph ≡ at_pump time
Stays (prints time i) ph = ph ≡ at_report time
Stays (pushes time p i) ph = Unit {0}
Stays (commands garbage c) ph = Unit {0}
Stays leaves ph = Unit {0}

pub During-Stays : (rand : ℕ → ℕ) (c s : System) (h : Holder) → During rand c h s → Stays h c.phase
During-Stays rand c s nobody d = tt
During-Stays rand c s (pumps time i out) d = d.phase
During-Stays rand c s (prints time i) d = d.phase
During-Stays rand c s (pushes time p i) d = tt
During-Stays rand c s (commands garbage cmd) d = tt
During-Stays rand c s leaves d = tt

-- A thread that tests `should_stop` is in neither loop.
pub Stays-test : (h : Holder) (ph ph' : Phase) → Stays h ph → ph ≡ at_test → Stays h ph'
Stays-test nobody ph ph' d e = tt
Stays-test (pumps time i out) ph ph' d e = cc
Stays-test (prints time i) ph ph' d e = cc
Stays-test (pushes time p i) ph ph' d e = tt
Stays-test (commands garbage cmd) ph ph' d e = tt
Stays-test leaves ph ph' d e = tt

pub Stays-report :
    (h : Holder) (ph ph' : Phase) (time : ℤ)
    → Stays h ph
    → is_printing h ≡ false
    → ph ≡ at_report time
    → Stays h ph'
Stays-report nobody ph ph' time d k e = tt
Stays-report (pumps t i out) ph ph' time d k e = cc
Stays-report (prints t i) ph ph' time d k e = cc
Stays-report (pushes t p i) ph ph' time d k e = tt
Stays-report (commands garbage cmd) ph ph' time d k e = tt
Stays-report leaves ph ph' time d k e = tt

-- What nobody changes under the lock.
pub record Same (c s : System) (h : Holder) : Type 0 where
  pub phase : s.phase ≡ c.phase
  pub stop : s.should_stop ≡ c.should_stop
  pub event : s.dispatcher.new_packet ≡ c.dispatcher.new_packet
  pub time : is_printing h ≡ false → s.prev_time ≡ c.prev_time

Same-of : (c s m : System) (h : Holder) → s ≡ m → Same c m h → Same c s h
Same-of c s m h e x = subst (λ z. Same c z h) (sym e) x

pub During-Same : (rand : ℕ → ℕ) (c s : System) (h : Holder) → During rand c h s → Same c s h
During-Same rand c s nobody d =
    Same-of c s c nobody d (record { phase = refl; stop = refl; event = refl; time = λ k. refl })
During-Same rand c s (pumps time i out) d =
    Same-of c s _ (pumps time i out) d.shows
      (record { phase = refl; stop = refl; event = refl; time = λ k. refl })
During-Same rand c s (prints time i) d =
    Same-of c s _ (prints time i) d.shows
      (record { phase = refl; stop = refl; event = refl; time = λ k. cc })
During-Same rand c s (pushes time p i) d =
    Same-of c s _ (pushes time p i) d.shows
      (record { phase = refl; stop = refl; event = refl; time = λ k. refl })
During-Same rand c s (commands garbage cmd) d =
    Same-of c s c (commands garbage cmd) d
      (record { phase = refl; stop = refl; event = refl; time = λ k. refl })
During-Same rand c s leaves d =
    Same-of c s c leaves d (record { phase = refl; stop = refl; event = refl; time = λ k. refl })

-- Writes that need no lock.
abbrev pub poke : Bool → Bool → Phase → System → System
poke event stop ph s = record (event_is s event) { should_stop = stop; phase = ph }

-- They go on beside what holds the lock.
pub During-poke :
    (rand : ℕ → ℕ) (c s : System) (h : Holder) (event stop : Bool) (ph : Phase)
    → During rand c h s
    → Stays h ph
    → During rand (poke event stop ph c) h (poke event stop ph s)
During-poke rand c s nobody event stop ph d k = ap (poke event stop ph) d
During-poke rand c s (pumps time i out) event stop ph d k = record {
  before = d.before;
  behind = d.behind;
  pumped = d.pumped;
  used = d.used;
  parts = d.parts;
  count = d.count;
  ran = d.ran;
  phase = k;
  shows = ap (poke event stop ph) d.shows;
}
During-poke rand c s (prints time i) event stop ph d k = record {
  before = d.before;
  behind = d.behind;
  parts = d.parts;
  count = d.count;
  phase = k;
  late = d.late;
  shows = ap (poke event stop ph) d.shows;
}
During-poke rand c s (pushes time p i) event stop ph d k = record {
  before = d.before;
  behind = d.behind;
  parts = d.parts;
  count = d.count;
  refused = d.refused;
  shows = ap (poke event stop ph) d.shows;
}
During-poke rand c s (commands garbage cmd) event stop ph d k = ap (poke event stop ph) d
During-poke rand c s leaves event stop ph d k = ap (poke event stop ph) d
