-- ===== src/Dispatcher/Order.antt =====
-- The queues stay in the order of their names, whatever the thread, the commands and the arrivals do.
use virtual_gw.Common.{
  ℕ, ◌≡◌, refl, sym, ap, ◌∙◌, inl, inr, Bool, true, Option, none, some, List, [], ◌∷◌, arith,
  Bool-cases, >>=-eq-some,
}
use virtual_gw.Common.Int.{ℤ, pos, leb_ℤ, sub_int}
use mathlib.Core.Path.{subst}
use virtual_gw.Common.Text.{Text, text_eq, text_lt}
use virtual_gw.Dispatcher.{offer, push, show_stats, report, QueueDispatcher}
use virtual_gw.Hl.Params.{Regexp}
use virtual_gw.Packets.{Npacket, new_npacket}
use virtual_gw.Nqueue.{packet_in}
use virtual_gw.Dispatcher.Table.{NqList, Above, IsSorted, erase}
use virtual_gw.Dispatcher.Commands.{set_qsize, clear_queue, set_filter, set_qdisc, push_back_qdisc}
use virtual_gw.Dispatcher.Thread.{
  Command, qsize, clear, filter, qdisc, push_back, run_on, System, Step, Steps, by_command, by_push,
  by_wait, by_pump, by_report, by_stop, by_exit, no_step, then_step,
}
use virtual_gw.Dispatcher.Laws.{keys, pump_one_each, with_queue-IsSorted}

-- Whether names rise, of the names alone.
abbrev AboveAll : Text → List Text → Type 0
AboveAll key [] = Unit {0}
AboveAll key (k ∷ ks) = (text_lt key k ≡ true) × AboveAll key ks

abbrev Rising : List Text → Type 0
Rising [] = Unit {0}
Rising (k ∷ ks) = AboveAll k ks × Rising ks

Above-keys : (key : Text) (m : NqList) → Above key m → AboveAll key (keys m)
unfolding keys
Above-keys key [] a = tt
Above-keys key ((k, n) ∷ m) (a, b) = (a, Above-keys key m b)

keys-Above : (key : Text) (m : NqList) → AboveAll key (keys m) → Above key m
unfolding keys
keys-Above key [] a = tt
keys-Above key ((k, n) ∷ m) (a, b) = (a, keys-Above key m b)

keys-Rising : (m : NqList) → IsSorted m → Rising (keys m)
unfolding keys
keys-Rising [] s = tt
keys-Rising ((k, n) ∷ m) (a, s) = (Above-keys k m a, keys-Rising m s)

Rising-keys : (m : NqList) → Rising (keys m) → IsSorted m
unfolding keys
Rising-keys [] s = tt
Rising-keys ((k, n) ∷ m) (a, s) = (keys-Above k m a, Rising-keys m s)

-- Two tables with the same names.
keys-IsSorted : (m m' : NqList) → keys m' ≡ keys m → IsSorted m → IsSorted m'
keys-IsSorted m m' e s = Rising-keys m' (subst Rising (sym e) (keys-Rising m s))

offer-keys : (m m' : NqList) (p : Npacket) (r : Bool) → offer m p ≡ some (r, m') → keys m' ≡ keys m
unfolding offer keys
offer-keys [] m' p r e = ground arith
offer-keys ((k, n) ∷ m) m' p r e =
    let (out, e1, e2) = >>=-eq-some (packet_in n p) _ e in
    elim (Bool-cases out.0) [
      | inl taken ↦ let e3 = rw taken at e2 in ground arith
      | inr refused ↦
          let (rest, e3, e4) = >>=-eq-some (offer m p) _ (rw refused at e2) in
          ground (arith, offer-keys m rest.1 p rest.0 e3)
    ]

show_stats-keys : (m : NqList) (time : ℤ) → keys (show_stats m time).1 ≡ keys m
unfolding show_stats keys
show_stats-keys [] time = refl
show_stats-keys ((k, n) ∷ m) time = ap (λ ks. k ∷ ks) (show_stats-keys m time)

Above-erase : (k key : Text) (m : NqList) → Above k m → Above k (erase key m)
unfolding erase
Above-erase k key [] a = tt
Above-erase k key ((j, n) ∷ m) (a, b) = elim (Bool-cases (text_eq key j)) [
  | inl e ↦ rw e b
  | inr e ↦ rw e (a, Above-erase k key m b)
]

erase-IsSorted : (key : Text) (m : NqList) → IsSorted m → IsSorted (erase key m)
unfolding erase
erase-IsSorted key [] s = tt
erase-IsSorted key ((k, n) ∷ m) (a, s) = elim (Bool-cases (text_eq key k)) [
  | inl e ↦ rw e s
  | inr e ↦ rw e (Above-erase k key m a, erase-IsSorted key m s)
]

run_on-IsSorted :
    (match : Regexp) (garbage : ℤ) (c : Command) (m : NqList)
    → IsSorted m
    → IsSorted (run_on match garbage c m).1
unfolding run_on set_qsize clear_queue set_filter set_qdisc push_back_qdisc
run_on-IsSorted match garbage (qsize key new_size) m s = with_queue-IsSorted m key _ s
run_on-IsSorted match garbage (clear key) m s = erase-IsSorted key m s
run_on-IsSorted match garbage (filter key opt) m s = with_queue-IsSorted m key _ s
run_on-IsSorted match garbage (qdisc key index name params) m s = with_queue-IsSorted m key _ s
run_on-IsSorted match garbage (push_back key name params) m s = with_queue-IsSorted m key _ s

-- The names that a run of `push` leaves.
abbrev table : NqList → Option (List (List ℕ) × QueueDispatcher) → List Text
table m none = keys m
table m (some r) = keys r.1.nq_list

push-IsSorted :
    (d d' : QueueDispatcher) (time : ℤ) (p : List ℕ) (sent : List (List ℕ))
    → push d time p ≡ some (sent, d')
    → IsSorted d.nq_list
    → IsSorted d'.nq_list
unfolding push
push-IsSorted d d' time p sent e s =
    let (out, e1, e2) = >>=-eq-some (offer d.nq_list (new_npacket d.uid_base time p).1) _ e in
    let same = offer-keys d.nq_list out.1 (new_npacket d.uid_base time p).1 out.0 e1 in
    elim (Bool-cases out.0) [
      | inl b ↦
          let e3 = rw b at e2 in
          keys-IsSorted d.nq_list d'.nq_list (ap (table d.nq_list) (sym e3) ∙ same) s
      | inr b ↦
          let e3 = rw b at e2 in
          keys-IsSorted d.nq_list d'.nq_list (ap (table d.nq_list) (sym e3) ∙ same) s
    ]

keys-report :
    (d : QueueDispatcher) (sent : List (List ℕ)) (prev_time time : ℤ)
    → keys (report d sent prev_time time).after.nq_list ≡ keys d.nq_list
unfolding report
keys-report d sent prev_time time = elim (Bool-cases (leb_ℤ (pos 500) (sub_int time prev_time))) [
  | inl b ↦ rw b (show_stats-keys d.nq_list time)
  | inr b ↦ rw b refl
]

pub Step-IsSorted :
    (match : Regexp) (rand : ℕ → ℕ) (s t : System)
    → Step match rand s t
    → IsSorted s.dispatcher.nq_list
    → IsSorted t.dispatcher.nq_list
Step-IsSorted match rand s _ (by_command garbage c) h =
    run_on-IsSorted match garbage c s.dispatcher.nq_list h
Step-IsSorted match rand s _ (by_push time p sent d e) h =
    push-IsSorted s.dispatcher d time p sent e h
Step-IsSorted match rand s _ (by_wait time go stop) h = h
Step-IsSorted match rand s _ (by_pump time sent m draws go e) h =
    let d = s.dispatcher in
    keys-IsSorted d.nq_list m (pump_one_each rand d.draws draws d.nq_list m time sent e).1 h
Step-IsSorted match rand s _ (by_report time go) h =
    keys-IsSorted s.dispatcher.nq_list _ (keys-report s.dispatcher [] s.prev_time time) h
Step-IsSorted match rand s _ by_stop h = h
Step-IsSorted match rand s _ (by_exit go stop) h = h

-- However commands, arrivals, the steps of the thread and its end follow one another: queues that stand
-- in the order of their names, each name once, go on to do so.
pub Steps-IsSorted :
    (match : Regexp) (rand : ℕ → ℕ) (s t : System)
    → Steps match rand s t
    → IsSorted s.dispatcher.nq_list
    → IsSorted t.dispatcher.nq_list
Steps-IsSorted match rand s _ no_step h = h
Steps-IsSorted match rand _ _ (then_step {s} {t} {u} first rest) h =
    Steps-IsSorted match rand t u rest (Step-IsSorted match rand s t first h)
