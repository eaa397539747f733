-- ===== src/Dispatcher/Steady.antt =====
-- What `print` shows of the queues of src/nqueue.h changes by commands only.
use virtual_gw.Common.{
  ℕ, ◌+◌, ◌≡◌, refl, ◌∙◌, inl, inr, Bool, Option, some, List, [], ◌∷◌, ◌++◌, Bool-cases,
  >>=-eq-some, if-eq-some, some_has,
}
use virtual_gw.Common.Int.{ℤ, pos, leb_ℤ, sub_int}
use virtual_gw.Common.Text.{Text}
use mathlib.Core.List.{append-eq-nil_iff}
use virtual_gw.Hl.Params.{Regexp}
use virtual_gw.Nfilter
use virtual_gw.Packets.{Npacket, PacketsRawQueue, pop, new_npacket}
use virtual_gw.Qdisc.{Qdisc, can_pop}
use virtual_gw.Qdisc.Steady.{describe-can_pop}
use virtual_gw.Nqueue.{Nqueue, packet_in, can_pop_all, packet_out, send_front, after_all}
use virtual_gw.Dispatcher.{QueueDispatcher, offer, push, pump, show_stats, report}
use virtual_gw.Dispatcher.Table.{NqList}
use virtual_gw.Dispatcher.Thread.{
  Command, System, Step, Steps, no_step, then_step, by_push, by_wait, by_pump, by_report, by_stop,
  by_exit, by_command,
}
use virtual_gw.Dispatcher.Printed.{qdisc_lines, print_queue, print_all}

can_pop_all-lines :
    (i : ℕ) (rand : ℕ → ℕ) (used : ℕ) (ds : List Qdisc) (time : ℤ) (q : PacketsRawQueue)
    (r : Bool × List Qdisc × PacketsRawQueue × ℕ)
    → can_pop_all rand used ds time q ≡ some r
    → qdisc_lines i r.1 ≡ qdisc_lines i ds
unfolding can_pop_all qdisc_lines
can_pop_all-lines i rand used [] time q r e = some_has (λ z. qdisc_lines i z.1 ≡ []) e refl
can_pop_all-lines i rand used (d ∷ ds) time q r e =
    let (one, e1, e2) = >>=-eq-some (can_pop rand used d time q) _ e in
    let first = describe-can_pop rand used d time q one e1 in
    elim (Bool-cases one.0) [
      | inl goes_on ↦
          let (rest, e3, e4) =
            >>=-eq-some (can_pop_all rand one.3 ds time one.2) _ (rw goes_on at e2) in
          some_has (λ z. qdisc_lines i z.1 ≡ qdisc_lines i (d ∷ ds)) e4
            (rw (first, can_pop_all-lines (i + 1) rand one.3 ds time one.2 rest e3) refl)
      | inr stops ↦
          some_has (λ z. qdisc_lines i z.1 ≡ qdisc_lines i (d ∷ ds)) (rw stops at e2)
            (rw first refl)
    ]

packet_out-with :
    (rand : ℕ → ℕ) (used : ℕ) (n : Nqueue) (time : ℤ) (ds : List Qdisc)
    (r : Option (List ℕ) × Nqueue × ℕ)
    → n.qdisc_vec ≡ ds
    → packet_out rand used n time ≡ some r
    → print_queue r.1 ≡ print_queue n
unfolding packet_out after_all send_front print_queue
packet_out-with rand used n time [] r h e =
    some_has (λ z. print_queue z.1 ≡ print_queue n) (rw (h, packet_out) at e) refl
packet_out-with rand used n time (d ∷ ds) r h e =
    let (out, e1, e2) =
      >>=-eq-some (can_pop_all rand used (d ∷ ds) time n.packets) (after_all n time)
        (rw (h, packet_out) at e) in
    let lines = can_pop_all-lines 0 rand used (d ∷ ds) time n.packets out e1 in
    elim (if-eq-some out.0 _ _ e2) [
      | inl k ↦
          let (popped, e3, e4) = >>=-eq-some (pop out.2 time) _ k in
          some_has (λ z. print_queue z.1 ≡ print_queue n) e4 (rw (lines, h) refl)
      | inr k ↦ some_has (λ z. print_queue z.1 ≡ print_queue n) k (rw (lines, h) refl)
    ]

packet_in-print_queue :
    (n : Nqueue) (p : Npacket) (r : Bool × Nqueue)
    → packet_in n p ≡ some r
    → print_queue r.1 ≡ print_queue n
unfolding packet_in print_queue
packet_in-print_queue n p r e =
    let (mine, e1, e2) = >>=-eq-some (Nfilter.accepts n.filter p.bytes) _ e in
    elim (Bool-cases mine) [
      | inl b ↦ some_has (λ z. print_queue z.1 ≡ print_queue n) (rw b at e2) refl
      | inr b ↦ some_has (λ z. print_queue z.1 ≡ print_queue n) (rw b at e2) refl
    ]

offer-print_all :
    (m : NqList) (p : Npacket) (r : Bool × NqList)
    → offer m p ≡ some r
    → print_all r.1 ≡ print_all m
unfolding offer print_all
offer-print_all [] p r e = some_has (λ z. print_all z.1 ≡ []) e refl
offer-print_all ((k, n) ∷ m) p r e =
    let (one, e1, e2) = >>=-eq-some (packet_in n p) _ e in
    elim (Bool-cases one.0) [
      | inl taken ↦
          some_has (λ z. print_all z.1 ≡ print_all ((k, n) ∷ m)) (rw taken at e2)
            (rw (packet_in-print_queue n p one e1) refl)
      | inr refused ↦
          let (rest, e3, e4) = >>=-eq-some (offer m p) _ (rw refused at e2) in
          some_has (λ z. print_all z.1 ≡ print_all ((k, n) ∷ m)) e4
            (rw (offer-print_all m p rest e3) refl)
    ]

push-print_all :
    (d : QueueDispatcher) (time : ℤ) (p : List ℕ) (r : List (List ℕ) × QueueDispatcher)
    → push d time p ≡ some r
    → print_all r.1.nq_list ≡ print_all d.nq_list
unfolding push
push-print_all d time p r e =
    let made = new_npacket d.uid_base time p in
    let (out, e1, e2) = >>=-eq-some (offer d.nq_list made.1) _ e in
    let same = offer-print_all d.nq_list made.1 out e1 in
    elim (Bool-cases out.0) [
      | inl b ↦ some_has (λ z. print_all z.1.nq_list ≡ print_all d.nq_list) (rw b at e2) same
      | inr b ↦ some_has (λ z. print_all z.1.nq_list ≡ print_all d.nq_list) (rw b at e2) same
    ]

pump-print_all :
    (rand : ℕ → ℕ) (used : ℕ) (m : NqList) (time : ℤ) (r : List (List ℕ) × NqList × ℕ)
    → pump rand used m time ≡ some r
    → print_all r.1 ≡ print_all m
unfolding pump print_all
pump-print_all rand used [] time r e = some_has (λ z. print_all z.1 ≡ []) e refl
pump-print_all rand used ((k, n) ∷ m) time r e =
    let (out, e1, e2) = >>=-eq-some (packet_out rand used n time) _ e in
    let (rest, e3, e4) = >>=-eq-some (pump rand out.2 m time) _ e2 in
    some_has (λ z. print_all z.1 ≡ print_all ((k, n) ∷ m)) e4
      (rw
        (
          packet_out-with rand used n time n.qdisc_vec out refl e1,
          pump-print_all rand out.2 m time rest e3,
        )
        refl)

show_stats-print_all : (m : NqList) (time : ℤ) → print_all (show_stats m time).1 ≡ print_all m
unfolding show_stats print_all print_queue
show_stats-print_all [] time = refl
show_stats-print_all ((k, n) ∷ m) time = rw (show_stats-print_all m time) refl

report-print_all :
    (d : QueueDispatcher) (sent : List (List ℕ)) (prev_time time : ℤ)
    → print_all (report d sent prev_time time).after.nq_list ≡ print_all d.nq_list
unfolding report
report-print_all d sent prev_time time =
    elim (Bool-cases (leb_ℤ (pos 500) (sub_int time prev_time))) [
      | inl b ↦ rw b (show_stats-print_all d.nq_list time)
      | inr b ↦ rw b refl
    ]

module _ {match : Regexp} {rand : ℕ → ℕ} where
  -- The command of a step, and those of a history.
  abbrev told : {s t : System} → Step match rand s t → List Command
  told (by_command garbage c) = c ∷ []
  told (by_push time p sent d e) = []
  told (by_wait time go stop) = []
  told (by_pump time sent m draws go e) = []
  told (by_report time go) = []
  told by_stop = []
  told (by_exit go stop) = []

  unfoldable pub all_told : {s t : System} → Steps match rand s t → List Command
  all_told no_step = []
  all_told (then_step first rest) = told first ++ all_told rest

-- What `print` shows.
abbrev shown : System → Text
shown s = print_all s.dispatcher.nq_list

Step-shown :
    {match : Regexp} {rand : ℕ → ℕ} {s t : System} (a : Step match rand s t)
    → told a ≡ []
    → shown t ≡ shown s
Step-shown (by_command garbage c) h = cc
Step-shown {s = s} (by_push time p sent d e) h = push-print_all s.dispatcher time p (sent, d) e
Step-shown (by_wait time go stop) h = refl
Step-shown {rand = rand} {s = s} (by_pump time sent m draws go e) h =
    pump-print_all rand s.dispatcher.draws s.dispatcher.nq_list time (sent, m, draws) e
Step-shown {s = s} (by_report time go) h = report-print_all s.dispatcher [] s.prev_time time
Step-shown by_stop h = refl
Step-shown (by_exit go stop) h = refl

-- However arrivals and the steps of the thread follow one another: as long as no command comes, what
-- `print` shows of the queues, their filters and their disciplines, is the same.
pub unchanged_untold :
    {match : Regexp} {rand : ℕ → ℕ} {s t : System} (history : Steps match rand s t)
    → all_told history ≡ []
    → print_all t.dispatcher.nq_list ≡ print_all s.dispatcher.nq_list
unfolding all_told
unchanged_untold no_step h = refl
unchanged_untold (then_step first rest) h =
    let (now, later) = append-eq-nil_iff.0 h in unchanged_untold rest later ∙ Step-shown first now
