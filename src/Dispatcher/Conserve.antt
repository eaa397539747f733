-- ===== src/Dispatcher/Conserve.antt =====
-- What goes through `queue_dispatcher` of src/nqueue.h, over any interleaving: the frames that come,
-- those that are sent, and those that wait.
use virtual_gw.Common.{
  ℕ, ◌+◌, ◌≤◌, ◌≡◌, refl, inl, inr, some, List, [], ◌∷◌, ◌++◌, arith, leb, Bool-cases, >>=-eq-some,
  length, set,
}
use virtual_gw.Common.Int.{ℤ, pos, leb_ℤ, bits32, sub_int}
use virtual_gw.Common.Text.{Text, atoi}
use virtual_gw.Dispatcher.{report, offer, push, QueueDispatcher}
use virtual_gw.Common.Result.{Result, ok, bind, thrown}
use virtual_gw.Hl.Params.{Regexp}
use virtual_gw.Packets.{new_npacket, set_queue_size}
use virtual_gw.Packets.Mass.{mass, mass-append}
use virtual_gw.Nqueue.{Nqueue}
use virtual_gw.Nqueue
use virtual_gw.Nqueue.Mass.{held}
use virtual_gw.Nfilter.{set_options}
use virtual_gw.Qdisc.{create_qdisc}
use virtual_gw.Dispatcher.Table.{NqList, IsSorted}
use virtual_gw.Dispatcher.Commands.{set_qsize, clear_queue, set_filter, set_qdisc, push_back_qdisc}
use virtual_gw.Dispatcher.Mass.{
  held_by, held_by-offer, held_by-pump, held_by-show_stats, held_by-erase, held_by-with_queue,
}
use virtual_gw.Dispatcher.Thread.{
  Command, qsize, clear, filter, qdisc, push_back, run_on, System, Step, Steps, by_command, by_push,
  by_wait, by_pump, by_report, by_stop, by_exit, no_step, then_step,
}
use virtual_gw.Dispatcher.Order.{Step-IsSorted}

module _ {match : Regexp} {rand : ℕ → ℕ} where
  -- The frames that a step brings, and those that it sends.
  abbrev pub came : {s t : System} → Step match rand s t → List (List ℕ)
  came (by_command garbage c) = []
  came (by_push time p sent d e) = p ∷ []
  came (by_wait time go stop) = []
  came (by_pump time sent m draws go e) = []
  came (by_report time go) = []
  came by_stop = []
  came (by_exit go stop) = []

  abbrev pub left : {s t : System} → Step match rand s t → List (List ℕ)
  left (by_command garbage c) = []
  left (by_push time p sent d e) = sent
  left (by_wait time go stop) = []
  left (by_pump time sent m draws go e) = sent
  left (by_report time go) = []
  left by_stop = []
  left (by_exit go stop) = []

  -- The same of a history, in order.
  unfoldable pub all_came : {s t : System} → Steps match rand s t → List (List ℕ)
  all_came no_step = []
  all_came (then_step first rest) = came first ++ all_came rest

  unfoldable pub all_left : {s t : System} → Steps match rand s t → List (List ℕ)
  all_left no_step = []
  all_left (then_step first rest) = left first ++ all_left rest

module _ (w : List ℕ → ℕ) where
  -- What `bind` gives keeps the packets where all that it can give does.
  bind_keeps {ℓ} :
      {A : Type ℓ} (r : Result A) (f : A → Nqueue) (n n' : Nqueue)
      → ((a : A) → held w (f a) ≡ held w n)
      → bind r (λ a. ok (f a)) ≡ ok n'
      → held w n' ≡ held w n
  bind_keeps (ok a) f n n' h e = ground (arith, h a)
  bind_keeps (thrown x) f n n' h e = absurd (ground arith)

  set_qdisc_keeps :
      (match : Regexp) (garbage : ℤ) (index name params : Text) (n n' : Nqueue)
      → Nqueue.set_qdisc match garbage n index name params ≡ ok n'
      → held w n' ≡ held w n
  unfolding Nqueue.set_qdisc
  set_qdisc_keeps match garbage index name params n n' e =
      elim (Bool-cases (leb (length n.qdisc_vec) (bits32 (atoi index)))) [
        | inl out_of_range ↦ absurd (ground arith)
        | inr there ↦
            bind_keeps (create_qdisc match garbage name params)
              (λ d. record n { qdisc_vec = set n.qdisc_vec (bits32 (atoi index)) d }) n n'
              (λ d. refl) (rw (there, Nqueue.set_qdisc) at e)
      ]

  push_back_keeps :
      (match : Regexp) (garbage : ℤ) (name params : Text) (n n' : Nqueue)
      → Nqueue.push_back_qdisc match garbage n name params ≡ ok n'
      → held w n' ≡ held w n
  unfolding Nqueue.push_back_qdisc
  push_back_keeps match garbage name params n n' e =
      bind_keeps (create_qdisc match garbage name params)
        (λ d. record n { qdisc_vec = n.qdisc_vec ++ d ∷ [] }) n n' (λ d. refl) e

  qsize_keeps :
      (new_size : ℕ) (n n' : Nqueue)
      → ok (Nqueue.set_qsize n new_size) ≡ ok n'
      → held w n' ≡ held w n
  unfolding Nqueue.set_qsize set_queue_size
  qsize_keeps new_size n n' e = ground arith

  run_on_adds_none :
      (match : Regexp) (garbage : ℤ) (c : Command) (m : NqList)
      → IsSorted m
      → held_by w (run_on match garbage c m).1 ≤ held_by w m
  unfolding run_on set_qsize clear_queue set_filter set_qdisc push_back_qdisc
  run_on_adds_none match garbage (qsize key new_size) m s = omega (
    arith,
    held_by-with_queue w m key (λ n. ok (Nqueue.set_qsize n new_size))
        (λ n n' e. qsize_keeps new_size n n' e) s,
  )
  run_on_adds_none match garbage (clear key) m s = held_by-erase w key m
  run_on_adds_none match garbage (filter key opt) m s = omega (
    arith,
    held_by-with_queue w m key (λ n. bind (set_options match opt) λ f. ok (record n { filter = f }))
        (λ n n' e.
          bind_keeps (set_options match opt) (λ f. record n { filter = f }) n n' (λ f. refl) e)
        s,
  )
  run_on_adds_none match garbage (qdisc key index name params) m s =
      omega
        (arith, held_by-with_queue w m key _ (set_qdisc_keeps match garbage index name params) s)
  run_on_adds_none match garbage (push_back key name params) m s =
      omega (arith, held_by-with_queue w m key _ (push_back_keeps match garbage name params) s)

  push_balance :
      (d d' : QueueDispatcher) (time : ℤ) (p : List ℕ) (sent : List (List ℕ))
      → push d time p ≡ some (sent, d')
      → mass w sent + held_by w d'.nq_list ≤ held_by w d.nq_list + w p
  unfolding push new_npacket
  push_balance d d' time p sent e =
      let made = new_npacket d.uid_base time p in
      let (out, e1, e2) = >>=-eq-some (offer d.nq_list made.1) _ e in
      let waits = held_by-offer w d.nq_list out.1 made.1 out.0 e1 in
      elim (Bool-cases out.0) [ inl taken ↦ ground arith | inr refused ↦ ground arith ]

  report_balance :
      (d : QueueDispatcher) (sent : List (List ℕ)) (prev_time time : ℤ)
      → held_by w (report d sent prev_time time).after.nq_list ≡ held_by w d.nq_list
  unfolding report
  report_balance d sent prev_time time =
      elim (Bool-cases (leb_ℤ (pos 500) (sub_int time prev_time))) [
        | inl b ↦ rw b (held_by-show_stats w d.nq_list time)
        | inr b ↦ rw b refl
      ]

  pub Step-balance :
      {match : Regexp} {rand : ℕ → ℕ} {s t : System} (a : Step match rand s t)
      → IsSorted s.dispatcher.nq_list
      → mass w (left a) + held_by w t.dispatcher.nq_list
        ≤ mass w (came a) + held_by w s.dispatcher.nq_list
  Step-balance {match} {s = s} (by_command garbage c) h =
      omega (arith, run_on_adds_none match garbage c s.dispatcher.nq_list h)
  Step-balance {s = s} (by_push time p sent d e) h =
      omega (arith, push_balance s.dispatcher d time p sent e)
  Step-balance (by_wait time go stop) h = omega arith
  Step-balance {rand = rand} {s = s} (by_pump time sent m draws go e) h =
      omega (arith, held_by-pump w rand s.dispatcher.draws draws s.dispatcher.nq_list m time sent e)
  Step-balance {s = s} (by_report time go) h =
      omega (arith, report_balance s.dispatcher [] s.prev_time time)
  Step-balance by_stop h = omega arith
  Step-balance (by_exit go stop) h = omega arith

  -- However commands, arrivals and the steps of the thread follow one another, from queues in the
  -- order of their names: by any measure of a frame, what is sent and what waits at the end is no
  -- more than what came and what waited at first. Where the measure is 1 for one frame and 0 for all
  -- others, that frame is sent at most as often as it came and waited: none is made up or sent twice.
  pub conserved :
      {match : Regexp} {rand : ℕ → ℕ} {s t : System} (history : Steps match rand s t)
      → IsSorted s.dispatcher.nq_list
      → mass w (all_left history) + held_by w t.dispatcher.nq_list
        ≤ mass w (all_came history) + held_by w s.dispatcher.nq_list
  unfolding all_left all_came
  conserved no_step h = omega arith
  conserved {match} {rand} (then_step {s} {t} first rest) h = omega (
    arith,
    Step-balance first h,
    conserved rest (Step-IsSorted match rand s t first h),
    mass-append w (left first) (all_left rest),
    mass-append w (came first) (all_came rest),
  )
