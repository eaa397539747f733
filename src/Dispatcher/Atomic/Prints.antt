-- ===== src/Dispatcher/Atomic/Prints.antt =====
-- The loop over the queues that prints, in `main` of `queue_dispatcher` in src/nqueue.h, move by move.
use virtual_gw.Common.{
  ℕ, suc, ◌≡◌, refl, sym, ap, ◌∙◌, true, none, some, [], ◌∷◌, ◌++◌, get_elem?, set,
}
use virtual_gw.Common.Int.{ℤ, pos, leb_ℤ, sub_int}
use mathlib.Core.Path.{subst}
use virtual_gw.Common.Text.{Text}
use mathlib.Core.List.{append-nil}
use virtual_gw.Hl.Params.{Regexp}
use virtual_gw.Packets.{show_stat}
use virtual_gw.Nqueue.{Nqueue}
use virtual_gw.Dispatcher.{show_stats}
use virtual_gw.Dispatcher.Thread.{at_test, at_report, System}
use virtual_gw.Dispatcher.Locks.{nobody, prints, with_queues, next_prev, Shared}
use virtual_gw.Dispatcher.Atomic.History.{Does-report}
use virtual_gw.Dispatcher.Atomic.Loops.{
  behind-some, behind-none, set-behind, one_moved, length-snoc, show_stats_more, length-show_stats,
}
use virtual_gw.Dispatcher.Atomic.Passes.{at_phase, goes_on, commits}
use virtual_gw.Dispatcher.Atomic.Simulation.{Sim}

abbrev with_prev : ℤ → System → System
with_prev time z = record z { prev_time = next_prev z.prev_time time }

module _ (match : Regexp) (rand : ℕ → ℕ) (start : Shared) where
  pub Sim-print_enter :
      (s : Shared) (time : ℤ)
      → s.system.phase ≡ at_report time
      → leb_ℤ (pos 500) (sub_int time s.system.prev_time) ≡ true
      → Sim match rand start s nobody
      → Sim match rand start
          (record s { system = record s.system { prev_time = next_prev s.system.prev_time time } })
          (prints time 0)
  unfolding show_stats
  Sim-print_enter s time ph late x =
      goes_on match rand start s nobody (prints time 0) x
        (record s.system { prev_time = next_prev s.system.prev_time time }) refl refl
        (record {
          before = [];
          behind = x.c.dispatcher.nq_list;
          parts = refl;
          count = refl;
          phase = subst (λ z. z.phase ≡ at_report time) x.during ph;
          late = subst (λ z. leb_ℤ (pos 500) (sub_int time z.prev_time) ≡ true) x.during late;
          shows = ap (with_prev time) x.during;
        })

  pub Sim-print_next :
      (s : Shared) (time : ℤ) (i : ℕ) (k : Text) (n : Nqueue)
      → get_elem? s.system.dispatcher.nq_list i ≡ some (k, n)
      → Sim match rand start s (prints time i)
      → Sim match rand start
          (record s {
            system = with_queues s.system (
                set s.system.dispatcher.nq_list i
                  (k, record n { packets = (show_stat n.packets time).1 }));
          })
          (prints time (suc i))
  Sim-print_next s time i k n e x =
      let d = x.during in
      let shown = (show_stats d.before time).1 in
      let a' = length-show_stats d.before time ∙ d.count in
      let e1 = subst (λ z. get_elem? z.dispatcher.nq_list i ≡ some (k, n)) d.shows e in
      let (b', eb) =
        behind-some shown d.behind (k, n)
          (subst (λ j. get_elem? (shown ++ d.behind) j ≡ some (k, n)) (sym a') e1) in
      let entry : Text × Nqueue = (k, record n { packets = (show_stat n.packets time).1 }) in
      goes_on match rand start s (prints time i) (prints time (suc i)) x
        (with_queues s.system (set s.system.dispatcher.nq_list i entry)) refl refl
        (record {
          before = d.before ++ (k, n) ∷ [];
          behind = b';
          parts = one_moved x.c.dispatcher.nq_list d.before d.behind b' (k, n) d.parts eb;
          count = length-snoc d.before (k, n) i d.count;
          phase = d.phase;
          late = d.late;
          shows =
              ap (λ z. with_queues z (set z.dispatcher.nq_list i entry)) d.shows
              ∙ ap (λ m. with_prev time (with_queues x.c m))
                  (set-behind shown d.behind b' i (k, n) entry a' eb
                    ∙ ap (λ r. r ++ b') (sym (show_stats_more d.before time k n)));
        })

  pub Sim-print_leave :
      (s : Shared) (time : ℤ) (i : ℕ)
      → get_elem? s.system.dispatcher.nq_list i ≡ none
      → Sim match rand start s (prints time i)
      → Sim match rand start (record s { system = record s.system { phase = at_test } }) nobody
  unfolding next_prev
  Sim-print_leave s time i e x =
      let d = x.during in
      let shown = (show_stats d.before time).1 in
      let a' = length-show_stats d.before time ∙ d.count in
      let e1 = subst (λ z. get_elem? z.dispatcher.nq_list i ≡ none) d.shows e in
      let ended =
        behind-none shown d.behind
          (subst (λ j. get_elem? (shown ++ d.behind) j ≡ none) (sym a') e1) in
      let all = d.parts ∙ ap (λ r. d.before ++ r) ended ∙ append-nil d.before in
      commits match rand start s (prints time i) nobody x
        (at_phase at_test
          (with_prev time (with_queues x.c (show_stats x.c.dispatcher.nq_list time).1)))
        (at_phase at_test s.system) [] s.sent refl refl
        (Does-report match rand x.c time d.phase d.late)
        (ap (at_phase at_test) d.shows
          ∙ ap (λ m. at_phase at_test (with_prev time (with_queues x.c m)))
              (ap (λ r. shown ++ r) ended
                ∙ append-nil shown
                ∙ ap (λ m. (show_stats m time).1) (sym all)))
        (sym (append-nil s.sent))
