-- ===== src/Dispatcher/Atomic/History.antt =====
-- Histories of `queue_dispatcher` of src/nqueue.h, with the frames that came and those that were sent.
use virtual_gw.Common.{ℕ, ◌≡◌, refl, sym, ap, ◌∙◌, true, false, List, [], ◌++◌}
use virtual_gw.Common.Int.{ℤ, pos, leb_ℤ, sub_int}
use mathlib.Core.Path.{subst}
use virtual_gw.Hl.Params.{Regexp}
use mathlib.Core.List.{append_assoc, append-nil}
use virtual_gw.Dispatcher.{QueueDispatcher, report, show_stats}
use virtual_gw.Dispatcher.Thread.{
  at_test, at_report, System, Step, Steps, by_report, no_step, then_step,
}
use virtual_gw.Dispatcher.Conserve.{came, left, all_came, all_left}

report_early :
    (d : QueueDispatcher) (prev_time time : ℤ)
    → leb_ℤ (pos 500) (sub_int time prev_time) ≡ false
    → report d [] prev_time time
      ≡ record { sent = []; shown = []; prev_time = prev_time; after = d }
unfolding report
report_early d prev_time time b = rw b refl

report_late :
    (d : QueueDispatcher) (prev_time time : ℤ)
    → leb_ℤ (pos 500) (sub_int time prev_time) ≡ true
    → report d [] prev_time time ≡ record {
      sent = [];
      shown = (show_stats d.nq_list time).0;
      prev_time = sub_int time (sub_int (sub_int time prev_time) (pos 500));
      after = record d { nq_list = (show_stats d.nq_list time).1 };
    }
unfolding report
report_late d prev_time time b = rw b refl

module _ (match : Regexp) (rand : ℕ → ℕ) where
  -- A step that sends `out` and brings `got`.
  abbrev pub Does : System → System → List (List ℕ) → List (List ℕ) → Type 0
  Does s t out got = (a : Step match rand s t) × (left a ≡ out) × (came a ≡ got)

  abbrev pub Did : System → System → List (List ℕ) → List (List ℕ) → Type 0
  Did s t out got = (h : Steps match rand s t) × (all_left h ≡ out) × (all_came h ≡ got)

  pub Did-nothing : (s : System) → Did s s [] []
  unfolding all_left all_came
  Did-nothing s = (no_step, refl, refl)

  pub Did-one : (s t : System) (out got : List (List ℕ)) → Does s t out got → Did s t out got
  unfolding all_left all_came
  Did-one s t out got (a, e, f) =
      (then_step a no_step, append-nil (left a) ∙ e, append-nil (came a) ∙ f)

  Did-append :
      (s t u : System) (h : Steps match rand s t) (out got : List (List ℕ))
      → Did t u out got
      → Did s u (all_left h ++ out) (all_came h ++ got)
  unfolding all_left all_came
  Did-append s _ u no_step out got d = d
  Did-append s t u (then_step {t = t'} first rest) out got d =
      let (h, e, f) = Did-append t' t u rest out got d in
      (
        then_step first h,
        ap (λ x. left first ++ x) e ∙ sym (append_assoc (left first) (all_left rest) out),
        ap (λ x. came first ++ x) f ∙ sym (append_assoc (came first) (all_came rest) got),
      )

  -- One history behind another.
  pub Did-trans :
      (s t u : System) (out got out' got' : List (List ℕ))
      → Did s t out got
      → Did t u out' got'
      → Did s u (out ++ out') (got ++ got')
  Did-trans s t u out got out' got' (h, e, f) d =
      let (h2, e2, f2) = Did-append s t u h out' got' d in
      (h2, e2 ∙ ap (λ x. x ++ out') e, f2 ∙ ap (λ x. x ++ got') f)

  -- One step more.
  pub Did-more :
      (s t u : System) (out got out' got' : List (List ℕ))
      → Did s t out got
      → Does t u out' got'
      → Did s u (out ++ out') (got ++ got')
  Did-more s t u out got out' got' d a =
      Did-trans s t u out got out' got' d (Did-one t u out' got' a)

  -- The test of 500 milliseconds fails.
  pub Does-skip :
      (s : System) (time : ℤ)
      → s.phase ≡ at_report time
      → leb_ℤ (pos 500) (sub_int time s.prev_time) ≡ false
      → Does s (record s { phase = at_test }) [] []
  Does-skip s time h early =
      subst
        (λ r.
          Does s (record s { dispatcher = r.after; prev_time = r.prev_time; phase = at_test }) []
            [])
        (report_early s.dispatcher s.prev_time time early) (by_report time h, refl, refl)

  -- It holds.
  pub Does-report :
      (s : System) (time : ℤ)
      → s.phase ≡ at_report time
      → leb_ℤ (pos 500) (sub_int time s.prev_time) ≡ true
      → Does s
          (record s {
            dispatcher = record s.dispatcher { nq_list = (show_stats s.dispatcher.nq_list time).1 };
            prev_time = sub_int time (sub_int (sub_int time s.prev_time) (pos 500));
            phase = at_test;
          })
          []
          []
  Does-report s time h late =
      subst
        (λ r.
          Does s (record s { dispatcher = r.after; prev_time = r.prev_time; phase = at_test }) []
            [])
        (report_late s.dispatcher s.prev_time time late) (by_report time h, refl, refl)
