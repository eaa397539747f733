-- ===== src/Dispatcher/Atomic/Refine.antt =====
-- The parts of `queue_dispatcher` in src/nqueue.h that run under its lock are single steps.
use virtual_gw.Common.{ℕ, ◌≡◌, refl, sym, ap, ◌∙◌, [], ◌++◌}
use mathlib.Core.Path.{subst}
use virtual_gw.Hl.Params.{Regexp}
use mathlib.Core.List.{append-nil}
use virtual_gw.Dispatcher.Thread.{Steps}
use virtual_gw.Dispatcher.Conserve.{all_came, all_left}
use virtual_gw.Dispatcher.Locks.{
  Holder, nobody, Shared, Move, wait, stop, exit, skip, pump_enter, pump_next, pump_leave,
  print_enter, print_next, print_leave, push_enter, push_next, push_taken, push_sent, command_enter,
  command_runs, leave, Run, begin, next, commands, leaves,
}
use virtual_gw.Dispatcher.Atomic.History.{Did, Did-nothing}
use virtual_gw.Dispatcher.Atomic.Simulation.{Sim, Sim-wait, Sim-stop, Sim-exit, Sim-skip}
use virtual_gw.Dispatcher.Atomic.Passes.{goes_on, Sim-pump_enter, Sim-pump_next, Sim-pump_leave}
use virtual_gw.Dispatcher.Atomic.Prints.{Sim-print_enter, Sim-print_next, Sim-print_leave}
use virtual_gw.Dispatcher.Atomic.Arrivals.{
  Sim-push_enter, Sim-push_next, Sim-push_taken, Sim-push_sent, Sim-command_runs,
}

module _ (match : Regexp) (rand : ℕ → ℕ) (start : Shared) where
  Move-Sim :
      {s t : Shared} {h h' : Holder}
      → Move match rand s h t h'
      → Sim match rand start s h
      → Sim match rand start t h'
  Move-Sim {s} {h} (wait time ph go) x = Sim-wait match rand start s h time ph go x
  Move-Sim {s} {h} stop x = Sim-stop match rand start s h x
  Move-Sim {s} {h} (exit ph go) x = Sim-exit match rand start s h ph go x
  Move-Sim {s} {h} (skip time k ph early) x = Sim-skip match rand start s h time k ph early x
  Move-Sim {s} (pump_enter time ph) x = Sim-pump_enter match rand start s time ph x
  Move-Sim {s} (pump_next time i out k n n' o used e r) x =
      Sim-pump_next match rand start s time i out k n n' o used e r x
  Move-Sim {s} (pump_leave time i out e) x = Sim-pump_leave match rand start s time i out e x
  Move-Sim {s} (print_enter time ph late) x = Sim-print_enter match rand start s time ph late x
  Move-Sim {s} (print_next time i k n e) x = Sim-print_next match rand start s time i k n e x
  Move-Sim {s} (print_leave time i e) x = Sim-print_leave match rand start s time i e x
  Move-Sim {s} (push_enter time p) x = Sim-push_enter match rand start s time p x
  Move-Sim {s} (push_next time p i k n n' e r) x =
      Sim-push_next match rand start s time p i k n n' e r x
  Move-Sim {s} (push_taken time p i k n n' e r) x =
      Sim-push_taken match rand start s time p i k n n' e r x
  Move-Sim {s} (push_sent time p i e) x = Sim-push_sent match rand start s time p i e x
  Move-Sim {s} (command_enter garbage c) x =
      goes_on match rand start s nobody (commands garbage c) x s.system refl refl x.during
  Move-Sim {s} (command_runs garbage c) x = Sim-command_runs match rand start s garbage c x
  Move-Sim {s} leave x = goes_on match rand start s leaves nobody x s.system refl refl x.during

  Run-Sim : {s : Shared} {h : Holder} → Run match rand start s h → Sim match rand start s h
  Run-Sim begin = record {
    c = start.system;
    out = [];
    got = [];
    did = Did-nothing match rand start.system;
    during = refl;
    sent = sym (append-nil start.sent);
    arrived = sym (append-nil start.arrived);
  }
  Run-Sim (next r m) = Move-Sim m (Run-Sim r)

-- However the threads take turns, queue by queue in their loops, between two moments at which nobody
-- holds the lock: the state, the frames that came and the frames that were sent, in their order, are
-- those of a history of whole steps, each of which is all that is done under the lock at one time.
pub Run-Steps :
    (match : Regexp) (rand : ℕ → ℕ) (start end : Shared)
    → Run match rand start end nobody
    → (history : Steps match rand start.system end.system) × (end.sent
        ≡ start.sent ++ all_left history)
      × (end.arrived ≡ start.arrived ++ all_came history)
Run-Steps match rand start end r =
    let x = Run-Sim match rand start r in
    let (history, e, f) =
      subst (λ z. Did match rand start.system z x.out x.got) (sym x.during) x.did in
    (
      history,
      x.sent ∙ ap (λ z. start.sent ++ z) (append-nil x.out ∙ sym e),
      x.arrived ∙ ap (λ z. start.arrived ++ z) (append-nil x.got ∙ sym f),
    )
