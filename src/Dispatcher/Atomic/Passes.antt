-- ===== src/Dispatcher/Atomic/Passes.antt =====
-- The loop over the queues that sends, in `main` of `queue_dispatcher` in src/nqueue.h, move by move.
use virtual_gw.Common.{
  ℕ, suc, ◌≡◌, refl, sym, ap, ◌∙◌, Option, none, some, List, [], ◌∷◌, ◌++◌, get_elem?, set,
}
use virtual_gw.Common.Int.{ℤ}
use mathlib.Core.Path.{subst}
use virtual_gw.Common.Text.{Text}
use mathlib.Core.List.{append-nil}
use virtual_gw.Hl.Params.{Regexp}
use virtual_gw.Nqueue.{Nqueue, packet_out}
use virtual_gw.Nqueue.Mass.{gone}
use virtual_gw.Dispatcher.{pump}
use virtual_gw.Dispatcher.Thread.{at_pump, at_report, Phase, System, by_pump}
use virtual_gw.Dispatcher.Locks.{Holder, nobody, pumps, pumped_to, Shared}
use virtual_gw.Dispatcher.Atomic.History.{Does, Did-more}
use virtual_gw.Dispatcher.Atomic.Loops.{
  behind-some, behind-none, set-behind, one_moved, length-snoc, pump_more, length-pump,
}
use virtual_gw.Dispatcher.Atomic.During.{During}
use virtual_gw.Dispatcher.Atomic.Simulation.{Sim, pending, coming, regroup}

abbrev pub at_phase : Phase → System → System
at_phase ph z = record z { phase = ph }

module _ (match : Regexp) (rand : ℕ → ℕ) (start : Shared) where
  -- The holder goes on, or has taken the lock, with nothing sent.
  pub goes_on :
      (s : Shared) (h h' : Holder) (x : Sim match rand start s h) (s' : System)
      → pending h' ≡ pending h
      → coming h' ≡ coming h
      → During rand x.c h' s'
      → Sim match rand start (record s { system = s' }) h'
  goes_on s h h' x s' p q d = record {
    c = x.c;
    out = x.out;
    got = x.got;
    did = x.did;
    during = d;
    sent = rw p x.sent;
    arrived = rw q x.arrived;
  }

  -- The lock is given back, or has only to be: what was done under it is one step.
  pub commits :
      (s : Shared) (h h' : Holder) (x : Sim match rand start s h) (t s' : System)
      (sent all : List (List ℕ))
      → pending h' ≡ []
      → coming h' ≡ []
      → Does match rand x.c t (pending h ++ sent) (coming h)
      → During rand t h' s'
      → all ≡ s.sent ++ sent
      → Sim match rand start (record s { system = s'; sent = all }) h'
  commits s h h' x t s' sent all p q d k e = record {
    c = t;
    out = x.out ++ (pending h ++ sent);
    got = x.got ++ coming h;
    did = Did-more match rand start.system x.c t x.out x.got (pending h ++ sent) (coming h) x.did d;
    during = k;
    sent = rw p (
        e
        ∙ ap (λ z. z ++ sent) x.sent
        ∙ regroup start.sent x.out (pending h) sent
        ∙ ap (λ z. start.sent ++ z) (sym (append-nil (x.out ++ (pending h ++ sent)))));
    arrived =
        rw q (x.arrived ∙ ap (λ z. start.arrived ++ z) (sym (append-nil (x.got ++ coming h))));
  }

  pub Sim-pump_enter :
      (s : Shared) (time : ℤ)
      → s.system.phase ≡ at_pump time
      → Sim match rand start s nobody
      → Sim match rand start s (pumps time 0 [])
  unfolding pump
  Sim-pump_enter s time ph x = goes_on s nobody (pumps time 0 []) x s.system refl refl (record {
    before = [];
    behind = x.c.dispatcher.nq_list;
    pumped = [];
    used = x.c.dispatcher.draws;
    parts = refl;
    count = refl;
    ran = refl;
    phase = subst (λ z. z.phase ≡ at_pump time) x.during ph;
    shows = x.during;
  })

  pub Sim-pump_next :
      (s : Shared) (time : ℤ) (i : ℕ) (out : List (List ℕ)) (k : Text) (n n' : Nqueue)
      (o : Option (List ℕ)) (used : ℕ)
      → get_elem? s.system.dispatcher.nq_list i ≡ some (k, n)
      → packet_out rand s.system.dispatcher.draws n time ≡ some (o, n', used)
      → Sim match rand start s (pumps time i out)
      → Sim match rand start
          (record s {
            system = pumped_to s.system (set s.system.dispatcher.nq_list i (k, n')) used;
            sent = s.sent ++ gone o;
          })
          (pumps time (suc i) (out ++ gone o))
  Sim-pump_next s time i out k n n' o used e h x =
      let d = x.during in
      let a' =
        length-pump rand x.c.dispatcher.draws d.used d.before d.pumped time out d.ran ∙ d.count in
      let e1 = subst (λ z. get_elem? z.dispatcher.nq_list i ≡ some (k, n)) d.shows e in
      let h1 =
        subst (λ z. packet_out rand z.dispatcher.draws n time ≡ some (o, n', used)) d.shows h in
      let (b', eb) =
        behind-some d.pumped d.behind (k, n)
          (subst (λ j. get_elem? (d.pumped ++ d.behind) j ≡ some (k, n)) (sym a') e1) in
      record {
        c = x.c;
        out = x.out;
        got = x.got;
        did = x.did;
        during = record {
          before = d.before ++ (k, n) ∷ [];
          behind = b';
          pumped = d.pumped ++ (k, n') ∷ [];
          used = used;
          parts = one_moved x.c.dispatcher.nq_list d.before d.behind b' (k, n) d.parts eb;
          count = length-snoc d.before (k, n) i d.count;
          ran =
              pump_more rand x.c.dispatcher.draws d.used used d.before d.pumped time out k n n' o
                d.ran h1;
          phase = d.phase;
          shows =
              ap (λ z. pumped_to z (set z.dispatcher.nq_list i (k, n')) used) d.shows
              ∙ ap (λ m. pumped_to x.c m used)
                  (set-behind d.pumped d.behind b' i (k, n) (k, n') a' eb);
        };
        sent = ap (λ z. z ++ gone o) x.sent ∙ regroup start.sent x.out out (gone o);
        arrived = x.arrived;
      }

  pub Sim-pump_leave :
      (s : Shared) (time : ℤ) (i : ℕ) (out : List (List ℕ))
      → get_elem? s.system.dispatcher.nq_list i ≡ none
      → Sim match rand start s (pumps time i out)
      → Sim match rand start
          (record s { system = record s.system { phase = at_report time } })
          nobody
  Sim-pump_leave s time i out e x =
      let d = x.during in
      let e1 = subst (λ z. get_elem? z.dispatcher.nq_list i ≡ none) d.shows e in
      let a' =
        length-pump rand x.c.dispatcher.draws d.used d.before d.pumped time out d.ran ∙ d.count in
      let ended =
        behind-none d.pumped d.behind
          (subst (λ j. get_elem? (d.pumped ++ d.behind) j ≡ none) (sym a') e1) in
      let all = d.parts ∙ ap (λ r. d.before ++ r) ended ∙ append-nil d.before in
      let ran =
        subst (λ m. pump rand x.c.dispatcher.draws m time ≡ some (out, d.pumped, d.used)) (sym all)
          d.ran in
      commits s (pumps time i out) nobody x
        (at_phase (at_report time) (pumped_to x.c d.pumped d.used))
        (at_phase (at_report time) s.system) [] s.sent refl refl
        (by_pump time out d.pumped d.used d.phase ran, sym (append-nil out), refl)
        (ap (at_phase (at_report time)) d.shows
          ∙ ap (λ m. at_phase (at_report time) (pumped_to x.c m d.used))
              (ap (λ r. d.pumped ++ r) ended ∙ append-nil d.pumped))
        (sym (append-nil s.sent))
