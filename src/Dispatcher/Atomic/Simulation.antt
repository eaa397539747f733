-- ===== src/Dispatcher/Atomic/Simulation.antt =====
-- Each move of `queue_dispatcher` in src/nqueue.h at the level of its lock is a step, or goes on with
-- one that ends where the lock is given back.
use virtual_gw.Common.{ℕ, ◌≡◌, refl, sym, ◌∙◌, true, false, List, [], ◌∷◌, ◌++◌}
use virtual_gw.Common.Int.{ℤ, pos, leb_ℤ, sub_int}
use mathlib.Core.Path.{subst}
use mathlib.Core.List.{append_assoc, append-nil}
use virtual_gw.Hl.Params.{Regexp}
use virtual_gw.Dispatcher.Thread.{
  Phase, at_test, at_pump, at_report, at_end, System, by_wait, by_stop, by_exit,
}
use virtual_gw.Dispatcher.Locks.{
  Holder, nobody, pumps, prints, pushes, commands, leaves, is_printing, event_is, Shared,
}
use virtual_gw.Dispatcher.Atomic.History.{Does, Did, Did-more, Does-skip}
use virtual_gw.Dispatcher.Atomic.During.{
  During, Stays, During-Stays, Stays-test, Stays-report, During-Same, poke, During-poke,
}

-- The frames that the holder of the lock has sent, and the frame that it has taken.
abbrev pub pending : Holder → List (List ℕ)
pending nobody = []
pending (pumps time i out) = out
pending (prints time i) = []
pending (pushes time p i) = []
pending (commands garbage c) = []
pending leaves = []

abbrev pub coming : Holder → List (List ℕ)
coming nobody = []
coming (pumps time i out) = []
coming (prints time i) = []
coming (pushes time p i) = p ∷ []
coming (commands garbage c) = []
coming leaves = []

pub regroup : {A : Type 0} (a b c d : List A) → (a ++ (b ++ c)) ++ d ≡ a ++ (b ++ (c ++ d))
regroup a b c d = simp append_assoc

module _ (match : Regexp) (rand : ℕ → ℕ) (start : Shared) where
  -- A history of steps from the start, and what goes on since its end.
  pub record Sim (s : Shared) (h : Holder) : Type 0 where
    pub c : System
    pub out : List (List ℕ)
    pub got : List (List ℕ)
    pub did : Did match rand start.system c out got
    pub during : During rand c h s.system
    pub sent : s.sent ≡ start.sent ++ (out ++ pending h)
    pub arrived : s.arrived ≡ start.arrived ++ (got ++ coming h)

  -- A step without the lock.
  Sim-beside :
      (s : Shared) (h : Holder) (x : Sim s h) (t : System)
      → Does match rand x.c t [] []
      → (s' : System) → During rand t h s'
      → Sim (record s { system = s' }) h
  Sim-beside s h x t d s' k = record {
    c = t;
    out = x.out ++ [];
    got = x.got ++ [];
    did = Did-more match rand start.system x.c t x.out x.got [] [] x.did d;
    during = k;
    sent = rw (append-nil x.out) x.sent;
    arrived = rw (append-nil x.got) x.arrived;
  }

  pub Sim-wait :
      (s : Shared) (h : Holder) (time : ℤ)
      → s.system.phase ≡ at_test
      → s.system.should_stop ≡ false
      → Sim s h
      → Sim (record s { system = record (event_is s.system false) { phase = at_pump time } }) h
  Sim-wait s h time ph go x =
      let same = During-Same rand x.c s.system h x.during in
      let ph' = sym same.phase ∙ ph in
      let stays =
        Stays-test h x.c.phase (at_pump time) (During-Stays rand x.c s.system h x.during) ph' in
      Sim-beside s h x (record (event_is x.c false) { phase = at_pump time })
        (by_wait time ph' (sym same.stop ∙ go), refl, refl)
        (record (event_is s.system false) { phase = at_pump time })
        (subst
          (λ b.
            During rand (poke false x.c.should_stop (at_pump time) x.c) h
              (poke false b (at_pump time) s.system))
          (sym same.stop)
          (During-poke rand x.c s.system h false x.c.should_stop (at_pump time) x.during stays))

  pub Sim-stop :
      (s : Shared) (h : Holder)
      → Sim s h
      → Sim (record s { system = record s.system { should_stop = true } }) h
  Sim-stop s h x =
      let same = During-Same rand x.c s.system h x.during in
      Sim-beside s h x (record x.c { should_stop = true }) (by_stop, refl, refl)
        (record s.system { should_stop = true })
        (subst
          (λ b.
            During rand (poke x.c.dispatcher.new_packet true x.c.phase x.c) h
              (poke b true s.system.phase s.system))
          (sym same.event)
          (subst
            (λ ph.
              During rand (poke x.c.dispatcher.new_packet true x.c.phase x.c) h
                (poke x.c.dispatcher.new_packet true ph s.system))
            (sym same.phase)
            (During-poke rand x.c s.system h x.c.dispatcher.new_packet true x.c.phase x.during
              (During-Stays rand x.c s.system h x.during))))

  -- The thread goes to another point of `main`, with nothing else changed.
  phase_beside :
      (s : Shared) (h : Holder) (x : Sim s h) (ph : Phase)
      → Stays h ph
      → Does match rand x.c (record x.c { phase = ph }) [] []
      → Sim (record s { system = record s.system { phase = ph } }) h
  phase_beside s h x ph stays d =
      let same = During-Same rand x.c s.system h x.during in
      Sim-beside s h x (record x.c { phase = ph }) d (record s.system { phase = ph })
        (subst
          (λ b.
            During rand (poke x.c.dispatcher.new_packet x.c.should_stop ph x.c) h
              (poke b s.system.should_stop ph s.system))
          (sym same.event)
          (subst
            (λ b.
              During rand (poke x.c.dispatcher.new_packet x.c.should_stop ph x.c) h
                (poke x.c.dispatcher.new_packet b ph s.system))
            (sym same.stop)
            (During-poke rand x.c s.system h x.c.dispatcher.new_packet x.c.should_stop ph x.during
              stays)))

  pub Sim-exit :
      (s : Shared) (h : Holder)
      → s.system.phase ≡ at_test
      → s.system.should_stop ≡ true
      → Sim s h
      → Sim (record s { system = record s.system { phase = at_end } }) h
  Sim-exit s h ph go x =
      let same = During-Same rand x.c s.system h x.during in
      let ph' = sym same.phase ∙ ph in
      phase_beside s h x at_end
        (Stays-test h x.c.phase at_end (During-Stays rand x.c s.system h x.during) ph')
        (by_exit ph' (sym same.stop ∙ go), refl, refl)

  pub Sim-skip :
      (s : Shared) (h : Holder) (time : ℤ)
      → is_printing h ≡ false
      → s.system.phase ≡ at_report time
      → leb_ℤ (pos 500) (sub_int time s.system.prev_time) ≡ false
      → Sim s h
      → Sim (record s { system = record s.system { phase = at_test } }) h
  Sim-skip s h time k ph early x =
      let same = During-Same rand x.c s.system h x.during in
      let ph' = sym same.phase ∙ ph in
      let early' = subst (λ t. leb_ℤ (pos 500) (sub_int time t) ≡ false) (same.time k) early in
      phase_beside s h x at_test
        (Stays-report h x.c.phase at_test time (During-Stays rand x.c s.system h x.during) k ph')
        (Does-skip match rand x.c time ph' early')
