-- ===== src/Gateway/Alone.antt =====
-- The loop of `main` in src/gate_way.cpp while the dispatcher's thread stands still.
use virtual_gw.Common.{
  ℕ, ◌≡◌, refl, ap, Bool, true, false, Option, none, some, List, [], ◌∷◌, some_has,
}
use virtual_gw.Hl.Params.{Regexp}
use virtual_gw.Gateway.{Gateway, Handled, handle}
use virtual_gw.Gateway.CtrlBreak.{ctrl_handler}
use virtual_gw.Gateway.Main.{
  carry_on, unless, Event, read_failed, read_nothing, read_packet, console, running, Ran, run_loop,
}
use virtual_gw.Gateway.Runs.{behind-some}
use virtual_gw.Gateway.Histories.{packets_of}
use virtual_gw.Gateway.Together.{
  Process, Turns, by_console, by_packet, no_turn, then_turn, all_read,
}

carry_on-running :
    (rest : Gateway → Option Ran) (h : Option Handled) (g : Gateway) (sent : List (List ℕ))
    → carry_on rest h ≡ some (running, g, sent)
    → (g' : Gateway) × (first : List (List ℕ)) × (more : List (List ℕ)) × (h
        ≡ some (none, g', first))
      × (rest g' ≡ some (running, g, more))
unfolding carry_on
carry_on-running rest none g sent e = cc
carry_on-running rest (some (some x, g1, s1)) g sent e = cc
carry_on-running rest (some (none, g1, s1)) g sent e =
    let (more, m, q) = behind-some s1 (rest g1) running g sent e in (g1, s1, more, refl, m)

unless-running :
    (b : Bool) (g g' : Gateway) (m : Option Ran) (sent : List (List ℕ))
    → unless b g m ≡ some (running, g', sent)
    → (b ≡ false) × (m ≡ some (running, g', sent))
unfolding unless
unless-running true g g' m sent e = cc
unless-running false g g' m sent e = (refl, e)

module _ (match : Regexp) (rand : ℕ → ℕ) where
  abbrev TurnsTo : Process → List (List ℕ) → Ran → Type 0
  TurnsTo p packets r =
      (h : Turns match rand p (record p { gateway = r.1 })) × (all_read h ≡ packets)

  -- A run of the loop that goes on is a sequence of turns, which read its packets.
  pub run_loop-Turns :
      (es : List Event) (p : Process) (g : Gateway) (sent : List (List ℕ))
      → run_loop match es p.gateway ≡ some (running, g, sent)
      → (h : Turns match rand p (record p { gateway = g })) × (all_read h ≡ packets_of es)
  unfolding run_loop all_read
  run_loop-Turns [] p g sent e = some_has (TurnsTo p []) e (no_turn, refl)
  run_loop-Turns (read_failed ∷ es) p g sent e = cc
  run_loop-Turns (read_nothing ∷ es) p g sent e =
      run_loop-Turns es p g sent
        (unless-running p.gateway.ctrl_break_pressed p.gateway g _ sent e).1
  run_loop-Turns (read_packet garbage left request_id time packet ∷ es) p g sent e =
      let (on, goes_on) = unless-running p.gateway.ctrl_break_pressed p.gateway g _ sent e in
      let (g', first, more, h, rest) =
        carry_on-running (λ g'. run_loop match es g')
          (handle match garbage left request_id time p.gateway packet) g sent goes_on in
      let (turns, all) = run_loop-Turns es (record p { gateway = g' }) g more rest in
      (
        then_turn (by_packet garbage left request_id time packet g' first on h) turns,
        ap (λ ps. packet ∷ ps) all,
      )
  run_loop-Turns (console event ∷ es) p g sent e =
      let (turns, all) =
        run_loop-Turns es
          (record p {
            gateway = record p.gateway {
              ctrl_break_pressed = (ctrl_handler event p.gateway.ctrl_break_pressed).1;
            };
          })
          g sent e in
      (then_turn (by_console event) turns, all)
