-- ===== src/Gateway/Stops.antt =====
-- How the loop of `main` in src/gate_way.cpp is stopped.
use virtual_gw.Common.{
  ℕ, ◌≡◌, refl, sym, ap, ◌∙◌, Bool, true, false, Option, none, some, List, [], ◌∷◌, ◌++◌,
}
use virtual_gw.Gateway.{Handled, Gateway}
use mathlib.Core.List.{append-nil, append_assoc}
use virtual_gw.Hl.Params.{Regexp}
use virtual_gw.Gateway.CtrlBreak.{is_break, ctrl_handler}
use virtual_gw.Gateway.Runs.{behind-some, some_inj}
use virtual_gw.Gateway.Main.{
  Event, read_failed, read_nothing, read_packet, console, Ending, running, left_loop, Ran, behind,
  unless, carry_on, run_loop,
}

abbrev pub is_read : Event → Bool
is_read (console event) = false
is_read read_failed = true
is_read read_nothing = true
is_read (read_packet garbage left request_id time packet) = true

-- A run that has not ended goes on from where it stands.
behind-behind : (a b : List (List ℕ)) (m : Option Ran) → behind a (behind b m) ≡ behind (a ++ b) m
unfolding behind
behind-behind a b none = refl
behind-behind a b (some (e, g, sent)) = ap (λ s. some (e, g, s)) (sym (append_assoc a b sent))

behind_nothing : (m : Option Ran) → behind [] m ≡ m
unfolding behind
behind_nothing none = refl
behind_nothing (some (e, g, sent)) = refl

behind_end :
    (sent : List (List ℕ)) (e : Ending) (g : Gateway)
    → behind sent (some (e, g, [])) ≡ some (e, g, sent)
unfolding behind
behind_end sent e g = ap (λ s. some (e, g, s)) (append-nil sent)

unless_pressed :
    (b : Bool) (g : Gateway) (m : Option Ran) → b ≡ true → unless b g m ≡ some (left_loop, g, [])
unfolding unless
unless_pressed true g m h = refl
unless_pressed false g m h = cc

ctrl_handler_presses :
    (event : ℕ) (pressed : Bool) → is_break event ≡ true → (ctrl_handler event pressed).1 ≡ true
unfolding ctrl_handler
ctrl_handler_presses event pressed h = rw h refl

unless-append :
    (b : Bool) (g g1 : Gateway) (sent : List (List ℕ)) (m m' r : Option Ran)
    → unless b g m ≡ some (running, g1, sent)
    → (m ≡ some (running, g1, sent) → m' ≡ r)
    → unless b g m' ≡ r
unfolding unless
unless-append true g g1 sent m m' r h k = cc
unless-append false g g1 sent m m' r h k = k h

carry_on-append :
    (rest rest' : Gateway → Option Ran) (h : Option Handled) (g1 : Gateway) (sent : List (List ℕ))
    (r : Option Ran)
    → ((g : Gateway) (s : List (List ℕ)) → rest g ≡ some (running, g1, s) → rest' g ≡ behind s r)
    → carry_on rest h ≡ some (running, g1, sent)
    → carry_on rest' h ≡ behind sent r
unfolding carry_on
carry_on-append rest rest' none g1 sent r k h = cc
carry_on-append rest rest' (some (some x, g, s)) g1 sent r k h = cc
carry_on-append rest rest' (some (none, g, s)) g1 sent r k h =
    let (more, m, q) = behind-some s (rest g) running g1 sent h in
    ap (behind s) (k g more m) ∙ behind-behind s more r ∙ ap (λ x. behind x r) (sym q)

module _ (match : Regexp) where
  -- A run that has not ended goes on with the next events from where it stands.
  run_loop-append :
      (es fs : List Event) (g g1 : Gateway) (sent : List (List ℕ))
      → run_loop match es g ≡ some (running, g1, sent)
      → run_loop match (es ++ fs) g ≡ behind sent (run_loop match fs g1)
  unfolding run_loop
  run_loop-append [] fs g g1 sent h =
      sym (behind_nothing (run_loop match fs g))
      ∙ ap (λ r. behind r.2 (run_loop match fs r.1))
          (some_inj (running, g, []) (running, g1, sent) h)
  run_loop-append (read_failed ∷ es) fs g g1 sent h = cc
  run_loop-append (read_nothing ∷ es) fs g g1 sent h =
      unless-append g.ctrl_break_pressed g g1 sent _ _ _ h (λ k. run_loop-append es fs g g1 sent k)
  run_loop-append (read_packet garbage left request_id time packet ∷ es) fs g g1 sent h =
      unless-append g.ctrl_break_pressed g g1 sent _ _ _ h (λ k.
        carry_on-append (λ g'. run_loop match es g') (λ g'. run_loop match (es ++ fs) g') _ g1 sent
          _ (λ g' s l. run_loop-append es fs g' g1 s l) k)
  run_loop-append (console event ∷ es) fs g g1 sent h =
      run_loop-append es fs
        (record g { ctrl_break_pressed = (ctrl_handler event g.ctrl_break_pressed).1 }) g1 sent h

  pressed_stops :
      (r : Event) (rest : List Event) (g : Gateway)
      → is_read r ≡ true
      → g.ctrl_break_pressed ≡ true
      → run_loop match (r ∷ rest) g ≡ some (left_loop, g, [])
  unfolding run_loop
  pressed_stops read_failed rest g i p = refl
  pressed_stops read_nothing rest g i p = unless_pressed g.ctrl_break_pressed g _ p
  pressed_stops (read_packet garbage left request_id time packet) rest g i p =
      unless_pressed g.ctrl_break_pressed g _ p
  pressed_stops (console event) rest g i p = cc

  -- A run of the loop that is still going: after one of the console's five events that end a
  -- program, the next read ends the loop, whatever it brings and whatever would follow, and no
  -- frame is sent besides those sent before.
  pub console_stops :
      (es rest : List Event) (event : ℕ) (r : Event) (g g1 : Gateway) (sent : List (List ℕ))
      → run_loop match es g ≡ some (running, g1, sent)
      → is_break event ≡ true
      → is_read r ≡ true
      → run_loop match (es ++ console event ∷ r ∷ rest) g
        ≡ some (left_loop, record g1 { ctrl_break_pressed = true }, sent)
  unfolding run_loop
  console_stops es rest event r g g1 sent h b i =
      run_loop-append es (console event ∷ r ∷ rest) g g1 sent h
      ∙ ap (λ p. behind sent (run_loop match (r ∷ rest) (record g1 { ctrl_break_pressed = p })))
          (ctrl_handler_presses event g1.ctrl_break_pressed b)
      ∙ ap (behind sent) (pressed_stops r rest (record g1 { ctrl_break_pressed = true }) i refl)
      ∙ behind_end sent left_loop (record g1 { ctrl_break_pressed = true })
