-- ===== src/Gateway/Histories.antt =====
-- What a run of the loop of `main` in src/gate_way.cpp does to the dispatcher of the queues.
use virtual_gw.Common.{
  ℕ, ◌≡◌, refl, sym, ap, ◌∙◌, ◌⊎◌, inl, inr, Option, none, some, List, [], ◌∷◌, ◌++◌, drop,
  some_has,
}
use mathlib.Core.Path.{subst}
use virtual_gw.Hl.Params.{Regexp}
use mathlib.Core.List.{append_assoc, append-nil, Sublistᴰ}
use virtual_gw.Dispatcher.{QueueDispatcher}
use virtual_gw.Dispatcher.Thread.{System}
use virtual_gw.Dispatcher.Atomic.History.{Did, Did-nothing, Did-trans}
use virtual_gw.Gateway.{Gateway, Handled, handle}
use virtual_gw.Gateway.CtrlBreak.{ctrl_handler}
use virtual_gw.Gateway.Main.{
  carry_on, Event, read_failed, read_nothing, read_packet, console, Ending, running, left_loop,
  by_exception, Ran, run_loop,
}
use virtual_gw.Gateway.Runs.{some_inj, behind-some, unless-some}
use virtual_gw.Gateway.Operates.{beside, Comes, Operated, handle-Operated}

-- The packets that are read.
abbrev pub packets_of : List Event → List (List ℕ)
packets_of [] = []
packets_of (read_failed ∷ es) = packets_of es
packets_of (read_nothing ∷ es) = packets_of es
packets_of (read_packet garbage left request_id time packet ∷ es) = packet ∷ packets_of es
packets_of (console event ∷ es) = packets_of es

-- Some of the packets, in their order, each with other MAC addresses in its first 12 bytes.
pub data Readdressed : List (List ℕ) → List (List ℕ) → Type 0 where
  none_left : Readdressed [] []
  passed_by :
      {got packets : List (List ℕ)} {p : List ℕ}
      → Readdressed got packets
      → Readdressed got (p ∷ packets)
  taken :
      {got packets : List (List ℕ)} {f p : List ℕ}
      → drop 12 f ≡ drop 12 p
      → Readdressed got packets
      → Readdressed (f ∷ got) (p ∷ packets)

Readdressed-none : (packets : List (List ℕ)) → Readdressed [] packets
Readdressed-none [] = none_left
Readdressed-none (p ∷ packets) = passed_by (Readdressed-none packets)

Readdressed-Comes :
    (got more packets : List (List ℕ)) (p : List ℕ)
    → Comes got p
    → Readdressed more packets
    → Readdressed (got ++ more) (p ∷ packets)
Readdressed-Comes got more packets p (inl none_came) r = rw none_came (passed_by r)
Readdressed-Comes got more packets p (inr (f, one, like)) r = rw one (taken like r)

Sublist-none : (xs : List (List ℕ)) → Sublistᴰ [] xs
Sublist-none [] = Sublistᴰ.slnil
Sublist-none (x ∷ xs) = Sublistᴰ.cons (Sublist-none xs)

Sublist-both :
    (out more out' : List (List ℕ)) → Sublistᴰ out' more → Sublistᴰ (out ++ out') (out ++ more)
Sublist-both [] more out' l = l
Sublist-both (x ∷ out) more out' l = Sublistᴰ.cons-cons refl (Sublist-both out more out' l)

Sublist-later : (frames l all : List (List ℕ)) → Sublistᴰ l all → Sublistᴰ l (frames ++ all)
Sublist-later [] l all h = h
Sublist-later (x ∷ frames) l all h = Sublistᴰ.cons (Sublist-later frames l all h)

Sublist-behind :
    (frames out sent more out' : List (List ℕ))
    → sent ≡ frames ++ out
    → Sublistᴰ out' more
    → Sublistᴰ (out ++ out') (sent ++ more)
Sublist-behind frames out sent more out' e l =
    subst (λ z. Sublistᴰ (out ++ out') z)
      (sym (append_assoc frames out more) ∙ ap (λ z. z ++ more) (sym e))
      (Sublist-later frames (out ++ out') (out ++ more) (Sublist-both out more out' l))

carry_on-some :
    (rest : Gateway → Option Ran) (h : Option Handled) (r : Ran)
    → carry_on rest h ≡ some r
    → ((x : Handled) × (h ≡ some x) × (x.1 ≡ r.1) × (x.2 ≡ r.2))
      ⊎ ((x : Handled) × (more : List (List ℕ)) × (h ≡ some x)
          × (rest x.1 ≡ some (r.0, r.1, more))
          × (r.2 ≡ x.2 ++ more))
unfolding carry_on
carry_on-some rest none r e = cc
carry_on-some rest (some (some x, g, sent)) r e =
    let q = some_inj (by_exception x, g, sent) r e in
    inl ((some x, g, sent), refl, ap (λ z. z.1) q, ap (λ z. z.2) q)
carry_on-some rest (some (none, g, sent)) r e =
    let (more, m, q) = behind-some sent (rest g) r.0 r.1 r.2 e in
    inr ((none, g, sent), more, refl, m, q)

module _ (match : Regexp) (rand : ℕ → ℕ) (s : System) where
  abbrev RunOperated : QueueDispatcher → List (List ℕ) → Ran → Type 0
  RunOperated d packets r =
      (out : List (List ℕ)) × (got : List (List ℕ)) × Did match rand (beside s d)
        (beside s r.1.router.qm) out got
      × Sublistᴰ out r.2
      × Readdressed got packets

  nothing_done :
      (packets : List (List ℕ)) (e : Ending) (g : Gateway)
      → RunOperated g.router.qm packets (e, g, [])
  nothing_done packets e g = (
    [],
    [],
    Did-nothing match rand (beside s g.router.qm),
    Sublistᴰ.slnil,
    Readdressed-none packets,
  )

  one_more :
      (g : Gateway) (packet : List ℕ) (packets more : List (List ℕ)) (x : Handled) (r : Ran)
      → Operated match rand s g.router.qm packet x
      → RunOperated x.1.router.qm packets (r.0, r.1, more)
      → r.2 ≡ x.2 ++ more
      → RunOperated g.router.qm (packet ∷ packets) r
  one_more g packet packets more x r (frames, out, got, d, e, c) (out', got', d', l, a) q = (
    out ++ out',
    got ++ got',
    Did-trans match rand (beside s g.router.qm) (beside s x.1.router.qm) (beside s r.1.router.qm)
        out got out' got' d d',
    rw q (Sublist-behind frames out x.2 more out' e l),
    Readdressed-Comes got got' packets packet c a,
  )

  -- Whatever the loop of `main` reads, with the sending thread standing still: what it does to the
  -- queues is a history of commands and arrivals. What the history sends is among the frames of the
  -- run, in their order, and what comes to the queues are packets that were read, in their order, each
  -- at most once and with nothing changed but its MAC addresses.
  pub run-Operated :
      (es : List Event) (g : Gateway) (r : Ran)
      → run_loop match es g ≡ some r
      → (out : List (List ℕ)) × (got : List (List ℕ)) × Did match rand
          (beside s g.router.qm)
          (beside s r.1.router.qm)
          out
          got
        × Sublistᴰ out r.2
        × Readdressed got (packets_of es)
  unfolding run_loop
  run-Operated [] g r e = some_has (RunOperated g.router.qm []) e (nothing_done [] running g)
  run-Operated (read_failed ∷ es) g r e =
      some_has (RunOperated g.router.qm (packets_of es)) e
        (nothing_done (packets_of es) left_loop g)
  run-Operated (read_nothing ∷ es) g r e = elim (unless-some g.ctrl_break_pressed g _ r e) [
    | inl q ↦
        subst (RunOperated g.router.qm (packets_of es)) q (nothing_done (packets_of es) left_loop g)
    | inr k ↦ run-Operated es g r k
  ]
  run-Operated (read_packet garbage left request_id time packet ∷ es) g r e =
      elim (unless-some g.ctrl_break_pressed g _ r e) [
        | inl q ↦
            subst (RunOperated g.router.qm (packet ∷ packets_of es)) q
              (nothing_done (packet ∷ packets_of es) left_loop g)
        | inr k ↦
            elim (carry_on-some (λ g'. run_loop match es g')
              (handle match garbage left request_id time g packet) r k) [
                | inl (x, h, same, all) ↦
                    one_more g packet (packets_of es) [] x r
                      (handle-Operated match rand s garbage left request_id time g packet x h)
                      (subst (λ z. RunOperated z.router.qm (packets_of es) (r.0, r.1, []))
                        (sym same) (nothing_done (packets_of es) r.0 r.1))
                      (sym all ∙ sym (append-nil x.2))
                | inr (x, more, h, rest, all) ↦
                    one_more g packet (packets_of es) more x r
                      (handle-Operated match rand s garbage left request_id time g packet x h)
                      (run-Operated es x.1 (r.0, r.1, more) rest) all
              ]
      ]
  run-Operated (console event ∷ es) g r e =
      run-Operated es
        (record g { ctrl_break_pressed = (ctrl_handler event g.ctrl_break_pressed).1 }) r e
