-- ===== src/Gateway/Runs.antt =====
-- Laws of whole runs of `main` in src/gate_way.cpp.
use virtual_gw.Common.{
  ℕ, ◌≡◌, refl, sym, ap, ◌∙◌, ◌≢◌, ◌⊎◌, inl, inr, Bool, true, false, Option, none, some, List, [],
  ◌∷◌, ◌++◌, arith,
}
use virtual_gw.Gateway.Main.{
  carry_on, unless, Event, read_failed, read_nothing, read_packet, console, Ending, running,
  left_loop, by_exception, Ran, behind, run_loop, leave,
}
use virtual_gw.Gateway.{Handled, Gateway}
use virtual_gw.Common.Result.{Exception}
use virtual_gw.Hl.Params.{Regexp}
use virtual_gw.Dhcp.{send_release, DhcpClient, send_packet, dhcprelease}
use virtual_gw.Dhcp.Frames.{IsMac, send_packet-IsFrame}
use virtual_gw.Gateway.CtrlBreak.{ctrl_handler}
use virtual_gw.Dhcp.Laws.{release_sends}
use virtual_gw.Gateway.Laws.{configured_for_good}

pub some_inj : (x y : Ran) → some x ≡ some y → x ≡ y
some_inj x y h = ap (λ o. elim o [ some r ↦ r | none ↦ x ]) h

pub behind-some :
    (sent : List (List ℕ)) (m : Option Ran) (e : Ending) (g' : Gateway) (all : List (List ℕ))
    → behind sent m ≡ some (e, g', all)
    → (more : List (List ℕ)) × (m ≡ some (e, g', more)) × (all ≡ sent ++ more)
unfolding behind
behind-some sent none e g' all h = cc
behind-some sent (some (e1, g1, more)) e g' all h =
    let q = some_inj (e1, g1, sent ++ more) (e, g', all) h in
    (more, ap (λ r. some (r.0, r.1, more)) q, sym (ap (λ r. r.2) q))

pub unless-some :
    (b : Bool) (g : Gateway) (m : Option Ran) (r : Ran)
    → unless b g m ≡ some r
    → ((left_loop, g, []) ≡ r) ⊎ (m ≡ some r)
unfolding unless
unless-some true g m r h = inl (some_inj (left_loop, g, []) r h)
unless-some false g m r h = inr h

-- What a packet leaves as it is, and the rest of the run too, the run leaves as it is.
carry_on-keeps :
    (c : DhcpClient) (rest : Gateway → Option Ran) (h : Option Handled) (e : Ending) (g' : Gateway)
    (sent : List (List ℕ))
    → ((x : Option Exception) (g1 : Gateway) (s1 : List (List ℕ))
        → h ≡ some (x, g1, s1)
        → g1.dhcp_cln ≡ c)
    → ((g1 : Gateway) (s1 : List (List ℕ))
        → g1.dhcp_cln ≡ c
        → rest g1 ≡ some (e, g', s1)
        → g'.dhcp_cln ≡ c)
    → carry_on rest h ≡ some (e, g', sent)
    → g'.dhcp_cln ≡ c
unfolding carry_on
carry_on-keeps c rest none e g' sent k l h = cc
carry_on-keeps c rest (some (some x, g1, s1)) e g' sent k l h =
    sym (ap (λ r. r.1.dhcp_cln) (some_inj (by_exception x, g1, s1) (e, g', sent) h))
    ∙ k (some x) g1 s1 refl
carry_on-keeps c rest (some (none, g1, s1)) e g' sent k l h =
    let (more, m, q) = behind-some s1 (rest g1) e g' sent h in l g1 more (k none g1 s1 refl) m

module _ (match : Regexp) where
  -- Over any run of the loop, a gateway that has its address keeps its DHCP client as it is.
  pub run_keeps_lease :
      (es : List Event) (g g' : Gateway) (e : Ending) (sent : List (List ℕ))
      → g.dhcp_cln.is_configured ≡ true
      → run_loop match es g ≡ some (e, g', sent)
      → g'.dhcp_cln ≡ g.dhcp_cln
  unfolding run_loop
  run_keeps_lease [] g g' e sent c h = ground arith
  run_keeps_lease (read_failed ∷ es) g g' e sent c h = ground arith
  run_keeps_lease (read_nothing ∷ es) g g' e sent c h =
      elim (unless-some g.ctrl_break_pressed g (run_loop match es g) (e, g', sent) h) [
        | inl p ↦ ground arith
        | inr p ↦ run_keeps_lease es g g' e sent c p
      ]
  run_keeps_lease (read_packet garbage left request_id time packet ∷ es) g g' e sent c h =
      elim (unless-some g.ctrl_break_pressed g _ (e, g', sent) h) [
        | inl p ↦ ground arith
        | inr p ↦
            carry_on-keeps g.dhcp_cln (λ g1. run_loop match es g1) _ e g' sent
              (λ x g1 s1 k.
                configured_for_good match garbage left request_id time g g1 packet x s1 c k)
              (λ g1 s1 k l. run_keeps_lease es g1 g' e s1 (ap (λ d. d.is_configured) k ∙ c) l ∙ k) p
      ]
  run_keeps_lease (console event ∷ es) g g' e sent c h =
      run_keeps_lease es
        (record g { ctrl_break_pressed = (ctrl_handler event g.ctrl_break_pressed).1 }) g' e sent c
        h

release_idle : (c : DhcpClient) → c.is_configured ≡ false → send_release c ≡ some (c, [])
unfolding send_release
release_idle c h = rw h refl

leave_sends :
    (e : Ending) (c : DhcpClient) (frame : List ℕ)
    → e ≢ running
    → c.is_configured ≡ true
    → send_packet c dhcprelease ≡ some frame
    → leave e c ≡ some (record c { is_configured = false }, frame ∷ [])
unfolding leave
leave_sends running c frame h k l = absurd (h refl)
leave_sends left_loop c frame h k l =
    rw (release_sends c frame k l, release_idle (record c { is_configured = false }) refl) refl
leave_sends (by_exception x) c frame h k l = release_sends c frame k l

-- A run of the loop that begins with a configured client, whose MAC address is made of bytes: if it
-- ends, by its conditions or by an exception, then leaving `main` sends one frame, the release of
-- the lease that the client had at the beginning, and the client is then not configured.
pub run_returns_lease :
    (match : Regexp) (es : List Event) (g g' : Gateway) (e : Ending) (sent : List (List ℕ))
    → g.dhcp_cln.is_configured ≡ true
    → IsMac g.dhcp_cln.mac
    → run_loop match es g ≡ some (e, g', sent)
    → e ≢ running
    → (frame : List ℕ) × (send_packet g.dhcp_cln dhcprelease ≡ some frame)
      × (leave e g'.dhcp_cln ≡ some (record g.dhcp_cln { is_configured = false }, frame ∷ []))
run_returns_lease match es g g' e sent c v h n =
    let (options, frame, e1, e2, is_frame) =
      send_packet-IsFrame g.dhcp_cln dhcprelease v (inr (inr refl)) in
    (
      frame,
      e2,
      rw (run_keeps_lease match es g g' e sent c h) (leave_sends e g.dhcp_cln frame n c e2),
    )
