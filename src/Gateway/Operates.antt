-- ===== src/Gateway/Operates.antt =====
-- What `main` in src/gate_way.cpp does to the dispatcher of the queues.
use virtual_gw.Common.{
  ℕ, ◌≡◌, refl, sym, ◌⊎◌, inl, inr, not, Option, none, some, List, [], ◌∷◌, ◌++◌, ◌==◌,
  if◌then◌else◌, >>=-eq-some, drop, if-eq-some, some_has,
}
use virtual_gw.Common.Int.{ℤ}
use mathlib.Core.Path.{subst}
use virtual_gw.Common.Result.{Exception}
use virtual_gw.Hl.Params.{Regexp}
use mathlib.Core.List.{append-nil}
use virtual_gw.Dhcp
use virtual_gw.Arp
use virtual_gw.Router
use virtual_gw.Router.Pushes.{Pushed, dispatch-Pushed}
use virtual_gw.Vgw
use virtual_gw.Vgw.Operates.{dispatch-Reaches}
use virtual_gw.Dispatcher.{QueueDispatcher}
use virtual_gw.Dispatcher.Thread.{System, by_push}
use virtual_gw.Dispatcher.Atomic.History.{Did, Did-nothing, Did-one, Did-trans}
use virtual_gw.Gateway.{Gateway, Handled, served_of, put_back, unconfigured, configured, handle}

-- The dispatcher beside its thread.
abbrev pub beside : System → QueueDispatcher → System
beside s d = record s { dispatcher = d }

-- Nothing comes to the queues, or the packet with other MAC addresses, once.
abbrev pub Comes : List (List ℕ) → List ℕ → Type 0
Comes got packet = (got ≡ []) ⊎ ((f : List ℕ) × (got ≡ f ∷ []) × (drop 12 f ≡ drop 12 packet))

module _ (match : Regexp) (rand : ℕ → ℕ) (s : System) where
  -- A history of the dispatcher, what it sends among the frames of the round, and what comes to it.
  abbrev pub Operated : QueueDispatcher → List ℕ → Handled → Type 0
  Operated d packet r =
      (frames : List (List ℕ)) × (out : List (List ℕ)) × (got : List (List ℕ)) × Did match rand
        (beside s d) (beside s r.1.router.qm) out got
      × (r.2 ≡ frames ++ out)
      × Comes got packet

  Operated-none : (packet : List ℕ) (r : Handled) → Operated r.1.router.qm packet r
  Operated-none packet r =
      (r.2, [], [], Did-nothing match rand (beside s r.1.router.qm), sym (append-nil r.2), inl refl)

  unconfigured-Operated :
      (g : Gateway) (packet : List ℕ) (r : Handled)
      → unconfigured g packet ≡ some r
      → Operated g.router.qm packet r
  unfolding unconfigured
  unconfigured-Operated g packet r e =
      let (x, e1, e2) = >>=-eq-some (Dhcp.dispatch g.dhcp_cln packet) _ e in
      some_has (Operated g.router.qm packet) e2
        (Operated-none packet (none, record g { dhcp_cln = x.0 }, x.1))

  routed :
      (g : Gateway) (time : ℤ) (packet : List ℕ) (sent : List (List ℕ)) (x : Router.Routed)
      → Pushed g.router.qm time packet x
      → Operated g.router.qm packet (none, record g { router = x.0 }, sent ++ x.1)
  routed g time packet sent x (inl same) =
      subst (λ d. Operated d packet (none, record g { router = x.0 }, sent ++ x.1)) same
        (Operated-none packet (none, record g { router = x.0 }, sent ++ x.1))
  routed g time packet sent x (inr (f, like, pushed)) = (
    sent,
    x.1,
    f ∷ [],
    Did-one match rand (beside s g.router.qm) (beside s x.0.qm) x.1 (f ∷ [])
        (by_push time f x.1 x.0.qm pushed, refl, refl),
    refl,
    inr (f, refl, like),
  )

  configured-Operated :
      (g : Gateway) (time : ℤ) (packet : List ℕ) (r : Handled)
      → configured g time packet ≡ some r
      → Operated g.router.qm packet r
  unfolding configured
  configured-Operated g time packet r e =
      let (x, e1, e2) =
        >>=-eq-some (Arp.dispatch (Arp.set_ip g.router.arp_cln g.dhcp_cln.ip) packet) _ e in
      let g' = record g { router = record g.router { arp_cln = x.0 } } in
      elim (if-eq-some x.2 _ _ e2) [
        | inl k ↦ some_has (Operated g.router.qm packet) k (Operated-none packet (none, g', x.1))
        | inr k ↦
            let (y, e3, e4) = >>=-eq-some (Router.dispatch g'.router time packet) _ k in
            some_has (Operated g.router.qm packet) e4
              (routed g' time packet x.1 y (dispatch-Pushed g'.router time packet y e3))
      ]

  -- Once the server has seen the packet.
  afterwards :
      (g : Gateway) (time : ℤ) (packet : List ℕ) (x : Option Exception) (sent : List (List ℕ))
      (result : ℕ) (r : Handled)
      → (elim x as (λ x. Option Handled) [
        | none ↦
            (if not (result == 0)
              then some (none, g, sent)
              else if g.dhcp_cln.is_configured
              then configured g time packet
              else unconfigured g packet)
        | some e ↦ some (some e, g, sent)
      ])
        ≡ some r
      → Operated g.router.qm packet r
  afterwards g time packet (some x) sent result r e =
      some_has (Operated g.router.qm packet) e (Operated-none packet (some x, g, sent))
  afterwards g time packet none sent result r e = elim (if-eq-some (not (result == 0)) _ _ e) [
    | inl k ↦ some_has (Operated g.router.qm packet) k (Operated-none packet (none, g, sent))
    | inr k ↦ elim (if-eq-some g.dhcp_cln.is_configured _ _ k) [
      | inl j ↦ configured-Operated g time packet r j
      | inr j ↦ unconfigured-Operated g packet r j
    ]
  ]

  -- Behind the commands of a message.
  behind_commands :
      (d d' : QueueDispatcher) (packet : List ℕ) (r : Handled)
      → Did match rand (beside s d) (beside s d') [] []
      → Operated d' packet r
      → Operated d packet r
  behind_commands d d' packet r h (frames, out, got, k, e, c) = (
    frames,
    out,
    got,
    Did-trans match rand (beside s d) (beside s d') (beside s r.1.router.qm) [] [] out got h k,
    e,
    c,
  )

  -- What the body of the loop does to the dispatcher, with its thread standing still: commands, and
  -- at most one arrival, which is the packet that was read, with other MAC addresses.
  pub handle-Operated :
      (garbage : ℤ) (left : List ℕ) (request_id : ℕ) (time : ℤ) (g : Gateway) (packet : List ℕ)
      (r : Handled)
      → handle match garbage left request_id time g packet ≡ some r
      → Operated g.router.qm packet r
  unfolding handle
  handle-Operated garbage left request_id time g packet r e =
      let (x, e1, e2) =
        >>=-eq-some
          (Vgw.dispatch match garbage left request_id g.server_name g.dhcp_cln.ip (served_of g)
            packet)
          _ e in
      let g' = put_back g x.1 in
      let commands =
        dispatch-Reaches match rand garbage (beside s g.router.qm) (beside s g.router.qm) left
          request_id g.server_name g.dhcp_cln.ip packet (served_of g) x
          (Did-nothing match rand (beside s g.router.qm)) e1 in
      behind_commands g.router.qm g'.router.qm packet r commands
        (afterwards g' time packet x.0 x.2 x.3 r e2)
