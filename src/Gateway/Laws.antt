-- ===== src/Gateway/Laws.antt =====
-- Laws of the loop of src/gate_way.cpp.
use virtual_gw.Common.{
  ℕ, ◌≡◌, inl, inr, Bool, true, false, Option, some, List, arith, ◌==◌, if◌then◌else◌, Bool-cases,
  Option-cases, >>=-eq-some,
}
use virtual_gw.Common.Int.{ℤ}
use virtual_gw.Common.Result.{Exception}
use virtual_gw.Hl.Params.{Regexp}
use virtual_gw.Arp
use virtual_gw.Router
use virtual_gw.Vgw
use virtual_gw.Gateway.{Gateway, served_of, put_back, configured, handle}

when_true {ℓ} : {A : Type ℓ} (b : Bool) (x y z : A) → b ≡ true → (if b then x else y) ≡ z → x ≡ z
when_true true x y z e h = h
when_true false x y z e h = cc

configured_keeps :
    (g g' : Gateway) (time : ℤ) (packet : List ℕ) (e : Option Exception) (sent : List (List ℕ))
    → configured g time packet ≡ some (e, g', sent)
    → g'.dhcp_cln ≡ g.dhcp_cln
unfolding configured
configured_keeps g g' time packet e sent h =
    let (r, e1, h1) =
      >>=-eq-some (Arp.dispatch (Arp.set_ip g.router.arp_cln g.dhcp_cln.ip) packet) _ h in
    elim (Bool-cases r.2) [
      | inl yes' ↦ let h2 = rw yes' at h1 in ground arith
      | inr no' ↦
          let (routed, e2, h2) =
            >>=-eq-some (Router.dispatch (record g.router { arp_cln = r.0 }) time packet) _
              (rw no' at h1) in
          ground arith
    ]

-- A gateway that has its address keeps it: once configured, its DHCP client is the same after every
-- packet.
pub configured_for_good :
    (match : Regexp) (garbage : ℤ) (left : List ℕ) (request_id : ℕ) (time : ℤ) (g g' : Gateway)
    (packet : List ℕ) (e : Option Exception) (sent : List (List ℕ))
    → g.dhcp_cln.is_configured ≡ true
    → handle match garbage left request_id time g packet ≡ some (e, g', sent)
    → g'.dhcp_cln ≡ g.dhcp_cln
unfolding handle
configured_for_good match garbage left request_id time g g' packet e sent c h =
    let (r, e1, h1) =
      >>=-eq-some
        (Vgw.dispatch match garbage left request_id g.server_name g.dhcp_cln.ip (served_of g)
          packet)
        _ h in
    elim (Option-cases r.0) [
      | inr (x, thrown') ↦ let h2 = rw thrown' at h1 in ground arith
      | inl quiet' ↦
          let h2 = rw quiet' at h1 in
          elim (Bool-cases (r.3 == 0)) [
            | inr done' ↦ let h3 = rw done' at h2 in ground arith
            | inl open' ↦
                configured_keeps (put_back g r.1) g' time packet e sent
                  (when_true g.dhcp_cln.is_configured _ _ _ c (rw open' at h2))
          ]
    ]
