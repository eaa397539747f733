-- ===== src/Gateway.antt =====
-- The loop of `main` in src/gate_way.cpp: which part sees a packet, in which order.
pub mod CtrlBreak
pub mod Task
pub mod Main
pub mod Laws
pub mod Operates
pub mod Histories
pub mod Together
pub mod Alone
pub mod Runs
pub mod Stops
mod Tests
use virtual_gw.Common.{ℕ, Bool, not, Option, none, some, List, ◌++◌, ◌==◌, if◌then◌else◌, ◌>>=◌}
use virtual_gw.Common.Int.{ℤ}
use virtual_gw.Common.Text.{Text}
use virtual_gw.Common.Result.{Exception}
use virtual_gw.Hl.Params.{Regexp}
use virtual_gw.Dhcp.{DhcpClient}
use virtual_gw.Dhcp
use virtual_gw.Arp
use virtual_gw.Router.{Router}
use virtual_gw.Router
use virtual_gw.Vgw.{Served}
use virtual_gw.Vgw

-- The objects of `main`: the ARP client and the queues stand in the router.
pub record Gateway : Type 0 where
  pub dhcp_cln : DhcpClient
  pub router : Router
  pub server_name : Text
  pub ctrl_break_pressed : Bool

-- What the configuration server works on, and the gateway with it put back.
abbrev pub served_of : Gateway → Served
served_of g = record { nq_list = g.router.qm.nq_list; ctrl_break_pressed = g.ctrl_break_pressed }

abbrev pub put_back : Gateway → Served → Gateway
put_back g s = record g {
  router = record g.router { qm = record g.router.qm { nq_list = s.nq_list } };
  ctrl_break_pressed = s.ctrl_break_pressed;
}

-- A round of the loop: the exception that ends it, the gateway, the frames sent.
abbrev pub Handled : Type 0
Handled = Option Exception × Gateway × List (List ℕ)

-- The part for a gateway that has no address yet.
unfoldable pub unconfigured : Gateway → List ℕ → Option Handled
unconfigured g packet = do
  r ← Dhcp.dispatch g.dhcp_cln packet
  some (none, record g { dhcp_cln = r.0 }, r.1)

-- The part for a gateway that has one.
unfoldable pub configured : Gateway → ℤ → List ℕ → Option Handled
configured g time packet = do
  let arp_cln = Arp.set_ip g.router.arp_cln g.dhcp_cln.ip
  r ← Arp.dispatch arp_cln packet
  let g' = record g { router = record g.router { arp_cln = r.0 } }
  if r.2 then some (none, g', r.1) else (do
    routed ← Router.dispatch g'.router time packet
    some (none, record g' { router = routed.0 }, r.1 ++ routed.1))

-- The body of the loop for a packet. `garbage`, `left` and `request_id` are those of `Vgw.dispatch`.
unfoldable pub handle : Regexp → ℤ → List ℕ → ℕ → ℤ → Gateway → List ℕ → Option Handled
handle match garbage left request_id time g packet = do
  r ← Vgw.dispatch match garbage left request_id g.server_name g.dhcp_cln.ip (served_of g) packet
  let g' = put_back g r.1
  elim r.0 [
    | some e ↦ some (some e, g', r.2)
    | none ↦
        (if not (r.3 == 0)
          then some (none, g', r.2)
          else if g'.dhcp_cln.is_configured
          then configured g' time packet
          else unconfigured g' packet)
  ]
