-- ===== src/Gateway/Tests.antt =====
-- Runs of the loop, and its laws at inputs that meet their hypotheses.
mod Together
use virtual_gw.Common.{ℕ, ◌≡◌, refl, true, false, none, some, List, [], ◌∷◌, ◌++◌, arith, replicate}
use virtual_gw.Common.Int.{pos}
use virtual_gw.Common.Words.{read16, read32}
use virtual_gw.Protocols.Ethernet.{mac_eq, read_mac, MacAddress}
use virtual_gw.Protocols.Ip.{ip_of_bytes}
use virtual_gw.Common.Text.{codes}
use virtual_gw.Gateway.{configured, handle, Gateway}
use virtual_gw.Hl.Params.{Regexp}
use virtual_gw.Arp
use mathlib.Core.List.{Sublistᴰ}
use virtual_gw.Dispatcher
use virtual_gw.Dispatcher.{offer}
use virtual_gw.Dispatcher.Thread.{System, at_test}
use virtual_gw.Dispatcher.Atomic.History.{Did}
use virtual_gw.Gateway.Operates.{beside}
use virtual_gw.Gateway.Histories.{run-Operated, Readdressed, packets_of}
use virtual_gw.Router
use virtual_gw.Vgw
use virtual_gw.Dhcp.{send_packet, dhcprelease}
use virtual_gw.Dhcp.Frames.{IsMac}
use virtual_gw.Gateway.Main.{
  Event, read_packet, read_nothing, read_failed, console, running, left_loop, run_loop, unless,
  carry_on, behind, leave,
}
use virtual_gw.Gateway.Runs.{run_returns_lease}
use virtual_gw.Gateway.Stops.{console_stops}

abbrev card : MacAddress
card = record { byte1 = 0; byte2 = 22; byte3 = 62; byte4 = 1; byte5 = 2; byte6 = 3 }

abbrev gateway : Gateway
gateway = record {
  dhcp_cln = record { mask = 0; ip = 7; server = 9; is_configured = true; mac = card; xid = 5 };
  router = record {
    arp_cln = record { ip = 0; mac = card; arp_table = []; reply_buffer = []; request_buffer = [] };
    fake_mac = card;
    qm = record { nq_list = []; uid_base = pos 0; draws = 0; new_packet = false };
    buffer = [];
  };
  server_name = codes "mine";
  ctrl_break_pressed = false;
}

abbrev pub no_match : Regexp
no_match pattern subject = none

-- A packet that is not IPv4 and passes all parts, and a time without one.
abbrev quiet : List Event
quiet = read_packet (pos 0) [] 1 (pos 5) (replicate 60 0) ∷ read_nothing ∷ []

stays : (g : Gateway) × (run_loop no_match quiet gateway ≡ some (running, g, []))
unfolding run_loop unless carry_on behind handle configured Vgw.dispatch Arp.dispatch Arp.set_ip
    Router.dispatch read16
stays = (_, refl)

fails :
    (g : Gateway) × (run_loop no_match (quiet ++ read_failed ∷ []) gateway
      ≡ some (left_loop, g, []))
unfolding run_loop unless carry_on behind handle configured Vgw.dispatch Arp.dispatch Arp.set_ip
    Router.dispatch read16
fails = (_, refl)

card-IsMac : IsMac card
card-IsMac = record {
  byte1_fits = omega arith;
  byte2_fits = omega arith;
  byte3_fits = omega arith;
  byte4_fits = omega arith;
  byte5_fits = omega arith;
  byte6_fits = omega arith;
}

run_returns_lease_example :
    (frame : List ℕ) × (send_packet gateway.dhcp_cln dhcprelease ≡ some frame)
    × (leave left_loop fails.0.dhcp_cln
        ≡ some (record gateway.dhcp_cln { is_configured = false }, frame ∷ []))
run_returns_lease_example =
    run_returns_lease no_match (quiet ++ read_failed ∷ []) gateway fails.0 left_loop [] refl
      card-IsMac fails.1 (λ q. cc)

console_stops_example :
    run_loop no_match (quiet ++ console 2 ∷ read_nothing ∷ quiet) gateway
    ≡ some (left_loop, record stays.0 { ctrl_break_pressed = true }, [])
console_stops_example =
    console_stops no_match quiet quiet 2 read_nothing gateway stays.0 [] stays.1 refl refl

-- A gateway that knows 10.0.0.2, and a packet to it.
abbrev pub knowing : Gateway
knowing = record gateway {
  router = record gateway.router {
    arp_cln = record gateway.router.arp_cln {
      arp_table = (ip_of_bytes 10 0 0 2, record card { byte6 = 9 }) ∷ [];
    };
    buffer = replicate 100 0;
  };
}

abbrev crossing : List ℕ
crossing =
    0
    ∷ 22
    ∷ 62
    ∷ 1
    ∷ 2
    ∷ 3
    ∷ (replicate 6 7
        ++ (8
            ∷ 0
            ∷ 0x45
            ∷ (replicate 8 0 ++ (1 ∷ 0 ∷ 0 ∷ 10 ∷ 0 ∷ 0 ∷ 9 ∷ 10 ∷ 0 ∷ 0 ∷ 2 ∷ replicate 26 0))))

abbrev pub forwarding : List Event
forwarding =
    read_packet (pos 0) [] 1 (pos 5) (replicate 60 0)
    ∷ read_packet (pos 0) [] 2 (pos 6) crossing
    ∷ []

forwards :
    (g : Gateway) × (frame : List ℕ) × (run_loop no_match forwarding knowing
      ≡ some (running, g, frame ∷ []))
unfolding run_loop unless carry_on behind handle configured Vgw.dispatch Arp.dispatch Arp.set_ip
    Router.dispatch Router.resolve Router.forward Arp.find Arp.get_mac Dispatcher.push offer read16
    read32 read_mac mac_eq
forwards = (_, _, refl)

abbrev still : System
still = record {
  dispatcher = knowing.router.qm;
  prev_time = pos 0;
  should_stop = false;
  phase = at_test;
}

run-Operated_example :
    (out : List (List ℕ)) × (got : List (List ℕ)) × Did no_match
      (λ i. i)
      (beside still knowing.router.qm)
      (beside still forwards.0.router.qm)
      out
      got
    × Sublistᴰ out (forwards.1 ∷ [])
    × Readdressed got (packets_of forwarding)
run-Operated_example =
    run-Operated no_match (λ i. i) still forwarding knowing (running, forwards.0, forwards.1 ∷ [])
      forwards.2
