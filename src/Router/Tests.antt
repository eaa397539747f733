-- ===== src/Router/Tests.antt =====
-- Runs of the router, and its laws at inputs that meet their hypotheses.
use virtual_gw.Common.{
  ℕ, ◌≡◌, refl, true, false, some, List, [], ◌∷◌, ◌++◌, arith, ◌>>=◌, length, replicate,
  length-replicate,
}
use virtual_gw.Common.Int.{pos}
use virtual_gw.Common.Words.{read16, read32}
use virtual_gw.Protocols.Ethernet.{MacAddress}
use virtual_gw.Protocols.Ip.{ip_of_bytes}
use virtual_gw.Router.{dispatch, Router}
use virtual_gw.Arp
use virtual_gw.Dispatcher
use virtual_gw.Router.Laws.{packet, loaded, dispatch_forwards}

abbrev mac_of : ℕ → MacAddress
mac_of n = record { byte1 = 0; byte2 = 22; byte3 = 62; byte4 = 1; byte5 = 2; byte6 = n }

-- The router's static buffer.
buffer_bytes : (xs : List ℕ) × (length xs ≡ 65535)
buffer_bytes = (replicate 65535 0, length-replicate {A = ℕ} 65535 0)

-- A router that knows 10.0.0.2.
abbrev gateway : Router
gateway = record {
  arp_cln = record {
    ip = ip_of_bytes 10 0 0 1;
    mac = mac_of 1;
    arp_table = (ip_of_bytes 10 0 0 2, mac_of 2) ∷ [];
    reply_buffer = replicate 1024 0;
    request_buffer = replicate 1024 0;
  };
  fake_mac = mac_of 1;
  qm = record { nq_list = []; uid_base = pos 0; draws = 0; new_packet = false };
  buffer = buffer_bytes.0;
}

-- The rest of a UDP packet from 10.0.0.9 to 10.0.0.`n`.
abbrev rest_to : ℕ → List ℕ
rest_to n =
    8
    ∷ 0
    ∷ 0x45
    ∷ (replicate 8 0 ++ (17 ∷ 0 ∷ 0 ∷ 10 ∷ 0 ∷ 0 ∷ 9 ∷ 10 ∷ 0 ∷ 0 ∷ n ∷ 0 ∷ 80 ∷ 4 ∷ 1 ∷ []))

dispatch_forwards_example : dispatch gateway (pos 5) (packet (mac_of 1) (mac_of 9) (rest_to 2)) ≡ (
    Dispatcher.push gateway.qm (pos 5) (packet (mac_of 2) (mac_of 1) (rest_to 2)) >>= λ pushed.
    some (record (loaded gateway (mac_of 2) (rest_to 2)) { qm = pushed.1 }, pushed.0, true))
unfolding read16 read32 Arp.find
dispatch_forwards_example =
    dispatch_forwards gateway (pos 5) (mac_of 9) (mac_of 2) (rest_to 2) (ip_of_bytes 10 0 0 2)
      (omega (arith, buffer_bytes.1)) refl refl refl
