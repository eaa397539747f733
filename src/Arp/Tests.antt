-- ===== src/Arp/Tests.antt =====
-- Runs of the ARP client, and its laws at inputs that meet their hypotheses.
use virtual_gw.Common.{
  ℕ, ◌≡◌, refl, true, none, some, [], ◌∷◌, ◌++◌, arith, ◌==◌, if◌then◌else◌, replicate,
  length-replicate,
}
use virtual_gw.Common.Words.{read16, read32}
use virtual_gw.Arp.{Frame, find, dispatch, get_mac, ArpClient}
use virtual_gw.Protocols.Ethernet.{broadcast_mac, read_mac, MacAddress}
use virtual_gw.Protocols.Ip.{ip_of_bytes}
use virtual_gw.Arp.Frames.{IsValid, wire}
use virtual_gw.Arp.Laws.{dispatch_learns, get_mac_resolves}

abbrev mac_of : ℕ → MacAddress
mac_of n = record { byte1 = 0; byte2 = 22; byte3 = 62; byte4 = 1; byte5 = 2; byte6 = n }

abbrev client_of : ℕ → ArpClient
client_of n = record {
  ip = ip_of_bytes 10 0 0 n;
  mac = mac_of n;
  arp_table = [];
  reply_buffer = replicate 1024 0;
  request_buffer = replicate 1024 0;
}

client-IsValid : (n : ℕ) → IsValid (client_of n)
client-IsValid n = record {
  reply_size = length-replicate {A = ℕ} 1024 0;
  request_size = length-replicate {A = ℕ} 1024 0;
}

abbrev alice : ArpClient
alice = client_of 1

abbrev bob : ArpClient
bob = client_of 2

get_mac_resolves_example :
    (request : Frame) × (reply : Frame) × (a' : ArpClient) × (b' : ArpClient) × (a'' : ArpClient)
    × (get_mac alice bob.ip ≡ (a', request ∷ [], none))
    × (dispatch bob (request ++ replicate 18 0) ≡ some (b', reply ∷ [], true))
    × (dispatch a' (reply ++ replicate 18 0) ≡ some (a'', [], true))
    × (get_mac a'' bob.ip ≡ (a'', [], some bob.mac))
unfolding find
get_mac_resolves_example =
    get_mac_resolves alice bob (replicate 18 0) (replicate 18 0) (client-IsValid 1)
      (client-IsValid 2) (omega arith) (omega arith) refl

-- A reply of Bob's, and a request of Alice's for an address that is not Bob's.
abbrev bob_reply : Frame
bob_reply = wire bob 2 alice.mac alice.ip

abbrev other_request : Frame
other_request = wire alice 1 broadcast_mac (ip_of_bytes 10 0 0 9)

dispatch_learns_example :
    (c' : ArpClient) × (dispatch alice bob_reply ≡ some (c', [], true))
    × (find bob.ip c'.arp_table
        ≡ (if bob.ip == bob.ip then some bob.mac else find bob.ip alice.arp_table))
    × (c'.ip ≡ alice.ip)
    × (c'.mac ≡ alice.mac)
unfolding read16 read32 read_mac
dispatch_learns_example = dispatch_learns alice bob_reply bob.mac bob.ip bob.ip refl refl refl refl
