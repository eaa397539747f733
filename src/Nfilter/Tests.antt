-- ===== src/Nfilter/Tests.antt =====
-- Runs of the filters, and their laws at inputs that meet their hypotheses.
use virtual_gw.Common.{
  ℕ, ◌≡◌, refl, ap, ◌↔◌, Bool, true, none, some, List, [], ◌∷◌, ◌++◌, arith, ◌==◌, if◌then◌else◌,
  replicate,
}
use virtual_gw.Common.Int.{pos_part, wrap}
use virtual_gw.Protocols.Ip.{IpAddress, ip_of_bytes}
use virtual_gw.Common.Text.{Text, codes, text_eq, leading_number, atoi}
use virtual_gw.Nfilter.{default_filter, accepts}
use virtual_gw.Nfilter.Printed.{c_str, scan_ip-c_str}
use virtual_gw.Common.Result.{ok}
use virtual_gw.Hl.Params.{Regexp, Groups}
use virtual_gw.Nfilter.Ip.{
  IpFilter, new_ip_filter, ip_test, scan_ip, scan_number, scan_dot, skip_digits,
}
use virtual_gw.Nfilter.Laws.{prefix_length_ignored}
use virtual_gw.Nfilter.Accepts.{Fields, Passes, accepts_iff}
use Prim.Native.Nat.{bit_and}

-- A matcher that knows four pairs of a pattern and a text.
abbrev group : Text → Groups
group g i = g

abbrev match : Regexp
match pattern subject =
    if text_eq subject (codes "sport 80")
    then (if text_eq pattern (codes "sport +([0-9]+)") then some (group (codes "80")) else none)
    else if text_eq subject (codes "sport 1-256")
    then (if text_eq pattern (codes "sport +([0-9]+)")
        then some (group (codes "1"))
        else if text_eq pattern (codes "sport +[0-9]+-([0-9]+)")
        then some (group (codes "256"))
        else none)
    else if text_eq pattern (codes "sip +([0-9]+.[0-9]+.[0-9]+.[0-9]+)")
    then some (group (codes "10.0.0.1"))
    else if text_eq pattern (codes "sip +[0-9]+.[0-9]+.[0-9]+.[0-9]+/([0-9]+)")
    then some (group (codes "24"))
    else none

prefix_length_ignored_example :
    (f : IpFilter) × (new_ip_filter match (codes "sip") (codes "sip 10.0.0.1/24") ≡ ok f)
    × ((addr : IpAddress)
        → ip_test f addr ≡ (bit_and addr 128 == bit_and (ip_of_bytes 10 0 0 1) 128))
unfolding scan_ip scan_number scan_dot text_eq skip_digits leading_number atoi wrap
prefix_length_ignored_example =
    prefix_length_ignored match (codes "sip") (codes "sip 10.0.0.1/24") (group (codes "10.0.0.1"))
      (group (codes "24")) (ip_of_bytes 10 0 0 1) refl refl refl (λ e. omega (arith, ap pos_part e))

-- A UDP packet from 10.0.0.1:80 to 10.0.0.2:1025.
abbrev udp_packet : List ℕ
udp_packet =
    replicate 12 0
    ++ (8
        ∷ 0
        ∷ 0x45
        ∷ (replicate 8 0 ++ (17 ∷ 0 ∷ 0 ∷ 10 ∷ 0 ∷ 0 ∷ 1 ∷ 10 ∷ 0 ∷ 0 ∷ 2 ∷ 0 ∷ 80 ∷ 4 ∷ 1 ∷ [])))

accepts_iff_example :
    (x : Fields udp_packet 0x45) × (answer : Bool) × (accepts default_filter udp_packet
      ≡ some answer)
    × ((answer ≡ true) ↔ Passes default_filter x)
accepts_iff_example = accepts_iff default_filter udp_packet 0x45 refl (omega arith) (omega arith)

scan_ip-c_str_example : scan_ip (c_str 0x0100007F) ≡ some 0x0100007F
scan_ip-c_str_example = scan_ip-c_str 0x0100007F (omega arith)
