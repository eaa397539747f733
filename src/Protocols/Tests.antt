-- ===== src/Protocols/Tests.antt =====
-- Runs of the header code, and the laws at inputs that meet their hypotheses.
use virtual_gw.Common.{ℕ, ◌+◌, ◌-◌, ◌*◌, ◌≡◌, refl, some, List, [], ◌∷◌, ◌++◌, arith}
use virtual_gw.Common.Words.{bytes16}
use virtual_gw.Protocols.Checksum.{ip_csum, sum_words, finish}
use virtual_gw.Protocols.Checksum.Laws.{ones_sum, ip_csum-eq-ones_sum, ip_csum_verifies}

-- A well-known IPv4 header, with a zero checksum and split at it. Its checksum is b8 61.
abbrev header_pre : List ℕ
header_pre = 0x45 ∷ 0x00 ∷ 0x00 ∷ 0x73 ∷ 0x00 ∷ 0x00 ∷ 0x40 ∷ 0x00 ∷ 0x40 ∷ 0x11 ∷ []

abbrev header_post : List ℕ
header_post = 0xc0 ∷ 0xa8 ∷ 0x00 ∷ 0x01 ∷ 0xc0 ∷ 0xa8 ∷ 0x00 ∷ 0xc7 ∷ []

header_csum : ip_csum (header_pre ++ 0 ∷ 0 ∷ header_post) 20 ≡ some 0x61b8
unfolding ip_csum sum_words finish
header_csum = refl

ip_csum_verifies_example :
    ip_csum (header_pre ++ (bytes16 0x61b8 ++ header_post)) (2 * (5 + 1 + 4)) ≡ some 0
ip_csum_verifies_example =
    ip_csum_verifies 5 4 0x61b8 header_pre header_post refl refl (omega arith) header_csum

ip_csum-eq-ones_sum_example : ip_csum header_post (2 * 4) ≡ some (65535 - ones_sum 0 header_post)
ip_csum-eq-ones_sum_example = ip_csum-eq-ones_sum 4 header_post (omega arith) refl (omega arith)
