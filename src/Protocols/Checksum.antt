-- ===== src/Protocols/Checksum.antt =====
-- `ip_csum`, `udp_csum` and `tcp_csum` of src/protocols: the Internet checksum of RFC 1071 over
-- 16-bit words in memory order, with `unsigned long` as a 32-bit sum.
pub mod Laws
pub mod Closes
use virtual_gw.Common.{
  ℕ, zero, suc, ◌+◌, ◌-◌, ◌*◌, ◌/◌, ◌%◌, Option, none, some, List, [], ◌∷◌, ◌++◌, ◌>>=◌,
}
use virtual_gw.Common.Words.{add_u32, bytes16, bytes32, htons}
use virtual_gw.Protocols.Ip.{IpAddress, ipproto_udp, ipproto_tcp}

-- `for( ; nwords > 0; nwords-- ) sum += *buf++;` The pointer is the memory from it on; `none` is a
-- read past the end of the buffer.
unfoldable pub sum_words : List ℕ → ℕ → ℕ → Option ℕ
sum_words buf zero sum = some sum
sum_words [] (suc n) sum = none
sum_words (lo ∷ []) (suc n) sum = none
sum_words (lo ∷ hi ∷ buf) (suc n) sum = sum_words buf n (add_u32 sum (lo + hi * 256))

-- `sum = (sum >> 16) + (sum & 0xffff); sum += (sum >> 16); return (unsigned short)~sum;`
unfoldable pub finish : ℕ → ℕ
finish sum =
    let folded = add_u32 (sum / 65536) (sum % 65536) in
    65535 - add_u32 folded (folded / 65536) % 65536

unfoldable pub ip_csum : List ℕ → ℕ → Option ℕ
ip_csum buf nbytes = do sum ← sum_words buf (nbytes / 2) 0; some (finish sum)

-- `struct pseudo_hdr`, 12 bytes: both addresses, zero, the protocol, the length in network order.
abbrev pub pseudo_hdr : IpAddress → IpAddress → ℕ → ℕ → List ℕ
pseudo_hdr saddr daddr proto nbytes =
    bytes32 saddr ++ (bytes32 daddr ++ (0 ∷ proto ∷ bytes16 (htons nbytes)))

-- The body that `udp_csum` and `tcp_csum` share: the words of the pseudo header, then those of the
-- segment.
unfoldable pub segment_csum : ℕ → List ℕ → ℕ → IpAddress → IpAddress → Option ℕ
segment_csum proto buf nbytes saddr daddr = do
  sum ← sum_words (pseudo_hdr saddr daddr proto nbytes) 6 0
  sum ← sum_words buf (nbytes / 2) sum
  some (finish sum)

unfoldable pub udp_csum : List ℕ → ℕ → IpAddress → IpAddress → Option ℕ
udp_csum = segment_csum ipproto_udp

unfoldable pub tcp_csum : List ℕ → ℕ → IpAddress → IpAddress → Option ℕ
tcp_csum = segment_csum ipproto_tcp
