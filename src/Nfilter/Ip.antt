-- ===== src/Nfilter/Ip.antt =====
-- `ip_filter` of src/nfilter.h, with the constructor `ip_address(const char*)` of src/protocols/ip.h.
use virtual_gw.Common.{
  ℕ, ◌*◌, ◌%◌, ◌^◌, Bool, false, Option, none, some, [], ◌∷◌, ◌++◌, ◌==◌, if◌then◌else◌, ◌>>=◌,
}
use virtual_gw.Common.Int.{pos, eqb_ℤ}
use virtual_gw.Common.Words.{htonl}
use virtual_gw.Protocols.Ip.{IpAddress, ip_of_bytes}
use virtual_gw.Common.Text.{Text, codes, is_digit, leading_number, atoi}
use Prim.Native.Nat.{bit_and}
use virtual_gw.Common.Result.{Result, ok, thrown, text, bind}
use virtual_gw.Hl.Params.{Regexp, read_text}

-- `ip` and `mask` as the 32 bits of an `int`.
pub record IpFilter : Type 0 where
  pub id : Text
  pub ip : IpAddress
  pub mask : ℕ

abbrev pub default_ip_filter : IpFilter
default_ip_filter = record { id = []; ip = 0; mask = 0 }

-- What follows the leading digits.
unfoldable pub skip_digits : Text → Text
skip_digits [] = []
skip_digits (c ∷ s) = let rest = skip_digits s in if is_digit c then rest else c ∷ s

-- `%d` of `sscanf_s` at a digit; and a `.` that must follow.
unfoldable pub scan_number : Text → Option (ℕ × Text)
scan_number [] = none
scan_number (c ∷ s) =
    if is_digit c then some (leading_number 0 (c ∷ s), skip_digits (c ∷ s)) else none

unfoldable pub scan_dot : Text → Option Text
scan_dot [] = none
scan_dot (c ∷ s) = if c == b'.' then some s else none

-- `ip_address( const char* a )`: four numbers separated by dots, `none` where it throws. Each number
-- goes through an `int*` to its byte of the union, so that its lowest byte stays there.
unfoldable pub scan_ip : Text → Option IpAddress
unfolding scan_number scan_dot
scan_ip a = do
  n1 ← scan_number a
  s1 ← scan_dot n1.1
  n2 ← scan_number s1
  s2 ← scan_dot n2.1
  n3 ← scan_number s2
  s3 ← scan_dot n3.1
  n4 ← scan_number s3
  some (ip_of_bytes (n1.0 % 256) (n2.0 % 256) (n3.0 % 256) (n4.0 % 256))

-- `mask <<= 32 - (atoi(_mask.c_str()) && 0x1F)` from 0xFFFFFFFF, then `ntohl`. The operator `&&` has
-- the value 1 or 0. A shift by 32 is undefined; the machine takes the count modulo 32.
unfoldable pub prefix_mask : Text → ℕ
prefix_mask mask =
    let count = if eqb_ℤ (atoi mask) (pos 0) then 32 else 31 in
    htonl (0xFFFFFFFF * 2 ^ (count % 32) % 2 ^ 32)

-- The constructor with an option text.
unfoldable pub new_ip_filter : Regexp → Text → Text → Result IpFilter
new_ip_filter match id opt =
    bind (read_text match opt (id ++ codes " +([0-9]+.[0-9]+.[0-9]+.[0-9]+)") [] false) λ r.
      (if r.0
        then (elim (scan_ip r.1) [
          | none ↦ thrown text
          | some ip ↦
              bind
                (read_text match opt (id ++ codes " +[0-9]+.[0-9]+.[0-9]+.[0-9]+/([0-9]+)") []
                  false)
                λ m.
                  ok (record {
                    id = id;
                    ip = ip;
                    mask = if m.0 then prefix_mask m.1 else 0xFFFFFFFF;
                  })
        ])
        else ok (record { id = id; ip = 0; mask = 0 }))

-- `test`
unfoldable pub ip_test : IpFilter → IpAddress → Bool
ip_test f ip = bit_and ip f.mask == bit_and f.ip f.mask
