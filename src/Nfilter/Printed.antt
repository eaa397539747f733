-- ===== src/Nfilter/Printed.antt =====
-- `ip_address::c_str` of src/protocols/ip.h, and its text read by the constructor again.
use virtual_gw.Common.Decimal.{
  length-digits_on, digits_on, decimal, all_digits, no_digit, dotted, leading_number-decimal,
  all_digits-digits_on,
}
use virtual_gw.Common.{
  ℕ, suc, ◌+◌, ◌*◌, ◌/◌, ◌%◌, ◌^◌, ◌<◌, ◌≡◌, refl, sym, ap, ◌∙◌, true, some, [], ◌∷◌, ◌++◌, arith,
  length,
}
use virtual_gw.Common.Words.{bytes32_inv}
use virtual_gw.Protocols.Ip.{IpAddress}
use virtual_gw.Common.Text.{Text, leading_number}
use mathlib.Core.List.{append-nil}
use virtual_gw.Nfilter.Ip.{skip_digits, scan_number, scan_dot, scan_ip}

-- `c_str`, up to the null byte.
unfoldable pub c_str : IpAddress → Text
c_str ip = dotted (ip % 256) (ip / 256 % 256) (ip / 65536 % 256) (ip / 16777216 % 256)

skip_digits-append :
    (s t : Text) → all_digits s ≡ true → no_digit t ≡ true → skip_digits (s ++ t) ≡ t
unfolding skip_digits all_digits
skip_digits-append [] [] h k = refl
skip_digits-append [] (c ∷ t) h k = ground arith
skip_digits-append (c ∷ s) t h k = ground (arith, skip_digits-append s t)

scan_number-digits :
    (s t : Text)
    → all_digits s ≡ true
    → 0 < length s
    → no_digit t ≡ true
    → scan_number (s ++ t) ≡ some (leading_number 0 (s ++ t), t)
unfolding scan_number all_digits
scan_number-digits [] t h l k = absurd (omega arith)
scan_number-digits (c ∷ s) t h l k = rw (skip_digits-append (c ∷ s) t h k) (ground arith)

scan_number-decimal :
    (n : ℕ) (t : Text) → no_digit t ≡ true → scan_number (decimal n ++ t) ≡ some (n, t)
unfolding decimal
scan_number-decimal n t h =
    scan_number-digits (digits_on (suc n) n) t (all_digits-digits_on (suc n) n)
      (length-digits_on (suc n) n (omega arith)) h
    ∙ ap (λ m. some (m, t)) (leading_number-decimal n t h)

scan_number-decimal_end : (n : ℕ) → scan_number (decimal n) ≡ some (n, [])
scan_number-decimal_end n =
    ap scan_number (sym (append-nil (decimal n))) ∙ scan_number-decimal n [] refl

pub scan_ip-dotted :
    (a b c d : ℕ)
    → a < 256
    → b < 256
    → c < 256
    → d < 256
    → scan_ip (dotted a b c d) ≡ some (a + b * 256 + c * 65536 + d * 16777216)
unfolding scan_ip scan_dot dotted
scan_ip-dotted a b c d ha hb hc hd =
    rw
      (
        scan_number-decimal a (b'.' ∷ (decimal b ++ b'.' ∷ (decimal c ++ b'.' ∷ decimal d))) refl,
        scan_number-decimal b (b'.' ∷ (decimal c ++ b'.' ∷ decimal d)) refl,
        scan_number-decimal c (b'.' ∷ decimal d) refl,
        scan_number-decimal_end d,
      )
      (ap some (omega arith))

-- The text that `c_str` gives of an address of 32 bits is read back as that address.
pub scan_ip-c_str : (ip : IpAddress) → ip < 2 ^ 32 → scan_ip (c_str ip) ≡ some ip
unfolding c_str
scan_ip-c_str ip h =
    scan_ip-dotted (ip % 256) (ip / 256 % 256) (ip / 65536 % 256) (ip / 16777216 % 256)
      (omega arith) (omega arith) (omega arith) (omega arith)
    ∙ ap some (bytes32_inv ip h)
