-- ===== src/Common/Words.antt =====
-- Unsigned words on a little-endian machine with a 32-bit `size_t`: `unsigned short`, `unsigned
-- long` and `size_t` are numbers below 2 ^ 16, 2 ^ 32 and 2 ^ 32.
use Prim.Native.Nat.{
  zero, suc, min, digits, bit_and, bit_and-bitwise, ℕ, ◌≤◌, ◌+◌, ◌-◌, ◌*◌, ◌/◌, ◌%◌, ◌^◌, ◌<◌,
}
use mathlib.Core.Path.{◌≡◌, refl, ◌∙◌}
use mathlib.Core.List.{List, [], ◌∷◌}
use mathlib.Core.Option.{Option, some}
use native.Mathlib.Omega.{arith}
use virtual_gw.Common.Tests.{◌>>=◌, >>=-eq-some}
use virtual_gw.Common.Lists.{length, get_elem?, get_or, get_elem?-eq-get_or}

-- Addition and subtraction of `size_t` and `unsigned long`.
abbrev pub add_u32 : ℕ → ℕ → ℕ
add_u32 a b = (a + b) % 2 ^ 32

abbrev pub sub_u32 : ℕ → ℕ → ℕ
sub_u32 a b = (a + 2 ^ 32 - b) % 2 ^ 32

-- The bytes of a word in memory, lowest first.
abbrev pub bytes16 : ℕ → List ℕ
bytes16 w = w % 256 ∷ w / 256 % 256 ∷ []

abbrev pub bytes32 : ℕ → List ℕ
bytes32 w = w % 256 ∷ w / 256 % 256 ∷ w / 65536 % 256 ∷ w / 16777216 % 256 ∷ []

-- `htons` and `ntohs`, `htonl` and `ntohl`: the bytes in the other order.
abbrev pub htons : ℕ → ℕ
htons w = w % 256 * 256 + w / 256 % 256

abbrev pub htonl : ℕ → ℕ
htonl w = w % 256 * 16777216 + w / 256 % 256 * 65536 + w / 65536 % 256 * 256 + w / 16777216 % 256

pub htons_inv : (w : ℕ) → w < 2 ^ 16 → htons (htons w) ≡ w
htons_inv w h = omega arith

-- Reads of an area of memory; `none` is a read past its end.
abbrev pub read8 : List ℕ → ℕ → Option ℕ
read8 = get_elem?

unfoldable pub read16 : List ℕ → ℕ → Option ℕ
read16 m off = do a ← read8 m off; b ← read8 m (off + 1); some (a + b * 256)

unfoldable pub read32 : List ℕ → ℕ → Option ℕ
read32 m off = do
  a ← read8 m off
  b ← read8 m (off + 1)
  c ← read8 m (off + 2)
  d ← read8 m (off + 3)
  some (a + b * 256 + c * 65536 + d * 16777216)

-- A read inside the area gives a value.
pub read8_in : (p : List ℕ) (off : ℕ) → off < length p → (v : ℕ) × (read8 p off ≡ some v)
read8_in p off h = (get_or p off 0, get_elem?-eq-get_or p off 0 h)

pub read16_in : (p : List ℕ) (off : ℕ) → off + 2 ≤ length p → (v : ℕ) × (read16 p off ≡ some v)
unfolding read16
read16_in p off h =
    let (a, ea) = read8_in p off (omega arith) in
    let (b, eb) = read8_in p (off + 1) (omega arith) in (a + b * 256, rw (ea, eb))

pub read32_in : (p : List ℕ) (off : ℕ) → off + 4 ≤ length p → (v : ℕ) × (read32 p off ≡ some v)
unfolding read32
read32_in p off h =
    let (a, ea) = read8_in p off (omega arith) in
    let (b, eb) = read8_in p (off + 1) (omega arith) in
    let (c, ec) = read8_in p (off + 2) (omega arith) in
    let (d, ed) = read8_in p (off + 3) (omega arith) in
    (a + b * 256 + c * 65536 + d * 16777216, rw (ea, eb, ec, ed))

-- A word written and read again.
pub bytes32_inv :
    (w : ℕ)
    → w < 2 ^ 32
    → w % 256 + w / 256 % 256 * 256 + w / 65536 % 256 * 65536 + w / 16777216 % 256 * 16777216 ≡ w
bytes32_inv w h = omega arith

-- Every item is a byte.
abbrev pub Bytes : List ℕ → Type 0
Bytes [] = Unit {0}
Bytes (b ∷ bs) = (b < 256) × Bytes bs

pub read8-lt : (p : List ℕ) (off w : ℕ) → Bytes p → read8 p off ≡ some w → w < 256
read8-lt [] off w h e = cc
read8-lt (b ∷ p) zero w h e = ground arith
read8-lt (b ∷ p) (suc off) w h e = read8-lt p off w h.1 e

pub read16-lt : (p : List ℕ) (off w : ℕ) → Bytes p → read16 p off ≡ some w → w < 2 ^ 16
unfolding read16
read16-lt p off w h e =
    let (a, ea, e1) = >>=-eq-some (read8 p off) _ e in
    let (b, eb, e2) = >>=-eq-some (read8 p (off + 1)) _ e1 in
    ground (arith, read8-lt p off a h ea, read8-lt p (off + 1) b h eb)

-- `x & 0`
digits-zero : (n a : ℕ) → digits (λ b. zero) min n a 0 ≡ 0
digits-zero zero a = refl
digits-zero (suc n) zero = refl
digits-zero (suc n) (suc a) = omega (arith, digits-zero n (suc a / 2))

pub bit_and-zero : (a : ℕ) → bit_and a 0 ≡ 0
bit_and-zero a = bit_and-bitwise a 0 ∙ digits-zero a a
