-- ===== src/Common/Int.antt =====
-- The C++ type `int`, 32 bits in two's complement: an integer, wrapped after each operation.
use Prim.Native.Nat.{ℕ, suc, ◌+◌, ◌-◌, ◌*◌, ◌/◌, ◌%◌, ◌^◌, ◌≤◌, ◌<◌}
use mathlib.Core.Path.{◌≡◌, refl}
use mathlib.Core.Logic.{◌⊎◌, inl, inr}
use mathlib.Core.Bool.{Bool}
use native.Mathlib.Omega.{arith}
use virtual_gw.Common.Tests.{ltb, leb, ◌==◌, if◌then◌else◌}

-- `negsuc n` is -(n + 1).
pub data ℤ : Type 0 where
  pos : ℕ → ℤ
  negsuc : ℕ → ℤ

abbrev pub pos_part : ℤ → ℕ
pos_part (pos n) = n
pos_part (negsuc n) = 0

abbrev pub neg_part : ℤ → ℕ
neg_part (pos n) = 0
neg_part (negsuc n) = suc n

-- a - b, as an integer.
abbrev pub sub_ℕ : ℕ → ℕ → ℤ
sub_ℕ a b = if leb b a then pos (a - b) else negsuc (b - a - 1)

infixl 65 ◌+ℤ◌ ◌-ℤ◌
infixl 70 ◌*ℤ◌
infix 50 ◌≤ℤ◌ ◌<ℤ◌
unfoldable pub ◌+ℤ◌ : ℤ → ℤ → ℤ
a +ℤ b = sub_ℕ (pos_part a + pos_part b) (neg_part a + neg_part b)

unfoldable pub ◌-ℤ◌ : ℤ → ℤ → ℤ
a -ℤ b = sub_ℕ (pos_part a + neg_part b) (neg_part a + pos_part b)

unfoldable pub ◌*ℤ◌ : ℤ → ℤ → ℤ
a *ℤ b =
    sub_ℕ (pos_part a * pos_part b + neg_part a * neg_part b)
      (pos_part a * neg_part b + neg_part a * pos_part b)

abbrev pub ◌≤ℤ◌ : ℤ → ℤ → Type 0
a ≤ℤ b = pos_part a + neg_part b ≤ pos_part b + neg_part a

abbrev pub ◌<ℤ◌ : ℤ → ℤ → Type 0
a <ℤ b = pos_part a + neg_part b < pos_part b + neg_part a

-- The comparisons `a < b`, `a <= b`, `a == b` on `int`.
abbrev pub ltb_ℤ : ℤ → ℤ → Bool
ltb_ℤ a b = ltb (pos_part a + neg_part b) (pos_part b + neg_part a)

abbrev pub leb_ℤ : ℤ → ℤ → Bool
leb_ℤ a b = leb (pos_part a + neg_part b) (pos_part b + neg_part a)

abbrev pub eqb_ℤ : ℤ → ℤ → Bool
eqb_ℤ a b = (pos_part a + neg_part b) == (pos_part b + neg_part a)

pub +ℤ_parts :
    (a b : ℤ)
    → pos_part (a +ℤ b) + neg_part a + neg_part b ≡ neg_part (a +ℤ b) + pos_part a + pos_part b
unfolding ◌+ℤ◌
+ℤ_parts a b = ground arith

pub -ℤ_parts :
    (a b : ℤ)
    → pos_part (a -ℤ b) + neg_part a + pos_part b ≡ neg_part (a -ℤ b) + pos_part a + neg_part b
unfolding ◌-ℤ◌
-ℤ_parts a b = ground arith

pub eq_of_parts : (a b : ℤ) → pos_part a + neg_part b ≡ pos_part b + neg_part a → a ≡ b
eq_of_parts a b h = ground arith

pub ruleset int_laws = (arith, +ℤ_parts, -ℤ_parts, eq_of_parts)

-- The 32 bits of an integer, and the `int` that 32 bits stand for.
abbrev pub bits32 : ℤ → ℕ
bits32 (pos n) = n % 2 ^ 32
bits32 (negsuc n) = 2 ^ 32 - 1 - n % 2 ^ 32

abbrev pub signed32 : ℕ → ℤ
signed32 w = if ltb w (2 ^ 31) then pos w else negsuc (2 ^ 32 - 1 - w)

unfoldable pub wrap : ℤ → ℤ
wrap z = signed32 (bits32 z)

-- The integers that an `int` holds.
abbrev pub InInt : ℤ → Type 0
InInt z = (pos_part z < 2 ^ 31) × (neg_part z ≤ 2 ^ 31)

pub wrap_id : (z : ℤ) → InInt z → wrap z ≡ z
unfolding wrap
wrap_id z h = ground arith

pub wrap-InInt : (z : ℤ) → InInt (wrap z)
unfolding wrap
wrap-InInt z = ground arith

abbrev pub add_int : ℤ → ℤ → ℤ
add_int a b = wrap (a +ℤ b)

abbrev pub sub_int : ℤ → ℤ → ℤ
sub_int a b = wrap (a -ℤ b)

abbrev pub mul_int : ℤ → ℤ → ℤ
mul_int a b = wrap (a *ℤ b)

-- `a / b` and `a % b` round towards zero; the code never divides by 0.
unfoldable pub div_int : ℤ → ℤ → ℤ
div_int a b = wrap (
    sub_ℕ (pos_part a / pos_part b + neg_part a / neg_part b)
      (pos_part a / neg_part b + neg_part a / pos_part b))

unfoldable pub mod_int : ℤ → ℤ → ℤ
mod_int a b =
    sub_ℕ (pos_part a % (pos_part b + neg_part b)) (neg_part a % (pos_part b + neg_part b))

-- `abs`: the least `int` is its own absolute value.
unfoldable pub abs_int : ℤ → ℤ
abs_int a = if ltb_ℤ a (pos 0) then sub_int (pos 0) a else a

-- The macro `min` of windows.h.
abbrev pub min_int : ℤ → ℤ → ℤ
min_int a b = if ltb_ℤ a b then a else b

-- On numbers that an `int` holds, and with a result that it holds, the operations are those of ℕ.
pub sub_int-pos : (a b : ℕ) → b ≤ a → a < 2 ^ 31 → sub_int (pos a) (pos b) ≡ pos (a - b)
unfolding wrap ◌-ℤ◌
sub_int-pos a b h k = ground arith

pub add_int-pos : (a b : ℕ) → a + b < 2 ^ 31 → add_int (pos a) (pos b) ≡ pos (a + b)
unfolding wrap ◌+ℤ◌
add_int-pos a b h = ground arith

pub mod_int-pos : (a b : ℕ) → mod_int (pos a) (pos b) ≡ pos (a % b)
unfolding mod_int
mod_int-pos a b = ground arith

-- Wrapping can only lower an integer that is not below the range, and keeps one that is not above it
-- from falling.
pub wrap-le : (z : ℤ) → neg_part z ≤ 2 ^ 31 → wrap z ≤ℤ z
unfolding wrap
wrap-le z h = ground arith

pub mul_int-pos : (a b : ℕ) → a * b < 2 ^ 31 → mul_int (pos a) (pos b) ≡ pos (a * b)
unfolding wrap ◌*ℤ◌
mul_int-pos a b h = ground arith

pub div_int-pos : (a b : ℕ) → a < 2 ^ 31 → div_int (pos a) (pos (suc b)) ≡ pos (a / suc b)
unfolding wrap div_int
div_int-pos a b h = ground arith

pub abs_int-pos : (a : ℕ) → abs_int (pos a) ≡ pos a
unfolding abs_int
abs_int-pos a = ground arith

-- A quotient by 1000.
pub div_int_bounds :
    (z : ℤ)
    → InInt z
    → (pos_part (div_int z (pos 1000)) ≤ 2147484) × (neg_part (div_int z (pos 1000)) ≤ 2147484)
unfolding wrap div_int
div_int_bounds z h = ground arith

pub abs_int_bounds :
    (z : ℤ) (m : ℕ)
    → m < 2 ^ 31
    → pos_part z ≤ m
    → neg_part z ≤ m
    → (neg_part (abs_int z) ≡ 0) × (pos_part (abs_int z) ≤ m)
unfolding wrap abs_int ◌-ℤ◌
abs_int_bounds z m h p n = ground arith

pub one_part : (z : ℤ) → (pos_part z ≡ 0) ⊎ (neg_part z ≡ 0)
one_part (pos n) = inr refl
one_part (negsuc n) = inl refl

-- A wrapped sum with something not negative, and a wrapped difference from something positive, are
-- at most the true ones.
pub add_int-le : (a b : ℤ) → InInt a → neg_part b ≡ 0 → add_int a b ≤ℤ a +ℤ b
add_int-le a b h k = wrap-le (a +ℤ b) (omega (arith, +ℤ_parts a b, one_part (a +ℤ b)))

pub sub_int-le : (a b : ℤ) → pos 0 <ℤ a → InInt b → sub_int a b ≤ℤ a -ℤ b
sub_int-le a b h k = wrap-le (a -ℤ b) (omega (arith, -ℤ_parts a b, one_part (a -ℤ b)))
