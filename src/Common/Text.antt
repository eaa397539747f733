-- ===== src/Common/Text.antt =====
-- `std::string` as a list of character codes, with what the code uses of the C library on it.
use virtual_gw.Common.Tests.{Bool-cases, ltb, leb, ◌==◌, if◌then◌else◌}
use Prim.Native.Nat.{ℕ, ◌+◌, ◌-◌, ◌*◌}
use Prim.Native.String.{String}
use Prim.Native.Char.{code}
use mathlib.Core.Path.{◌≡◌, refl}
use mathlib.Core.Logic.{inl, inr}
use mathlib.Core.Bool.{Bool, true, false, ◌&&◌}
use mathlib.Core.List.{List, [], ◌∷◌}
use native.Mathlib.Omega.{arith}
use virtual_gw.Common.Int.{ℤ, pos, wrap}

abbrev pub Text : Type 0
Text = List ℕ

-- The characters of a literal.
abbrev pub codes : String → Text
codes String.[] = []
codes (String.◌∷◌ c s) = code c ∷ codes s

-- `==` and `<` on strings.
unfoldable pub text_eq : Text → Text → Bool
text_eq [] [] = true
text_eq [] (b ∷ bs) = false
text_eq (a ∷ xs) [] = false
text_eq (a ∷ xs) (b ∷ bs) = a == b && text_eq xs bs

unfoldable pub text_lt : Text → Text → Bool
text_lt xs [] = false
text_lt [] (b ∷ bs) = true
text_lt (a ∷ xs) (b ∷ bs) = if a == b then text_lt xs bs else ltb a b

pub text_eq_refl : (s : Text) → text_eq s s ≡ true
unfolding text_eq
text_eq_refl [] = refl
text_eq_refl (a ∷ xs) = ground (arith, text_eq_refl xs)

pub text_eq_sound : (s t : Text) → text_eq s t ≡ true → s ≡ t
unfolding text_eq
text_eq_sound [] [] h = refl
text_eq_sound [] (b ∷ bs) h = ground arith
text_eq_sound (a ∷ xs) [] h = ground arith
text_eq_sound (a ∷ xs) (b ∷ bs) h = ground (arith, text_eq_sound xs bs)

abbrev pub is_digit : ℕ → Bool
is_digit c = leb b'0' c && leb c b'9'

-- The number that the leading digits of a text stand for, after `acc`.
unfoldable pub leading_number : ℕ → Text → ℕ
leading_number acc [] = acc
leading_number acc (c ∷ s) =
    let rest = leading_number (acc * 10 + (c - b'0')) s in if is_digit c then rest else acc

-- `atoi` of a text that does not begin with a space or a sign: the code takes it of digits only.
unfoldable pub atoi : Text → ℤ
unfolding leading_number
atoi s = wrap (pos (leading_number 0 s))

-- The order of texts is total and transitive.
pub text_lt_total : (s t : Text) → text_eq s t ≡ false → text_lt s t ≡ false → text_lt t s ≡ true
unfolding text_eq text_lt
text_lt_total [] [] h k = ground arith
text_lt_total [] (b ∷ bs) h k = ground arith
text_lt_total (a ∷ xs) [] h k = refl
text_lt_total (a ∷ xs) (b ∷ bs) h k = ground (arith, text_lt_total xs bs)

pub text_lt_trans : (s t u : Text) → text_lt s t ≡ true → text_lt t u ≡ true → text_lt s u ≡ true
unfolding text_lt
text_lt_trans s [] u h k = ground arith
text_lt_trans s (b ∷ bs) [] h k = ground arith
text_lt_trans [] (b ∷ bs) (c ∷ cs) h k = refl
text_lt_trans (a ∷ xs) (b ∷ bs) (c ∷ cs) h k = ground (arith, text_lt_trans xs bs cs)

text_lt_irrefl : (s : Text) → text_lt s s ≡ false
unfolding text_lt
text_lt_irrefl [] = refl
text_lt_irrefl (a ∷ xs) = ground (arith, text_lt_irrefl xs)

-- A text less than another is not the same.
pub text_lt_ne : (s t : Text) → text_lt s t ≡ true → text_eq s t ≡ false
text_lt_ne s t h = elim (Bool-cases (text_eq s t)) [
  | inl e ↦ cc (text_lt_irrefl s, text_eq_sound s t e)
  | inr e ↦ e
]
