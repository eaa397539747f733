-- ===== src/Common/Decimal.antt =====
-- `%d` of `printf` for a number that is not negative.
use mathlib.Core.List.{[], ◌∷◌, ◌++◌}
use Prim.Native.Nat.{ℕ, zero, suc, ◌+◌, ◌-◌, ◌*◌, ◌/◌, ◌%◌, ◌<◌}
use mathlib.Core.Path.{◌≡◌, refl, ap, ◌∙◌}
use mathlib.Core.Logic.{inl, inr}
use mathlib.Core.Bool.{Bool, true, false, ◌&&◌}
use native.Mathlib.Omega.{arith}
use virtual_gw.Common.Tests.{ltb, if◌then◌else◌, Bool-cases}
use virtual_gw.Common.Lists.{length, length-append}
use virtual_gw.Common.Text.{Text, is_digit, leading_number}

-- The digits, the last one first split off; the fuel bounds their number.
unfoldable pub digits_on : ℕ → ℕ → Text
digits_on zero n = []
digits_on (suc fuel) n =
    let front = digits_on fuel (n / 10) in
    if ltb n 10 then (b'0' + n) ∷ [] else front ++ (b'0' + n % 10) ∷ []

-- A number has no more digits than its successor has units.
unfoldable pub decimal : ℕ → Text
decimal n = digits_on (suc n) n

-- A text of digits only, and the number it stands for after `acc`.
unfoldable pub all_digits : Text → Bool
all_digits [] = true
all_digits (c ∷ s) = is_digit c && all_digits s

unfoldable pub digits_value : ℕ → Text → ℕ
digits_value acc [] = acc
digits_value acc (c ∷ s) = digits_value (acc * 10 + (c - b'0')) s

all_digits-append :
    (s t : Text) → all_digits s ≡ true → all_digits t ≡ true → all_digits (s ++ t) ≡ true
unfolding all_digits
all_digits-append [] t h k = k
all_digits-append (c ∷ s) t h k = ground (arith, all_digits-append s t)

digits_value-append :
    (acc : ℕ) (s t : Text) → digits_value acc (s ++ t) ≡ digits_value (digits_value acc s) t
unfolding digits_value
digits_value-append acc [] t = refl
digits_value-append acc (c ∷ s) t = digits_value-append (acc * 10 + (c - b'0')) s t

pub all_digits-digits_on : (fuel n : ℕ) → all_digits (digits_on fuel n) ≡ true
unfolding all_digits digits_on
all_digits-digits_on zero n = refl
all_digits-digits_on (suc fuel) n = elim (Bool-cases (ltb n 10)) [
  | inl h ↦ ground arith
  | inr h ↦ rw h (
      all_digits-append (digits_on fuel (n / 10)) ((b'0' + n % 10) ∷ [])
        (all_digits-digits_on fuel (n / 10)) (ground arith))
]

digits_value-digits_on : (fuel n : ℕ) → n < fuel → digits_value 0 (digits_on fuel n) ≡ n
unfolding digits_value digits_on
digits_value-digits_on zero n h = absurd (omega arith)
digits_value-digits_on (suc fuel) n h = elim (Bool-cases (ltb n 10)) [
  | inl k ↦ rw k (omega arith)
  | inr k ↦
      rw
        (
          k,
          digits_value-append 0 (digits_on fuel (n / 10)) ((b'0' + n % 10) ∷ []),
          digits_value-digits_on fuel (n / 10) (ground arith),
        )
        (omega arith)
]

leading_number-digits_value :
    (acc : ℕ) (s t : Text)
    → all_digits s ≡ true
    → leading_number acc (s ++ t) ≡ leading_number (digits_value acc s) t
unfolding all_digits digits_value leading_number
leading_number-digits_value acc [] t h = refl
leading_number-digits_value acc (c ∷ s) t h =
    ground (arith, leading_number-digits_value (acc * 10 + (c - b'0')) s t)

-- What does not begin with a digit: a number in front of it is read up to there.
abbrev pub no_digit : Text → Bool
no_digit [] = true
no_digit (c ∷ t) = if is_digit c then false else true

leading_number-no_digit : (n : ℕ) (t : Text) → no_digit t ≡ true → leading_number n t ≡ n
unfolding leading_number
leading_number-no_digit n [] h = refl
leading_number-no_digit n (c ∷ t) h = ground arith

pub leading_number-decimal :
    (n : ℕ) (t : Text) → no_digit t ≡ true → leading_number 0 (decimal n ++ t) ≡ n
unfolding decimal
leading_number-decimal n t h =
    leading_number-digits_value 0 (digits_on (suc n) n) t (all_digits-digits_on (suc n) n)
    ∙ ap (λ m. leading_number m t) (digits_value-digits_on (suc n) n (omega arith))
    ∙ leading_number-no_digit n t h

-- Four numbers with dots between them.
unfoldable pub dotted : ℕ → ℕ → ℕ → ℕ → Text
dotted a b c d = decimal a ++ b'.' ∷ (decimal b ++ b'.' ∷ (decimal c ++ b'.' ∷ decimal d))

pub length-digits_on : (fuel n : ℕ) → 0 < fuel → 0 < length (digits_on fuel n)
unfolding digits_on
length-digits_on zero n h = absurd (omega arith)
length-digits_on (suc fuel) n h = elim (Bool-cases (ltb n 10)) [
  | inl k ↦ rw k (omega arith)
  | inr k ↦ rw (k, length-append (digits_on fuel (n / 10)) ((b'0' + n % 10) ∷ [])) (omega arith)
]
