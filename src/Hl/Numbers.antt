-- ===== src/Hl/Numbers.antt =====
-- What the regular expressions of the program that look for a number find: the documented meaning of
-- such a pattern, for the matcher that src/hl/params.h uses.
use virtual_gw.Common.Decimal.{
  length-digits_on, digits_on, decimal, all_digits, no_digit, all_digits-digits_on,
}
use virtual_gw.Common.{
  ℕ, suc, ◌<◌, ◌≡◌, refl, ◌∙◌, inl, inr, Bool, true, false, not, ◌&&◌, Option, none, some, [], ◌∷◌,
  ◌++◌, arith, ◌==◌, if◌then◌else◌, Bool-cases, ◌>>=◌, length,
}
use virtual_gw.Common.Text.{Text, is_digit}
use virtual_gw.Hl.Params.{Regexp, Groups}

-- What follows a literal at the front of a text.
unfoldable pub behind : Text → Text → Option Text
behind [] s = some s
behind (a ∷ lit) [] = none
behind (a ∷ lit) (c ∷ s) = let rest = behind lit s in if c == a then rest else none

-- The digits in front.
unfoldable pub digits_of : Text → Text
digits_of [] = []
digits_of (c ∷ s) = let rest = digits_of s in if is_digit c then c ∷ rest else []

-- `([0-9]+)` at the front of a text.
unfoldable pub number : Text → Option Text
number [] = none
number (c ∷ s) = if is_digit c then some (digits_of (c ∷ s)) else none

unfoldable pub skip_spaces : Text → Text
skip_spaces [] = []
skip_spaces (c ∷ s) = let rest = skip_spaces s in if c == b' ' then rest else c ∷ s

-- `([0-9]+)` and ` +([0-9]+)`.
pub data Gap : Type 0 where
  at_once spaced : Gap

unfoldable pub behind_gap : Gap → Text → Option Text
behind_gap at_once s = number s
behind_gap spaced [] = none
behind_gap spaced (c ∷ s) = if c == b' ' then number (skip_spaces s) else none

-- The literal and the number behind it, at the front of a text.
unfoldable pub number_at : Gap → Text → Text → Option Text
number_at gap lit s = behind lit s >>= behind_gap gap

-- The first such place in a text.
unfoldable pub number_in : Gap → Text → Text → Option Text
number_in gap lit [] = none
number_in gap lit (c ∷ s) =
    let later = number_in gap lit s in
    elim (number_at gap lit (c ∷ s)) [ some g ↦ some g | none ↦ later ]

-- What a match gives as its first group.
abbrev pub group_1 : Option Groups → Option Text
group_1 none = none
group_1 (some rg) = some (rg 1)

-- The matcher goes by this meaning for a pattern of such a literal.
abbrev pub Reads : Regexp → Gap → Text → Text → Type 0
Reads match gap lit pattern = (s : Text) → group_1 (match pattern s) ≡ number_in gap lit s

-- A text without a character.
unfoldable pub without : ℕ → Text → Bool
without a [] = true
without a (c ∷ s) = not (c == a) && without a s

number_at-none :
    (gap : Gap) (a c : ℕ) (lit s : Text) → (c == a) ≡ false → number_at gap (a ∷ lit) (c ∷ s) ≡ none
unfolding number_at behind
number_at-none gap a c lit s e = rw e refl

number_in-later :
    (gap : Gap) (lit : Text) (c : ℕ) (s : Text)
    → number_at gap lit (c ∷ s) ≡ none
    → number_in gap lit (c ∷ s) ≡ number_in gap lit s
unfolding number_in
number_in-later gap lit c s e = rw (e, number_in) refl

-- No literal begins where its first character is not.
pub number_in-skip :
    (gap : Gap) (a : ℕ) (lit s t : Text)
    → without a s ≡ true
    → number_in gap (a ∷ lit) (s ++ t) ≡ number_in gap (a ∷ lit) t
unfolding without
number_in-skip gap a lit [] t h = refl
number_in-skip gap a lit (c ∷ s) t h =
    number_in-later gap (a ∷ lit) c (s ++ t) (number_at-none gap a c lit (s ++ t) (ground arith))
    ∙ number_in-skip gap a lit s t (ground arith)

without-digits : (a : ℕ) (s : Text) → is_digit a ≡ false → all_digits s ≡ true → without a s ≡ true
unfolding without all_digits
without-digits a [] h k = refl
without-digits a (c ∷ s) h k = ground (arith, without-digits a s h)

pub without-decimal : (a n : ℕ) → is_digit a ≡ false → without a (decimal n) ≡ true
unfolding decimal
without-decimal a n h = without-digits a (decimal n) h (all_digits-digits_on (suc n) n)

digits_of-append : (s t : Text) → all_digits s ≡ true → no_digit t ≡ true → digits_of (s ++ t) ≡ s
unfolding digits_of all_digits
digits_of-append [] [] h k = refl
digits_of-append [] (c ∷ t) h k = ground arith
digits_of-append (c ∷ s) t h k = ground (arith, digits_of-append s t)

number-digits :
    (s t : Text) → all_digits s ≡ true → 0 < length s → no_digit t ≡ true → number (s ++ t) ≡ some s
unfolding number all_digits
number-digits [] t h l k = absurd (omega arith)
number-digits (c ∷ s) t h l k = rw (digits_of-append (c ∷ s) t h k) (ground arith)

-- A number in front, as `%u` writes it.
pub number-decimal :
    (n : ℕ) (t : Text) → no_digit t ≡ true → number (decimal n ++ t) ≡ some (decimal n)
unfolding decimal
number-decimal n t h =
    number-digits (digits_on (suc n) n) t (all_digits-digits_on (suc n) n)
      (length-digits_on (suc n) n (omega arith)) h

pub number-skip_spaces : (s g : Text) → number s ≡ some g → number (skip_spaces s) ≡ some g
unfolding number skip_spaces
number-skip_spaces [] g e = cc
number-skip_spaces (c ∷ s) g e = elim (Bool-cases (is_digit c)) [
  | inl d ↦ let gap : (c == b' ') ≡ false = ground arith in rw gap e
  | inr d ↦ absurd (ground arith)
]

-- Where a literal with its number stands in front, it is found there.
pub number_in-front :
    (gap : Gap) (lit s g : Text) → number_at gap lit s ≡ some g → number_in gap lit s ≡ some g
unfolding number_in number_at behind behind_gap number
number_in-front at_once [] [] g e = cc
number_in-front spaced [] [] g e = cc
number_in-front gap (a ∷ lit) [] g e = cc
number_in-front gap lit (c ∷ s) g e = rw (e, number_in) refl
