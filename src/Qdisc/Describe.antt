-- ===== src/Qdisc/Describe.antt =====
-- `describe` of the disciplines in src/nqueue.h, and their text as parameters. The texts are shorter
-- than the buffer of `print` in src/print.h.
use virtual_gw.Common.Decimal.{decimal, no_digit, leading_number-decimal}
use virtual_gw.Common.{
  ℕ, ◌%◌, ◌^◌, ◌<◌, ◌≡◌, refl, sym, ap, ◌∙◌, Bool, true, false, Option, none, some, [], ◌∷◌, ◌++◌,
  arith,
}
use virtual_gw.Common.Int.{ℤ, pos, bits32, wrap}
use virtual_gw.Common.Text.{Text, codes, text_eq, is_digit, leading_number, atoi}
use virtual_gw.Hl.Numbers.{
  Gap, at_once, spaced, Reads, group_1, number, number_in, number_at, behind, behind_gap,
  number_in-front, number_in-skip, number-decimal, number-skip_spaces, without, without-decimal,
}
use virtual_gw.Common.Result.{ok}
use virtual_gw.Hl.Params.{Regexp, Groups, read_int, read_int_hit}
use mathlib.Core.List.{append-nil}
use virtual_gw.Qdisc.{Qdisc, rloss, band, delay, create_qdisc}
use virtual_gw.Qdisc.Rloss.{RlossQdisc, new_rloss}
use virtual_gw.Qdisc.Band.{BandQdisc, new_band}
use virtual_gw.Qdisc.Delay.{DelayQdisc, new_delay}

-- `%u` of an `int`.
abbrev pub unsigned : ℤ → Text
unsigned z = decimal (bits32 z)

-- `describe` of each class.
abbrev rloss_text : RlossQdisc → Text
rloss_text d = codes "rloss " ++ unsigned d.rate

abbrev band_text : BandQdisc → Text
band_text d =
    codes "rate "
    ++ (unsigned d.rate
        ++ (codes ", burst "
            ++ (unsigned d.burst ++ (codes ", max_delay " ++ unsigned d.max_delay))))

abbrev delay_text : DelayQdisc → Text
delay_text d = codes "delay " ++ unsigned d.ms

-- The virtual call `describe`.
unfoldable pub describe : Qdisc → Text
describe (rloss d) = rloss_text d
describe (band d) = band_text d
describe (delay d) = delay_text d

-- The name by which `Create_qdisc` makes a discipline.
abbrev pub type_of : Qdisc → Text
type_of (rloss d) = codes "rloss"
type_of (band d) = codes "band"
type_of (delay d) = codes "delay"

-- A discipline as it was made, with `garbage` for what is not set.
abbrev pub as_made : ℤ → Qdisc → Qdisc
as_made garbage (rloss d) = rloss (record d { last_uid = pos 0 })
as_made garbage (band d) = band (record d { quota = pos 0; last_ts = garbage })
as_made garbage (delay d) = delay d

-- The matcher goes by the meaning of the patterns of the constructors.
pub record ReadsNumbers (match : Regexp) : Type 0 where
  pub reads_plain : Reads match at_once [] (codes "([0-9]+)")
  pub reads_rate : Reads match at_once (codes "rate ") (codes "rate ([0-9]+)")
  pub reads_burst : Reads match spaced (codes "burst") (codes "burst +([0-9]+)")
  pub reads_max_delay : Reads match spaced (codes "max_delay") (codes "max_delay +([0-9]+)")

-- A number that is not negative, in an `int`.
abbrev pub Unsigned : ℤ → Type 0
Unsigned z = (n : ℕ) × (z ≡ pos n) × (n < 2 ^ 31)

-- The numbers of a discipline are such.
abbrev pub AllUnsigned : Qdisc → Type 0
AllUnsigned (rloss d) = Unsigned d.rate
AllUnsigned (band d) = Unsigned d.rate × Unsigned d.burst × Unsigned d.max_delay
AllUnsigned (delay d) = Unsigned d.ms

atoi-unsigned : (n : ℕ) → n < 2 ^ 31 → atoi (unsigned (pos n)) ≡ pos n
unfolding atoi wrap
atoi-unsigned n h =
    let whole : leading_number 0 (decimal (n % 2 ^ 32)) ≡ n % 2 ^ 32 =
      ap (leading_number 0) (sym (append-nil (decimal (n % 2 ^ 32))))
      ∙ leading_number-decimal (n % 2 ^ 32) [] refl in
    rw whole (ground arith)

group_some :
    (m : Option Groups) (g : Text) → group_1 m ≡ some g → (rg : Groups) × (m ≡ some rg) × (rg 1 ≡ g)
group_some none g e = cc
group_some (some rg) g e = (rg, refl, ground arith)

read_int-Unsigned :
    (match : Regexp) (pattern text : Text) (z param : ℤ) (required : Bool)
    → Unsigned z
    → group_1 (match pattern text) ≡ some (unsigned z)
    → read_int match text pattern param required ≡ ok (true, z)
read_int-Unsigned match pattern text z param required (n, e, h) found =
    let (rg, m, g) = group_some (match pattern text) (unsigned z) found in
    read_int_hit match text pattern param required rg m
    ∙ ap (λ k. ok (true, k)) (ap atoi (g ∙ ap unsigned e) ∙ atoi-unsigned n h ∙ sym e)

-- A number in front of what does not go on with a digit, and one at the end.
unsigned_first :
    (z : ℤ) (t : Text) → no_digit t ≡ true → number (unsigned z ++ t) ≡ some (unsigned z)
unsigned_first z t h = number-decimal (bits32 z) t h

unsigned_last : (z : ℤ) → number (unsigned z) ≡ some (unsigned z)
unsigned_last z = ap number (sym (append-nil (unsigned z))) ∙ unsigned_first z [] refl

found_plain : (z : ℤ) → number_in at_once [] (unsigned z) ≡ some (unsigned z)
unfolding number_at behind behind_gap
found_plain z = number_in-front at_once [] (unsigned z) (unsigned z) (unsigned_last z)

found_rloss : (d : RlossQdisc) → number_in at_once [] (rloss_text d) ≡ some (unsigned d.rate)
unfolding number_in number_at behind behind_gap number
found_rloss d = found_plain d.rate

found_delay : (d : DelayQdisc) → number_in at_once [] (delay_text d) ≡ some (unsigned d.ms)
unfolding number_in number_at behind behind_gap number
found_delay d = found_plain d.ms

found_rate :
    (d : BandQdisc) → number_in at_once (codes "rate ") (band_text d) ≡ some (unsigned d.rate)
unfolding number_at behind behind_gap
found_rate d =
    number_in-front at_once (codes "rate ") (band_text d) (unsigned d.rate)
      (unsigned_first d.rate _ refl)

-- The text from `burst` on, and from `max_delay` on.
abbrev max_delay_text : BandQdisc → Text
max_delay_text d = codes "max_delay " ++ unsigned d.max_delay

abbrev burst_text : BandQdisc → Text
burst_text d = codes "burst " ++ (unsigned d.burst ++ (codes ", " ++ max_delay_text d))

skip_to_burst :
    (gap : Gap) (a : ℕ) (lit : Text) (d : BandQdisc)
    → is_digit a ≡ false
    → without a (codes "rate ") ≡ true
    → without a (codes ", ") ≡ true
    → number_in gap (a ∷ lit) (band_text d) ≡ number_in gap (a ∷ lit) (burst_text d)
skip_to_burst gap a lit d h i j =
    number_in-skip gap a lit (codes "rate ") _ i
    ∙ number_in-skip gap a lit (unsigned d.rate) _ (without-decimal a (bits32 d.rate) h)
    ∙ number_in-skip gap a lit (codes ", ") (burst_text d) j

found_burst :
    (d : BandQdisc) → number_in spaced (codes "burst") (band_text d) ≡ some (unsigned d.burst)
unfolding number_at behind behind_gap without
found_burst d =
    skip_to_burst spaced b'b' (codes "urst") d refl refl refl
    ∙ number_in-front spaced (codes "burst") (burst_text d) (unsigned d.burst) (
        number-skip_spaces (unsigned d.burst ++ (codes ", " ++ max_delay_text d)) (unsigned d.burst)
          (unsigned_first d.burst _ refl))

found_max_delay :
    (d : BandQdisc)
    → number_in spaced (codes "max_delay") (band_text d) ≡ some (unsigned d.max_delay)
unfolding number_at behind behind_gap without
found_max_delay d =
    skip_to_burst spaced b'm' (codes "ax_delay") d refl refl refl
    ∙ number_in-skip spaced b'm' (codes "ax_delay") (codes "burst ") _ refl
    ∙ number_in-skip spaced b'm' (codes "ax_delay") (unsigned d.burst) _
        (without-decimal b'm' (bits32 d.burst) refl)
    ∙ number_in-skip spaced b'm' (codes "ax_delay") (codes ", ") (max_delay_text d) refl
    ∙ number_in-front spaced (codes "max_delay") (max_delay_text d) (unsigned d.max_delay) (
        number-skip_spaces (unsigned d.max_delay) (unsigned d.max_delay)
          (unsigned_last d.max_delay))

-- With a matcher that goes by the meaning of the patterns: `Create_qdisc` of a discipline's type and
-- its description, if none of its numbers is negative, makes the discipline again, as it was when it
-- was new.
pub create_qdisc-describe :
    (match : Regexp) (garbage : ℤ) (d : Qdisc)
    → ReadsNumbers match
    → AllUnsigned d
    → create_qdisc match garbage (type_of d) (describe d) ≡ ok (as_made garbage d)
unfolding create_qdisc new_rloss new_band new_delay text_eq describe number_in number_at behind
    number
create_qdisc-describe match garbage (rloss d) m u =
    rw
      (read_int-Unsigned match (codes "([0-9]+)") (rloss_text d) d.rate (pos 0) true u
        (m.reads_plain (rloss_text d) ∙ found_rloss d))
      refl
create_qdisc-describe match garbage (band d) m (r, b, l) =
    rw
      (
        read_int-Unsigned match (codes "rate ([0-9]+)") (band_text d) d.rate (pos 0) true r
            (m.reads_rate (band_text d) ∙ found_rate d),
        read_int-Unsigned match (codes "burst +([0-9]+)") (band_text d) d.burst (pos 1500) false b
            (m.reads_burst (band_text d) ∙ found_burst d),
        read_int-Unsigned match (codes "max_delay +([0-9]+)") (band_text d) d.max_delay (pos 0)
            false l (m.reads_max_delay (band_text d) ∙ found_max_delay d),
      )
      refl
create_qdisc-describe match garbage (delay d) m u =
    rw
      (read_int-Unsigned match (codes "([0-9]+)") (delay_text d) d.ms (pos 0) true u
        (m.reads_plain (delay_text d) ∙ found_delay d))
      refl
