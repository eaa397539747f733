-- ===== src/Hl/Params.antt =====
-- src/hl/regexp.h and src/hl/params.h: reading parameters from a text by regular expressions. The
-- regular expressions themselves are those of the GNU library in src/hl/regex.c, a parameter here.
use virtual_gw.Common.{ℕ, ◌≡◌, Bool, true, false, Option, none, some, if◌then◌else◌}
use virtual_gw.Common.Int.{ℤ}
use virtual_gw.Common.Text.{Text, atoi}
use virtual_gw.Common.Result.{Result, ok, thrown, std_exception}

-- What `regexp rg(pattern); rg.match(text)` and `rg[i]` give: nothing where the text does not match,
-- and else the group of each number, which is empty where it took no part in the match.
abbrev pub Groups : Type 0
Groups = ℕ → Text

abbrev pub Regexp : Type 0
Regexp = Text → Text → Option Groups

module _ (match : Regexp) where
  -- `check`
  unfoldable pub check : Text → Text → Bool → Result Bool
  check cmd_line regex required = elim (match regex cmd_line) [
    | some rg ↦ ok true
    | none ↦ (if required then thrown std_exception else ok false)
  ]

  -- The overloads of `read`: whether the text matches, and the parameters, which keep their values
  -- where it does not.
  unfoldable pub read_int : Text → Text → ℤ → Bool → Result (Bool × ℤ)
  read_int cmd_line regex param required = elim (match regex cmd_line) [
    | some rg ↦ ok (true, atoi (rg 1))
    | none ↦ (if required then thrown std_exception else ok (false, param))
  ]

  unfoldable pub read_int_int : Text → Text → ℤ → ℤ → Bool → Result (Bool × ℤ × ℤ)
  read_int_int cmd_line regex param1 param2 required = elim (match regex cmd_line) [
    | some rg ↦ ok (true, atoi (rg 1), atoi (rg 2))
    | none ↦ (if required then thrown std_exception else ok (false, param1, param2))
  ]

  unfoldable pub read_text : Text → Text → Text → Bool → Result (Bool × Text)
  read_text cmd_line regex param required = elim (match regex cmd_line) [
    | some rg ↦ ok (true, rg 1)
    | none ↦ (if required then thrown std_exception else ok (false, param))
  ]

  unfoldable pub read_text_text : Text → Text → Text → Text → Bool → Result (Bool × Text × Text)
  read_text_text cmd_line regex param1 param2 required = elim (match regex cmd_line) [
    | some rg ↦ ok (true, rg 1, rg 2)
    | none ↦ (if required then thrown std_exception else ok (false, param1, param2))
  ]

  unfoldable pub read_text_int : Text → Text → Text → ℤ → Bool → Result (Bool × Text × ℤ)
  read_text_int cmd_line regex param1 param2 required = elim (match regex cmd_line) [
    | some rg ↦ ok (true, rg 1, atoi (rg 2))
    | none ↦ (if required then thrown std_exception else ok (false, param1, param2))
  ]

  -- A pattern that matches gives its group, and one that does not keeps the parameter.
  pub read_int_hit :
      (cmd regex : Text) (param : ℤ) (required : Bool) (rg : Groups)
      → match regex cmd ≡ some rg
      → read_int cmd regex param required ≡ ok (true, atoi (rg 1))
  unfolding read_int
  read_int_hit cmd regex param required rg e = rw (e, read_int)

  pub read_int_miss :
      (cmd regex : Text) (param : ℤ)
      → match regex cmd ≡ none
      → read_int cmd regex param false ≡ ok (false, param)
  unfolding read_int
  read_int_miss cmd regex param e = rw (e, read_int)

  pub read_text_hit :
      (cmd regex param : Text) (required : Bool) (rg : Groups)
      → match regex cmd ≡ some rg
      → read_text cmd regex param required ≡ ok (true, rg 1)
  unfolding read_text
  read_text_hit cmd regex param required rg e = rw (e, read_text)

  pub read_text_miss :
      (cmd regex param : Text)
      → match regex cmd ≡ none
      → read_text cmd regex param false ≡ ok (false, param)
  unfolding read_text
  read_text_miss cmd regex param e = rw (e, read_text)

  pub check_miss : (cmd regex : Text) → match regex cmd ≡ none → check cmd regex false ≡ ok false
  unfolding check
  check_miss cmd regex e = rw (e, check)
