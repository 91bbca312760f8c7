-- ===== src/Unicode.antt =====
-- What the program takes from Python's Unicode tables: the data of `unicodedata` and of the case
-- mappings, a parameter of every definition that uses it.
use panamacompra_collector_b.Prelude.{
  ◌||◌, ℤ, pos, negsuc, ℕ, zero, suc, ◌+◌, ◌-◌, ◌*◌, Bool, true, false, not, ◌&&◌, Option, none,
  some, [], ◌∷◌, map, leb, eqb, if◌then◌else◌, keep, Text, strip,
}
use mathlib.Core.List.{flat_map}

pub record Unicode : Type 0 where
  -- The NFKD decomposition of one code point, and whether its combining class is not 0. The
  -- canonical reordering moves only combining marks, which the program drops.
  pub nfkd : ℕ → Text
  pub combining : ℕ → Bool
  -- `str.lower` and `str.upper`.
  pub lower : Text → Text
  pub upper : Text → Text
  -- The value of a decimal digit, for `int` and `str.isdigit`.
  pub decimal : ℕ → Option ℕ
  -- `str.isalnum` of one character, for `\w`.
  pub alnum : ℕ → Bool

module _ (u : Unicode) where
  -- `strip_accents` of src/common.py.
  unfoldable pub strip_accents : Text → Text
  unfolding keep
  strip_accents text = keep (λ c. not (u.combining c)) (flat_map u.nfkd text)

  -- The digits of a literal, for the value so far and whether a digit was the last character: one
  -- underscore may stand between two digits.
  unfoldable pub digits_value : ℕ → Bool → Text → Option ℕ
  digits_value value true [] = some value
  digits_value value false [] = none
  digits_value value after_digit (c ∷ text) = elim (u.decimal c) [
    | some d ↦ digits_value (value * 10 + d) true text
    | none ↦ elim (eqb c 95 && after_digit) [ true ↦ digits_value value false text | false ↦ none ]
  ]

  abbrev negated : Option ℕ → Option ℤ
  negated none = none
  negated (some zero) = some (pos zero)
  negated (some (suc n)) = some (negsuc n)

  abbrev positive : Option ℕ → Option ℤ
  positive none = none
  positive (some n) = some (pos n)

  abbrev signed : Text → Option ℤ
  signed [] = none
  signed (c ∷ text) =
      if eqb c 45
      then negated (digits_value 0 false text)
      else if eqb c 43
      then positive (digits_value 0 false text)
      else positive (digits_value 0 false (c ∷ text))

  -- `int(text)`; `none` is a ValueError.
  unfoldable pub int : Text → Option ℤ
  int text = signed (strip text)

-- The tables for ASCII alone: a Unicode in which every code point stands for itself.
abbrev lower_char : ℕ → ℕ
lower_char c = if leb b'A' c && leb c b'Z' then c + 32 else c

abbrev upper_char : ℕ → ℕ
upper_char c = if leb b'a' c && leb c b'z' then c - 32 else c

abbrev ascii_decimal : ℕ → Option ℕ
ascii_decimal c = if leb b'0' c && leb c b'9' then some (c - 48) else none

abbrev ascii_alnum : ℕ → Bool
ascii_alnum c = leb b'0' c && leb c b'9' || leb b'A' c && leb c b'Z' || leb b'a' c && leb c b'z'

abbrev pub ascii : Unicode
ascii = record {
  nfkd = λ c. c ∷ [];
  combining = λ c. false;
  lower = map lower_char;
  upper = map upper_char;
  decimal = ascii_decimal;
  alnum = ascii_alnum;
}
