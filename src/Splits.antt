-- ===== src/Splits.antt =====
-- Python's `str.splitlines`, `str.split` at the first separator, and the last value of a key, as
-- the snapshot, the settings and the crontab use them.
use panamacompra_collector_b.Prelude.{
  ℕ, Bool, true, false, ◌&&◌, ◌||◌, Option, none, some, List, [], ◌∷◌, ◌++◌, leb, eqb,
  if◌then◌else◌, Text, ◌==◌,
}

-- `text.split(sep, 1)` at one character: `none` where it is not in the text.
unfoldable pub split_once : ℕ → Text → Option (Text × Text)
split_once sep [] = none
split_once sep (c ∷ text) = elim (eqb c sep) [
  | true ↦ some ([], text)
  | false ↦ elim (split_once sep text) [
    | none ↦ none
    | some (before, after) ↦ some (c ∷ before, after)
  ]
]

abbrev pub second : Option (Text × Text) → Text
second none = []
second (some (before, after)) = after

abbrev pub breaks_line : ℕ → Bool
breaks_line c =
    leb 10 c && leb c 13 || leb 28 c && leb c 30 || eqb c 133 || eqb c 8232 || eqb c 8233

abbrev pub last_line : Text → List Text
last_line [] = []
last_line (c ∷ line) = (c ∷ line) ∷ []

-- `text.splitlines()`: the line so far, and whether the last character was a carriage return.
unfoldable pub lines_from : Bool → Text → Text → List Text
lines_from after_cr line [] = last_line line
lines_from after_cr line (c ∷ text) = elim (after_cr && eqb c 10) [
  | true ↦ lines_from false line text
  | false ↦ elim (breaks_line c) [
    | true ↦ line ∷ lines_from (eqb c 13) [] text
    | false ↦ lines_from false (line ++ c ∷ []) text
  ]
]

unfoldable pub splitlines : Text → List Text
splitlines text = lines_from false [] text

-- `dict(pairs).get(key)`: the last pair counts.
unfoldable pub last_value : Text → List (Text × Text) → Option Text
last_value key [] = none
last_value key ((k, value) ∷ pairs) = elim (last_value key pairs) [
  | some later ↦ some later
  | none ↦ if k == key then some value else none
]
