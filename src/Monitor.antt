-- ===== src/Monitor.antt =====
-- The sign-in of src/40_monitor/001b-monitor-web.py: the settings file, the session tokens, and the
-- access level of a request.
pub mod Session
pub mod Access
pub mod Granted
mod Tests
use panamacompra_collector_b.Prelude.{
  ◌+◌, Bool, ◌||◌, Option, none, some, List, [], ◌∷◌, ◌++◌, eqb, if◌then◌else◌, Text, codes,
  is_empty, is_space, lstrip_by, strip_by, strip, starts_with,
}
use panamacompra_collector_b.Splits.{split_once, splitlines, last_value}

-- Python's `shlex.split` of a text, with the ValueError of an open quote as `none`.
pub record Shell : Type 0 where
  pub shlex_split : Text → Option (List Text)

-- `raw_value.strip().strip("'").strip('"')`
abbrev unquoted : Text → Text
unquoted raw = strip_by (λ c. eqb c b'"') (strip_by (λ c. eqb c b'\'') (strip raw))

abbrev parsed_value : Text → Option (List Text) → Text
parsed_value raw none = unquoted raw
parsed_value raw (some []) = []
parsed_value raw (some (word ∷ words)) = word

abbrev is_comment : Text → Bool
is_comment line = starts_with (lstrip_by is_space line) (codes "#")

module _ (sh : Shell) where
  abbrev keyed : Text → Text → List (Text × Text)
  keyed [] raw = []
  keyed (c ∷ key) raw = (c ∷ key, parsed_value raw (sh.shlex_split raw)) ∷ []

  abbrev assigned : Option (Text × Text) → List (Text × Text)
  assigned none = []
  assigned (some (key, raw)) = keyed (strip key) raw

  -- What one line of the settings file sets.
  unfoldable pub setting_line : Text → List (Text × Text)
  setting_line line =
      if is_empty line || is_comment line then [] else assigned (split_once b'=' line)

  unfoldable pub setting_lines : List Text → List (Text × Text)
  setting_lines [] = []
  setting_lines (line ∷ lines) = setting_line line ++ setting_lines lines

  -- The settings of the file, in the order of its lines: the last value of a key counts.
  unfoldable pub parse_settings_file : Text → List (Text × Text)
  parse_settings_file text = setting_lines (splitlines text)

abbrev value_or : Option Text → Text → Text
value_or none other = other
value_or (some value) other = value

-- `load_monitor_settings().get(key)` of a key that has a default: the file, then the environment.
unfoldable pub load_monitor_setting : Shell → Text → List (Text × Text) → Text → Text → Text
load_monitor_setting sh text environ key default =
    value_or (last_value key (parse_settings_file sh text))
      (value_or (last_value key environ) default)
