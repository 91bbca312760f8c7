-- ===== src/Cron.antt =====
-- src/50_tools/160-manage-cron-schedule.py: the cron expression of a window, and the one entry of
-- the crontab that the tool installs and removes. `none` is a SystemExit.
pub mod Window
pub mod Lines
pub mod Entry
mod Tests
use panamacompra_collector_b.Prelude.{
  ℤ, pos, negsuc, str, ℕ, ◌+◌, ◌-◌, ◌*◌, ◌/◌, ◌%◌, Bool, true, false, not, ◌&&◌, ◌||◌, Option, none,
  some, List, [], ◌∷◌, ◌++◌, map, ltb, leb, eqb, if◌then◌else◌, keep, all, Text, codes, ◌==◌,
  is_empty, strip, contains,
}
use panamacompra_collector_b.Unicode.{Unicode, int}
use panamacompra_collector_b.Filter.{split_by, join}
use panamacompra_collector_b.Splits.{splitlines}

-- `DAY_FIELDS`
unfoldable pub day_fields : List (Text × Text)
day_fields =
    (codes "daily", codes "*")
    ∷ (codes "weekdays", codes "1-5")
    ∷ (codes "weekends", codes "0,6")
    ∷ []

abbrev field_for : Text → List (Text × Text) → Option Text
field_for days [] = none
field_for days ((name, field) ∷ rest) = if name == days then some field else field_for days rest

abbrev is_digit : Option ℕ → Bool
is_digit none = false
is_digit (some d) = true

abbrev up_to : ℕ → Option ℤ → Option ℕ
up_to limit none = none
up_to limit (some (negsuc n)) = none
up_to limit (some (pos n)) = if leb n limit then some n else none

abbrev both : Option ℕ → Option ℕ → Option (ℕ × ℕ)
both (some a) (some b) = some (a, b)
both (some a) none = none
both none b = none

abbrev some_days : List Text → Option Text
some_days [] = none
some_days (part ∷ parts) = some (join (codes ",") (part ∷ parts))

module _ (u : Unicode) where
  -- `part.isdigit()` and the range of the number. A digit that `int` refuses, such as a
  -- superscript, ends the program too.
  unfoldable pub is_day : Text → Bool
  is_day part = all (λ c. is_digit (u.decimal c)) part && is_digit (up_to 6 (int u part))

  unfoldable pub custom_parts : Text → List Text
  custom_parts custom_days =
      keep (λ part. not (is_empty part)) (map strip (split_by (λ c. eqb c b',') custom_days))

  abbrev pub custom_field : List Text → Option Text
  custom_field parts = if all is_day parts then some_days parts else none

  abbrev pub day_field_in : Option Text → Text → Text → Option Text
  day_field_in (some field) days custom_days = some field
  day_field_in none days custom_days =
      if days == codes "custom" then custom_field (custom_parts custom_days) else none

  unfoldable pub day_field : Text → Text → Option Text
  day_field days custom_days = day_field_in (field_for days day_fields) days custom_days

  abbrev pub parts_hm : List Text → Option (ℕ × ℕ)
  parts_hm (hh ∷ mm ∷ []) = both (up_to 23 (int u hh)) (up_to 59 (int u mm))
  parts_hm [] = none
  parts_hm (hh ∷ []) = none
  parts_hm (hh ∷ mm ∷ more ∷ rest) = none

  unfoldable pub parse_hm : Text → Option (ℕ × ℕ)
  parse_hm value = parts_hm (split_by (λ c. eqb c b':') value)

-- `(end_h, end_m) <= (start_h, start_m)`
unfoldable pub not_after : ℕ × ℕ → ℕ × ℕ → Bool
not_after (end_h, end_m) (start_h, start_m) =
    ltb end_h start_h || eqb end_h start_h && leb end_m start_m

abbrev pub minute_step : ℕ → Text
minute_step interval = codes "*/" ++ str interval

abbrev pub hour_range : ℕ → ℕ → Text
hour_range start_h end_h = str start_h ++ codes "-" ++ str end_h

abbrev pub expression_of : Text → Text → Text → Text
expression_of minute_field hour_field dow =
    minute_field ++ codes " " ++ hour_field ++ codes " * * " ++ dow

-- The fields for an interval that is at least 1, in a window that ends after it starts.
unfoldable pub expression_in : Text → ℕ × ℕ → ℕ × ℕ → ℕ → Option Text
expression_in dow (start_h, start_m) (end_h, end_m) interval =
    if ltb interval 60
    then some (
        expression_of (minute_step interval)
          (if eqb start_h end_h then str start_h else hour_range start_h end_h) dow)
    else if not (eqb (interval % 60) 0)
    then none
    else some (
        expression_of (str start_m)
          (if ltb start_h end_h
            then hour_range start_h end_h ++ codes "/" ++ str (interval / 60)
            else str start_h)
          dow)

-- The checks of the window and of the interval.
unfoldable pub expression_for : Text → ℕ × ℕ → ℕ × ℕ → ℕ → Option Text
expression_for dow start end interval =
    if not_after end start || ltb interval 1 then none else expression_in dow start end interval

abbrev pub expression_with : Option Text → Option (ℕ × ℕ) → Option (ℕ × ℕ) → ℕ → Option Text
expression_with (some dow) (some start) (some end) interval = expression_for dow start end interval
expression_with (some dow) (some start) none interval = none
expression_with (some dow) none end interval = none
expression_with none start end interval = none

-- An interval below 1, a negative one included, is 0 here.
unfoldable pub build_expression : Unicode → Text → Text → Text → Text → ℕ → Option Text
build_expression u days custom_days start end interval =
    expression_with (day_field u days custom_days) (parse_hm u start) (parse_hm u end) interval

-- `RUNNER` and `LOG_FILE`
pub record Paths : Type 0 where
  pub runner : Text
  pub log_file : Text

unfoldable pub marker : Text
marker = codes "# PANAMACOMPRA-CRON-SCHEDULE"

-- The lines of `crontab -l` that are not blank.
unfoldable pub current_crontab : Text → List Text
current_crontab tab = keep (λ line. not (is_empty (strip line))) (splitlines tab)

abbrev pub is_other : Text → Bool
is_other line = not (contains line marker)

unfoldable pub others : Text → List Text
others tab = keep is_other (current_crontab tab)

unfoldable pub cron_line : Paths → Text → Text
cron_line p expression =
    expression
    ++ codes " \""
    ++ p.runner
    ++ codes "\" >> \""
    ++ p.log_file
    ++ codes "\" 2>&1 "
    ++ marker

abbrev pub newline : Text
newline = 10 ∷ []

-- The crontab after the call.
unfoldable pub install : Paths → Text → Text → Text
install p expression tab = join newline (others tab ++ cron_line p expression ∷ []) ++ newline

abbrev pub payload : List Text → Text
payload [] = []
payload (line ∷ lines) = join newline (line ∷ lines) ++ newline

unfoldable pub remove : Text → Text
remove tab = payload (others tab)
