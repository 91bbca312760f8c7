-- ===== src/Details/Window.antt =====
-- The dates and the clock times of a text, and the window that they make.
use panamacompra_collector_b.Prelude.{
  ℕ, ◌+◌, ◌-◌, ◌*◌, ◌%◌, ap, Bool, true, false, not, ◌&&◌, ◌||◌, Option, none, some, List, [], ◌∷◌,
  ◌++◌, map, ltb, eqb, if◌then◌else◌, take, drop, Text, codes, ◌==◌, is_space,
}
use panamacompra_collector_b.Unicode.{Unicode}
use panamacompra_collector_b.Ics.{replace_char}
use panamacompra_collector_b.Naming.{is_decimal, two_digits}
use panamacompra_collector_b.Regex.{
  Pattern, Found, one, then_, at_most, many, maybe, group, exactly, search, find_all,
}

-- `int` of a group of `\d`.
abbrev pub digit_or_zero : Option ℕ → ℕ
digit_or_zero none = 0
digit_or_zero (some d) = d

unfoldable pub number_from : Unicode → ℕ → Text → ℕ
number_from u value [] = value
number_from u value (c ∷ text) = number_from u (value * 10 + digit_or_zero (u.decimal c)) text

abbrev pub number : Unicode → Text → ℕ
number u text = number_from u 0 text

-- \d{1,2}
unfoldable pub one_or_two_digits : Unicode → Pattern
one_or_two_digits u = then_ (one (is_decimal u)) (at_most 1 (is_decimal u))

abbrev pub is_date_mark : ℕ → Bool
is_date_mark c = eqb c b'-' || eqb c b'/'

-- (\d{1,2})[-/](\d{1,2})[-/](\d{4})
unfoldable pub day_month_year : Unicode → Pattern
day_month_year u = then_ (group (one_or_two_digits u)) (
    then_ (one is_date_mark) (
      then_ (group (one_or_two_digits u))
        (then_ (one is_date_mark) (group (exactly 4 (is_decimal u))))))

-- `f"{year}-{int(month):02d}-{int(day):02d}"`
abbrev pub iso_of : Text → ℕ → ℕ → Text
iso_of year month day = year ++ codes "-" ++ two_digits month ++ codes "-" ++ two_digits day

abbrev pub iso_of_groups : Unicode → List Text → Text
iso_of_groups u (day ∷ month ∷ year ∷ []) = iso_of year (number u month) (number u day)
iso_of_groups u other = []

abbrev pub iso_of_found : Unicode → Option Found → Text
iso_of_found u none = []
iso_of_found u (some found) = iso_of_groups u found.groups

unfoldable pub parse_ddmmyyyy : Unicode → Text → Text
parse_ddmmyyyy u text = iso_of_found u (search (day_month_year u) text)

unfoldable pub date_folder_from_fecha : Unicode → Text → Text
date_folder_from_fecha u fecha_text = drop 2 (parse_ddmmyyyy u fecha_text)

unfoldable pub parse_ddmmyyyy_matches : Unicode → Text → List (Found × Text)
parse_ddmmyyyy_matches u text =
    map (λ found. (found, iso_of_groups u found.groups)) (find_all (day_month_year u) text)

abbrev pub dot : Pattern
dot = at_most 1 (λ c. eqb c b'.')

-- [AaPp]\.?\s*[Mm]\.?
unfoldable pub half_day : Pattern
half_day =
    then_ (one (λ c. eqb c b'A' || eqb c b'a' || eqb c b'P' || eqb c b'p'))
      (then_ dot (then_ (many is_space) (then_ (one (λ c. eqb c b'M' || eqb c b'm')) dot)))

-- (\d{1,2}):(\d{2})\s*([AaPp]\.?\s*[Mm]\.?)?
unfoldable pub clock_time : Unicode → Pattern
clock_time u = then_ (group (one_or_two_digits u)) (
    then_ (one (λ c. eqb c b':')) (
      then_ (group (exactly 2 (is_decimal u)))
        (then_ (many is_space) (maybe ([] ∷ []) (group half_day)))))

abbrev pub hour_24 : ℕ → Text → ℕ
hour_24 hh ap =
    if ap == codes "pm" && not (eqb hh 12)
    then hh + 12
    else if ap == codes "am" && eqb hh 12
    then 0
    else hh

-- `f"{hh % 24:02d}:{mm % 60:02d}"`
abbrev pub hour_minute : ℕ → ℕ → Text
hour_minute hh mm = two_digits (hh % 24) ++ codes ":" ++ two_digits (mm % 60)

abbrev pub clock_of_groups : Unicode → List Text → Text
clock_of_groups u (hh ∷ mm ∷ ap ∷ []) =
    let half = replace_char b' ' [] (replace_char b'.' [] (u.lower ap)) in
    hour_minute (hour_24 (number u hh) half) (number u mm)
clock_of_groups u other = []

unfoldable pub parse_times_24h : Unicode → Text → List Text
parse_times_24h u text =
    map (λ found. clock_of_groups u found.groups) (find_all (clock_time u) text)

-- `sorted` of a list of texts, by their code points.
unfoldable pub text_le : Text → Text → Bool
text_le [] t = true
text_le (a ∷ s) [] = false
text_le (a ∷ s) (b ∷ t) = ltb a b || eqb a b && text_le s t

unfoldable pub insert : Text → List Text → List Text
insert s [] = s ∷ []
insert s (t ∷ ts) = elim (text_le s t) [ true ↦ s ∷ t ∷ ts | false ↦ t ∷ insert s ts ]

unfoldable pub sorted : List Text → List Text
sorted [] = []
sorted (s ∷ ts) = insert s (sorted ts)

abbrev pub first_or : Text → List Text → Text
first_or default [] = default
first_or default (t ∷ ts) = t

abbrev pub last_or {ℓ} : {A : Type ℓ} → A → List A → A
last_or default [] = default
last_or default (t ∷ ts) = last_or t ts

-- `f"{date}T{time}:00"`
abbrev pub instant : Text → Text → Text
instant date time = date ++ codes "T" ++ time ++ codes ":00"

abbrev pub times_or_noon : List Text → List Text
times_or_noon [] = codes "12:00" ∷ []
times_or_noon (t ∷ ts) = t ∷ ts

abbrev pub single_window : Text → List Text → Text × Text
single_window date times = (instant date (first_or [] times), instant date (last_or [] times))

-- From the first date to the last, each with the times after it.
abbrev pub range_window : Unicode → Text → Found × Text → Found × Text → Text × Text
range_window u text (first, start_date) (last, end_date) =
    let start_segment = take (last.start - first.stop) (drop first.stop text) in
    let end_segment = drop last.stop text in
    (
      instant start_date (first_or (codes "00:00") (parse_times_24h u start_segment)),
      instant end_date (last_or (codes "23:59") (parse_times_24h u end_segment)),
    )

abbrev pub window_of_dates : Unicode → Text → List (Found × Text) → Text × Text
window_of_dates u text [] = ([], [])
window_of_dates u text ((found, date) ∷ []) =
    single_window date (times_or_noon (sorted (parse_times_24h u text)))
window_of_dates u text (first ∷ next ∷ dates) = range_window u text first (last_or next dates)

unfoldable pub window_datetimes_from_text : Unicode → Text → Text × Text
window_datetimes_from_text u text = window_of_dates u text (parse_ddmmyyyy_matches u text)
