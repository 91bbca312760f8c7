-- ===== src/Details/Instants.antt =====
-- The dates, clock times and instants that the windows of a text consist of.
use panamacompra_collector_b.Prelude.{
  str, ℕ, ◌%◌, ◌≤◌, ◌<◌, ◌≡◌, refl, ◌⊎◌, inl, inr, true, some, List, [], ◌∷◌, ◌++◌, map, arith,
  Bool-cases, Option-cases, length, All, Text, codes,
}
use panamacompra_collector_b.Prelude.{digits_before}
use panamacompra_collector_b.Unicode.{Unicode}
use panamacompra_collector_b.Naming.{is_decimal, two_digits}
use panamacompra_collector_b.Regex.{Found}
use panamacompra_collector_b.Regex.Parses.{IsFound, find_all-IsFound}
use panamacompra_collector_b.Details.Groups.{
  IsDateGroups, day_month_year-Parses, clock_time-HasGroups,
}
use panamacompra_collector_b.Details.Window.{
  number_from, number, day_month_year, iso_of, iso_of_groups, parse_ddmmyyyy_matches, clock_time,
  hour_minute, clock_of_groups, parse_times_24h, text_le, insert, sorted, first_or, last_or,
  instant, times_or_noon, single_window, window_of_dates, window_datetimes_from_text, digit_or_zero,
}

-- The values of the decimal digits.
abbrev pub HasDigits : Unicode → Type 0
HasDigits u = (c d : ℕ) → u.decimal c ≡ some d → d ≤ 9

-- YYYY-MM-DD: a year of four decimal digits, and two numbers of at most two figures.
abbrev pub IsDate : Unicode → Text → Type 0
IsDate u t =
    (year : Text) × (month : ℕ) × (day : ℕ) × (length year ≡ 4)
    × All (λ c. is_decimal u c ≡ true) year
    × (month ≤ 99)
    × (day ≤ 99)
    × (t ≡ iso_of year month day)

abbrev IsDated : Unicode → Found × Text → Type 0
IsDated u dated = IsDate u dated.1

-- HH:MM, of a day.
abbrev pub IsClock : Text → Type 0
IsClock t =
    (hh : ℕ) × (mm : ℕ) × (hh < 24) × (mm < 60) × (t ≡ two_digits hh ++ codes ":" ++ two_digits mm)

-- YYYY-MM-DDTHH:MM:00
abbrev pub IsInstant : Unicode → Text → Type 0
IsInstant u t =
    (date : Text) × (time : Text) × IsDate u date × IsClock time × (t ≡ instant date time)

-- No window at all, or two instants.
abbrev pub IsWindow : Unicode → Text → Text → Type 0
IsWindow u dtstart dtend = (dtstart ≡ []) × (dtend ≡ []) ⊎ IsInstant u dtstart × IsInstant u dtend

module _ (u : Unicode) (digits : HasDigits u) where
  digit_le : (c : ℕ) → digit_or_zero (u.decimal c) ≤ 9
  digit_le c = elim (Option-cases (u.decimal c)) [
    | inl e ↦ rw e (omega arith)
    | inr (d, e) ↦ rw e (digits c d e)
  ]

  number_le : (t : Text) → length t ≤ 2 → number u t ≤ 99
  unfolding number_from
  number_le [] h = omega arith
  number_le (a ∷ []) h = let e = digit_le a in omega arith
  number_le (a ∷ b ∷ []) h = let e = digit_le a in let k = digit_le b in omega arith
  number_le (a ∷ b ∷ c ∷ t) h = absurd (omega arith)

  pub iso_of_groups-IsDate :
      (groups : List Text) (t : Text) → IsDateGroups u groups t → IsDate u (iso_of_groups u groups)
  iso_of_groups-IsDate groups t h =
      (h.2, number u h.1, number u h.0, h.6, h.7, number_le h.1 h.5, number_le h.0 h.4, rw h.3 refl)

  dates-All :
      (found : List Found)
      → All (IsFound (IsDateGroups u)) found
      → All (IsDated u) (map (λ f. (f, iso_of_groups u f.groups)) found)
  dates-All [] h = tt
  dates-All (f ∷ found) h =
      let (before, groups) = h.0 in
      (iso_of_groups-IsDate f.groups before groups, dates-All found h.1)

  parse_ddmmyyyy_matches-IsDate : (text : Text) → All (IsDated u) (parse_ddmmyyyy_matches u text)
  unfolding parse_ddmmyyyy_matches
  parse_ddmmyyyy_matches-IsDate text =
      dates-All _
        (find_all-IsFound (IsDateGroups u) (day_month_year u) text (day_month_year-Parses u))

hour_minute-IsClock : (hh mm : ℕ) → IsClock (hour_minute hh mm)
hour_minute-IsClock hh mm = (hh % 24, mm % 60, omega arith, omega arith, refl)

clock_of_groups-IsClock :
    (u : Unicode) (groups : List Text) → length groups ≡ 3 → IsClock (clock_of_groups u groups)
clock_of_groups-IsClock u [] h = absurd (omega arith)
clock_of_groups-IsClock u (a ∷ []) h = absurd (omega arith)
clock_of_groups-IsClock u (a ∷ b ∷ []) h = absurd (omega arith)
clock_of_groups-IsClock u (a ∷ b ∷ c ∷ []) h = hour_minute-IsClock _ _
clock_of_groups-IsClock u (a ∷ b ∷ c ∷ d ∷ groups) h = absurd (omega arith)

times-All :
    (u : Unicode) (found : List Found)
    → All (IsFound (λ groups before. length groups ≡ 3)) found
    → All IsClock (map (λ f. clock_of_groups u f.groups) found)
times-All u [] h = tt
times-All u (f ∷ found) h =
    let (before, three) = h.0 in (clock_of_groups-IsClock u f.groups three, times-All u found h.1)

parse_times_24h-IsClock : (u : Unicode) (text : Text) → All IsClock (parse_times_24h u text)
unfolding parse_times_24h
parse_times_24h-IsClock u text = times-All u _ (
    find_all-IsFound (λ groups before. length groups ≡ 3) (clock_time u) text
      (clock_time-HasGroups u))

-- `sorted` keeps what holds of every text.
insert-All : (P : Text → Type 0) (s : Text) (ts : List Text) → P s → All P ts → All P (insert s ts)
unfolding insert
insert-All P s [] h k = (h, tt)
insert-All P s (t ∷ ts) h k = elim (Bool-cases (text_le s t)) [
  | inl e ↦ rw (e, insert) (h, k)
  | inr e ↦ rw (e, insert) (k.0, insert-All P s ts h k.1)
]

sorted-All : (P : Text → Type 0) (ts : List Text) → All P ts → All P (sorted ts)
unfolding sorted
sorted-All P [] h = tt
sorted-All P (t ∷ ts) h = insert-All P t (sorted ts) h.0 (sorted-All P ts h.1)

first_or-All :
    (P : Text → Type 0) (default : Text) (ts : List Text)
    → P default
    → All P ts
    → P (first_or default ts)
first_or-All P default [] d h = d
first_or-All P default (t ∷ ts) d h = h.0

last_or-All {ℓ} :
    {A : Type ℓ} (P : A → Type 0) (default : A) (ts : List A)
    → P default
    → All P ts
    → P (last_or default ts)
last_or-All P default [] d h = d
last_or-All P default (t ∷ ts) d h = last_or-All P t ts h.0 h.1

pub noon-IsClock : IsClock (codes "12:00")
unfolding codes str digits_before
noon-IsClock = (12, 0, omega arith, omega arith, refl)

midnight-IsClock : IsClock (codes "00:00")
unfolding codes str digits_before
midnight-IsClock = (0, 0, omega arith, omega arith, refl)

last_minute-IsClock : IsClock (codes "23:59")
unfolding codes str digits_before
last_minute-IsClock = (23, 59, omega arith, omega arith, refl)

pub instant-IsInstant :
    (u : Unicode) (date time : Text)
    → IsDate u date
    → IsClock time
    → IsInstant u (instant date time)
instant-IsInstant u date time d t = (date, time, d, t, refl)

single-IsWindow :
    (u : Unicode) (date : Text) (times : List Text)
    → IsDate u date
    → All IsClock times
    → IsInstant u (single_window date (times_or_noon times)).0
      × IsInstant u (single_window date (times_or_noon times)).1
single-IsWindow u date [] d h =
    (instant-IsInstant u date _ d noon-IsClock, instant-IsInstant u date _ d noon-IsClock)
single-IsWindow u date (t ∷ ts) d h = (
  instant-IsInstant u date t d h.0,
  instant-IsInstant u date _ d (last_or-All IsClock t ts h.0 h.1),
)

window_of_dates-IsWindow :
    (u : Unicode) (text : Text) (dates : List (Found × Text))
    → All (IsDated u) dates
    → IsWindow u (window_of_dates u text dates).0 (window_of_dates u text dates).1
window_of_dates-IsWindow u text [] h = inl (refl, refl)
window_of_dates-IsWindow u text ((found, date) ∷ []) h =
    inr (single-IsWindow u date _ h.0 (sorted-All IsClock _ (parse_times_24h-IsClock u text)))
window_of_dates-IsWindow u text ((first, start_date) ∷ next ∷ dates) h =
    let last = last_or-All (IsDated u) next dates h.1.0 h.1.1 in
    inr (
      instant-IsInstant u start_date _ h.0
          (first_or-All IsClock _ _ midnight-IsClock (parse_times_24h-IsClock u _)),
      instant-IsInstant u _ _ last
          (last_or-All IsClock _ _ last_minute-IsClock (parse_times_24h-IsClock u _)),
    )

pub window_datetimes_from_text-IsWindow :
    (u : Unicode) (text : Text)
    → HasDigits u
    → IsWindow u (window_datetimes_from_text u text).0 (window_datetimes_from_text u text).1
unfolding window_datetimes_from_text
window_datetimes_from_text-IsWindow u text digits =
    window_of_dates-IsWindow u text _ (parse_ddmmyyyy_matches-IsDate u digits text)
