-- ===== src/Details/Resolved.antt =====
-- What the close window of a record is.
use panamacompra_collector_b.Prelude.{
  ◌≡◌, refl, ◌⊎◌, inl, inr, Option, none, some, List, [], ◌∷◌, Text,
}
use panamacompra_collector_b.Unicode.{Unicode}
use panamacompra_collector_b.Regex.{Found}
use panamacompra_collector_b.Regex.Parses.{IsFound, IsOption, search-IsFound}
use panamacompra_collector_b.Details.Window.{parse_ddmmyyyy, iso_of_found, day_month_year}
use panamacompra_collector_b.Details.Groups.{IsDateGroups, day_month_year-Parses}
use panamacompra_collector_b.Details.Instants.{
  HasDigits, IsDate, IsWindow, instant-IsInstant, noon-IsClock, window_datetimes_from_text-IsWindow,
  iso_of_groups-IsDate,
}
use panamacompra_collector_b.Details.Close.{
  Window, or_window, first_window, noon_of, noon_of_groups, delivery_window,
  resolve_close_datetimes, no_window,
}

abbrev pub IsResolved : Unicode → Window → Type 0
IsResolved u w = IsWindow u w.dtstart w.dtend

or_window-IsResolved :
    (u : Unicode) (times : Text × Text) (source : Text) (other : Window)
    → IsWindow u times.0 times.1
    → IsResolved u other
    → IsResolved u (or_window times source other)
or_window-IsResolved u (dtstart, []) source other h k = k
or_window-IsResolved u (dtstart, c ∷ dtend) source other h k = h

first_window-IsResolved :
    (u : Unicode) (windows : List Text) (other : Window)
    → HasDigits u
    → IsResolved u other
    → IsResolved u (first_window u windows other)
unfolding first_window
first_window-IsResolved u [] other digits h = h
first_window-IsResolved u ([] ∷ windows) other digits h =
    first_window-IsResolved u windows other digits h
first_window-IsResolved u ((c ∷ window) ∷ windows) other digits h =
    or_window-IsResolved u _ (c ∷ window) _
      (window_datetimes_from_text-IsWindow u (c ∷ window) digits)
      (first_window-IsResolved u windows other digits h)

abbrev IsDateOrNone : Unicode → Text → Type 0
IsDateOrNone u date = (date ≡ []) ⊎ IsDate u date

found-IsDateOrNone :
    (u : Unicode) (found : Option Found)
    → HasDigits u
    → IsOption (IsFound (IsDateGroups u)) found
    → IsDateOrNone u (iso_of_found u found)
found-IsDateOrNone u none digits h = inl refl
found-IsDateOrNone u (some found) digits h =
    inr (iso_of_groups-IsDate u digits found.groups h.0 h.1)

parse_ddmmyyyy-IsDateOrNone :
    (u : Unicode) (text : Text) → HasDigits u → IsDateOrNone u (parse_ddmmyyyy u text)
unfolding parse_ddmmyyyy
parse_ddmmyyyy-IsDateOrNone u text digits =
    found-IsDateOrNone u _ digits
      (search-IsFound (IsDateGroups u) (day_month_year u) text (day_month_year-Parses u))

noon_of-IsResolved :
    (u : Unicode) (source date : Text) (other : Window)
    → IsDateOrNone u date
    → IsResolved u other
    → IsResolved u (noon_of source date other)
noon_of-IsResolved u source [] other h k = k
noon_of-IsResolved u source (c ∷ date) other (inl none_) k = absurd (cc none_)
noon_of-IsResolved u source (c ∷ date) other (inr h) k =
    inr (instant-IsInstant u _ _ h noon-IsClock, instant-IsInstant u _ _ h noon-IsClock)

noon_of_groups-IsResolved :
    (u : Unicode) (groups : List Text) (other : Window)
    → HasDigits u
    → IsResolved u other
    → IsResolved u (noon_of_groups u groups other)
noon_of_groups-IsResolved u [] other digits h = h
noon_of_groups-IsResolved u (date ∷ []) other digits h =
    noon_of-IsResolved u date _ other (parse_ddmmyyyy-IsDateOrNone u date digits) h
noon_of_groups-IsResolved u (date ∷ more ∷ groups) other digits h = h

delivery_window-IsResolved :
    (u : Unicode) (found : Option Found) (other : Window)
    → HasDigits u
    → IsResolved u other
    → IsResolved u (delivery_window u found other)
delivery_window-IsResolved u none other digits h = h
delivery_window-IsResolved u (some found) other digits h =
    noon_of_groups-IsResolved u found.groups other digits h

-- Where no decimal digit has a value over 9: whatever the table values and the text are, the start and
-- the end that are resolved are both empty, or both YYYY-MM-DDTHH:MM:00, with a year of four decimal
-- digits, a month and a day of two figures, an hour under 24 and a minute under 60.
pub resolve_close_datetimes-IsResolved :
    (u : Unicode) (key_values : List (Text × Text)) (text : Text)
    → HasDigits u
    → IsResolved u (resolve_close_datetimes u key_values text)
unfolding resolve_close_datetimes
resolve_close_datetimes-IsResolved u key_values text digits = first_window-IsResolved u _ _ digits (
    delivery_window-IsResolved u _ _ digits (
      or_window-IsResolved u _ text no_window (window_datetimes_from_text-IsWindow u text digits)
        (inl (refl, refl))))
