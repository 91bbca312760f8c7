-- ===== src/Details/Close.antt =====
-- The close window of a record, which its folder and its calendar event share.
use panamacompra_collector_b.Prelude.{
  Bool, not, ◌&&◌, ◌||◌, Option, none, some, List, [], ◌∷◌, ◌++◌, if◌then◌else◌, take, drop, Text,
  codes, is_empty, contains,
}
use panamacompra_collector_b.Unicode.{Unicode, strip_accents}
use panamacompra_collector_b.Naming.{is_figure}
use panamacompra_collector_b.Regex.{
  Pattern, Found, then_, one, at_most, group, exactly, literal, search,
}
use panamacompra_collector_b.Details.Window.{
  one_or_two_digits, is_date_mark, parse_ddmmyyyy, instant, window_datetimes_from_text,
}
use panamacompra_collector_b.Details.Fields.{find_kv, parse_detail_fields}
use panamacompra_collector_b.Naming.{is_decimal}

abbrev pub closes : Text → Bool
closes kl =
    contains kl (codes "presentaci")
      && (contains kl (codes "cotiza") || contains kl (codes "propuesta"))
    || contains kl (codes "cierre")
    || contains kl (codes "limite")

unfoldable pub close_window_value : Unicode → List (Text × Text) → Text
close_window_value u [] = []
close_window_value u ((key, value) ∷ fields) =
    if not (is_empty value) && closes (u.lower (strip_accents u key))
    then value
    else close_window_value u fields

pub record Window : Type 0 where
  pub source_window : Text
  pub dtstart : Text
  pub dtend : Text

abbrev pub no_window : Window
no_window = record { source_window = []; dtstart = []; dtend = [] }

abbrev pub window_of : Text → Text × Text → Window
window_of source (dtstart, dtend) = record {
  source_window = source;
  dtstart = dtstart;
  dtend = dtend;
}

-- The window of one value, where it has a date; else the other windows.
abbrev pub or_window : Text × Text → Text → Window → Window
or_window (dtstart, []) source other = other
or_window (dtstart, c ∷ dtend) source other = window_of source (dtstart, c ∷ dtend)

unfoldable pub first_window : Unicode → List Text → Window → Window
first_window u [] other = other
first_window u ([] ∷ windows) other = first_window u windows other
first_window u ((c ∷ window) ∷ windows) other =
    or_window (window_datetimes_from_text u (c ∷ window)) (c ∷ window)
      (first_window u windows other)

-- entrega[^0-9]{0,40}(\d{1,2}[-/]\d{1,2}[-/]\d{4})
unfoldable pub delivery_phrase : Unicode → Pattern
delivery_phrase u = then_ (literal (codes "entrega")) (
    then_ (at_most 40 (λ c. not (is_figure c))) (
      group (
        then_ (one_or_two_digits u) (
          then_ (one is_date_mark)
            (then_ (one_or_two_digits u) (then_ (one is_date_mark) (exactly 4 (is_decimal u))))))))

-- A date alone stands for its noon.
abbrev pub noon_of : Text → Text → Window → Window
noon_of source [] other = other
noon_of source (c ∷ date) other =
    window_of source (instant (c ∷ date) (codes "12:00"), instant (c ∷ date) (codes "12:00"))

abbrev pub noon_of_groups : Unicode → List Text → Window → Window
noon_of_groups u (date ∷ []) other = noon_of date (parse_ddmmyyyy u date) other
noon_of_groups u groups other = other

abbrev pub delivery_window : Unicode → Option Found → Window → Window
delivery_window u none other = other
delivery_window u (some found) other = noon_of_groups u found.groups other

unfoldable pub resolve_close_datetimes : Unicode → List (Text × Text) → Text → Window
resolve_close_datetimes u key_values text =
    let text_fields = parse_detail_fields u text in
    first_window u
      (close_window_value u key_values
        ∷ find_kv u key_values (codes "entrega" ∷ [])
        ∷ close_window_value u text_fields
        ∷ find_kv u text_fields (codes "dia" ∷ codes "hora" ∷ codes "entrega" ∷ [])
        ∷ [])
      (delivery_window u (search (delivery_phrase u) (strip_accents u text))
        (or_window (window_datetimes_from_text u text) text no_window))

-- `f"{dtend[:10]}_{dtend[11:16]}"`
abbrev pub stamp_of : Text → Text
stamp_of [] = []
stamp_of (c ∷ dtend) = take 10 (c ∷ dtend) ++ codes "_" ++ take 5 (drop 11 (c ∷ dtend))

unfoldable pub compute_finish_stamp : Unicode → List (Text × Text) → Text → Text
compute_finish_stamp u key_values text =
    let window = resolve_close_datetimes u key_values text in stamp_of window.dtend
