-- ===== src/Details/Tests.antt =====
-- The reading of detail pages, run on examples.
use panamacompra_collector_b.Prelude.{
  str, ℕ, ◌≤◌, ◌≡◌, refl, ◌≢◌, true, none, some, List, [], ◌∷◌, ◌++◌, map, arith, take, drop, keep,
  any, all, All, Text, codes, ◌==◌, is_space, lstrip_by, strip_by, strip, starts_with, contains,
  member,
}
use panamacompra_collector_b.Prelude.{digits_before}
use mathlib.Core.List.{flat_map}
use panamacompra_collector_b.Unicode.{ascii, strip_accents}
use panamacompra_collector_b.Filter.{split_by, join}
use panamacompra_collector_b.Splits.{split_once, splitlines, lines_from}
use panamacompra_collector_b.Ics.{replace_char}
use panamacompra_collector_b.Regex.{
  squeeze, then_, at_most, many, some_of, group, exactly, literal, at_end, search_from, search,
  find_from, find_all,
}
use panamacompra_collector_b.Naming.{
  is_figure, is_decimal, clean, is_safe, is_kept, at_ends, safe_name, desc_slug,
  build_record_folder_leaf, iso_date, date_folder_from_finish_stamp,
}
use panamacompra_collector_b.Details.Window.{
  number_from, one_or_two_digits, day_month_year, parse_ddmmyyyy, parse_ddmmyyyy_matches, half_day,
  clock_time, parse_times_24h, text_le, insert, sorted, window_datetimes_from_text,
  date_folder_from_fecha,
}
use panamacompra_collector_b.Details.Fields.{
  put, put_rows, key_values_from_rows, items_header, items_section, norm_label, known_labels,
  field_pairs_on_line, before_items, fields_of_lines, pair_lines, parse_detail_fields, find_kv,
}
use panamacompra_collector_b.Details.Close.{
  close_window_value, first_window, delivery_phrase, resolve_close_datetimes, compute_finish_stamp,
  stamp_of,
}
use panamacompra_collector_b.Details.Items.{
  PageTable, Item, columns_from, items_header_index, items_of_rows, items_from_tables, item_line,
  after_header, items_of_lines, items_from_text, parse_detail_items,
}
use panamacompra_collector_b.Details.Event.{
  EventSettings, NamedRow, NamingFields, build_summary, calendar_attendees, labelled_value,
  location_of, calendar_description, build_calendar, aggregate, build_detail_views, naming_fields,
  maybe_rename_folder,
}
use panamacompra_collector_b.Details.Resolved.{IsResolved, resolve_close_datetimes-IsResolved}
use panamacompra_collector_b.Details.Parsed.{AreFields, parse_detail_fields-AreFields}
use panamacompra_collector_b.Details.Stamps.{HasFigures}
use panamacompra_collector_b.Details.Folder.{event_end, naming_fields-build_detail_views}

program : Unit {0}
unfolding codes ◌==◌ flat_map is_space lstrip_by strip_by strip contains starts_with member keep any
    all strip_accents split_by join split_once splitlines lines_from replace_char str digits_before
    squeeze then_ at_most many some_of group exactly literal at_end search_from search find_from
    find_all clean is_safe is_kept at_ends safe_name desc_slug build_record_folder_leaf iso_date
    date_folder_from_finish_stamp number_from one_or_two_digits day_month_year parse_ddmmyyyy
    parse_ddmmyyyy_matches half_day clock_time parse_times_24h text_le insert sorted
    window_datetimes_from_text date_folder_from_fecha put put_rows key_values_from_rows items_header
    items_section norm_label known_labels field_pairs_on_line before_items fields_of_lines
    pair_lines parse_detail_fields find_kv close_window_value first_window delivery_phrase
    resolve_close_datetimes compute_finish_stamp columns_from items_header_index items_of_rows
    items_from_tables item_line after_header items_of_lines items_from_text parse_detail_items
    build_summary calendar_attendees labelled_value location_of calendar_description build_calendar
    aggregate build_detail_views naming_fields maybe_rename_folder
program = tt

date_range :
    window_datetimes_from_text ascii (codes "23-06-2026 a 26-06-2026")
    ≡ (codes "2026-06-23T00:00:00", codes "2026-06-26T23:59:00")
unfolding program
date_range = refl

afternoon :
    window_datetimes_from_text ascii (codes "3/7/2026 12:00 PM a 03:30 p.m.")
    ≡ (codes "2026-07-03T12:00:00", codes "2026-07-03T15:30:00")
unfolding program
afternoon = refl

-- No month is refused.
month_99 : date_folder_from_fecha ascii (codes "45-99-2026") ≡ codes "26-99-45"
unfolding program
month_99 = refl

page_fields :
    parse_detail_fields ascii
      (codes "Numero: 1\nEntidad\tCSS\nCierre 1-2-2026 08:00\nItems de la cotizacion\nx: y")
    ≡ (codes "Numero", codes "1") ∷ (codes "Entidad", codes "CSS") ∷ []
unfolding program
page_fields = refl

paired_lines :
    parse_detail_fields ascii (codes "Entidad\nCSS\nEstado\nx")
    ≡ (codes "Entidad", codes "CSS") ∷ (codes "Estado", codes "x") ∷ []
unfolding program
paired_lines = refl

abbrev settings : EventSettings
settings = record {
  timezone = codes "America/Panama";
  attendees = codes "a@x, ,b@y";
  dtstamp = codes "2026-01-01T00:00:00";
}

abbrev item_rows : List (List Text)
item_rows =
    (codes "Cantidad" ∷ codes "Descripcion" ∷ [])
    ∷ (codes "2" ∷ codes "Caja" ∷ [])
    ∷ (codes "3" ∷ [] ∷ [])
    ∷ []

-- A grid of items, and a table with the close date of the record.
abbrev tables : List PageTable
tables =
    record { raw_rows = item_rows; key_values = [] }
    ∷ record {
      raw_rows = [];
      key_values = (codes "Fecha de cierre", codes "23-06-2026 08:00") ∷ [];
    }
    ∷ []

abbrev row : NamedRow
row = record { numero = codes "2026-0"; descripcion = codes "Cajas"; short_description = [] }

closes_at_eight :
    event_end ascii settings tables (codes "Entidad: CSS") [] [] ≡ codes "2026-06-23T08:00:00"
unfolding program
closes_at_eight = refl

abbrev proposed : Text
proposed =
    let naming : NamingFields = naming_fields ascii 24 tables [] row in naming.proposed_folder_name

proposed_leaf : proposed ≡ codes "(2026-06-23_08-00)-(2026-0)-(CJS)"
unfolding program
proposed_leaf = refl

moved_to_day :
    maybe_rename_folder ascii true (codes "2026-0") (codes "(2026-06-23_08-00)-(2026-0)-(CJS)")
    ≡ some (codes "(2026-06-23_08-00)-(2026-0)-(CJS)", codes "26-06-23")
unfolding program
moved_to_day = refl

not_moved :
    maybe_rename_folder ascii true (codes "2026-0") (codes "(NO-DATE)-(2026-0)-(NO-DESC)") ≡ none
unfolding program
not_moved = refl

abbrev shown : Item → Text
shown item = item.r ++ codes "|" ++ item.cantidad ++ codes "|" ++ item.descripcion

text_items :
    map shown (
      parse_detail_items ascii
        (codes
          "Cantidad Unidad de Medida Descripcion\n2 Unidad BATERIA 200 Ah\n\n1,5 m cable\nTotal")
        [])
    ≡ codes "1|2|BATERIA 200 Ah" ∷ codes "2|1,5|cable" ∷ []
unfolding program
text_items = refl

-- The values of the ASCII figures.
ascii_value : (c d : ℕ) → ascii.decimal c ≡ some d → d ≤ 9
ascii_value c d h = ground arith

ascii_figure : (c : ℕ) → is_figure c ≡ true → is_decimal ascii c ≡ true
ascii_figure c h = ground arith

ascii-HasFigures : HasFigures ascii
ascii-HasFigures = (ascii_value, ascii_figure, refl)

has_end : event_end ascii settings tables (codes "Entidad: CSS") [] [] ≢ []
unfolding program
has_end h = cc h

ascii_year :
    All
      (λ x. is_figure x ≡ true)
      (take 4 (event_end ascii settings tables (codes "Entidad: CSS") [] []))
unfolding program
ascii_year = (refl, (refl, (refl, (refl, tt))))

naming_fields-build_detail_views_example :
    (let naming : NamingFields = naming_fields ascii 24 tables (codes "Entidad: CSS") row in
      let end = event_end ascii settings tables (codes "Entidad: CSS") [] [] in
      (naming.finish_stamp ≡ stamp_of end)
      × (date_folder_from_finish_stamp ascii naming.proposed_folder_name ≡ drop 2 (take 10 end)))
naming_fields-build_detail_views_example =
    naming_fields-build_detail_views ascii 24 settings tables (codes "Entidad: CSS") [] [] row
      ascii-HasFigures has_end ascii_year

resolve_close_datetimes-IsResolved_example :
    IsResolved ascii
      (resolve_close_datetimes ascii ((codes "Cierre", codes "1-2-2026") ∷ []) (codes "x"))
resolve_close_datetimes-IsResolved_example =
    resolve_close_datetimes-IsResolved ascii ((codes "Cierre", codes "1-2-2026") ∷ []) (codes "x")
      ascii_value

parse_detail_fields-AreFields_example :
    AreFields (parse_detail_fields ascii (codes "Entidad\nCSS\nEntidad\nMINSA"))
parse_detail_fields-AreFields_example =
    parse_detail_fields-AreFields ascii (codes "Entidad\nCSS\nEntidad\nMINSA")
