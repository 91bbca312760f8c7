-- ===== src/ClosedIndex/Tests.antt =====
-- The crawl on a listing of three pages.
use panamacompra_collector_b.Prelude.{
  ℕ, ◌+◌, ◌<◌, ◌≡◌, refl, true, false, Option, none, some, [], ◌∷◌, arith, ltb, if◌then◌else◌,
  length, keep, any, all, Text, codes, starts_with, member,
}
use panamacompra_collector_b.Table
use mathlib.Core.List.{flat_map}
use panamacompra_collector_b.Unicode.{ascii, strip_accents}
use panamacompra_collector_b.Archive.{find_existing_opportunity}
use panamacompra_collector_b.Index.{insert_index, insert_or_update_index}
use panamacompra_collector_b.Samples.{empty_db}
use panamacompra_collector_b.Prelude.{strip}
use panamacompra_collector_b.Regex.{then_, group, at_most, exactly}
use panamacompra_collector_b.Details.Window.{day_month_year, one_or_two_digits, number_from}
use panamacompra_collector_b.ClosedIndex.{
  parse_dmy_date, date_number, backfill, Portal, SiteRow, Config, range_end_date, of_group,
  count_rows, page_dates, store_row, store_rows, place_of, row_of, cutoff_date,
}
use panamacompra_collector_b.ClosedIndex.Loop.{
  crawl_page, range_missed, stop_at_last, crawl_from, skip_pages, skip_to_page, crawl,
}
use panamacompra_collector_b.ClosedIndex.Cursor.{pages_of}
use panamacompra_collector_b.ClosedIndex.Runs.{cursor, runs, runs-Completed}

program : Unit {0}
unfolding codes skip_pages skip_to_page crawl_page crawl_from stop_at_last range_missed crawl
    range_end_date of_group count_rows page_dates store_row store_rows place_of row_of cutoff_date
    find_existing_opportunity insert_or_update_index insert_index starts_with keep any all member
    length Table.find
program = tt

abbrev row_on : ℕ → SiteRow
row_on page = record {
  numero = (48 + page) ∷ [];
  estado = codes "Cerrada";
  descripcion = codes "Compra";
  entidad = codes "MINSA";
  dependencia = codes "Compras";
  fecha = codes "23-06-2026";
  modalidad = codes "Cotizacion";
  link = codes "https://p/1";
}

abbrev moves : ℕ → Option Text
moves page = if ltb page 3 then none else some (codes "Next disabled")

abbrev three_pages : Portal
three_pages = record {
  click_group = true;
  extract_rows = λ page. row_on page ∷ [];
  click_next = moves;
}

abbrev settings : Config
settings = record {
  unicode = ascii;
  mode = backfill;
  group = codes "Cerradas";
  estado_prefix = codes "cerrad";
  page_cap = 2;
  forward_cutoff_date = 100;
  backfill_cutoff_date = 100;
  backfill_start_date = none;
  backfill_end_date = none;
  now_iso = codes "2026-07-01T10:00:00";
  find_existing_record_archive = λ numero. none;
  new_folder = λ r. record {
    date_folder = codes "26-06-23";
    record_folder = codes "/r/26-06-23";
    index_json_path = codes "/r/26-06-23/i.json";
    complete = false;
  };
}

before_last : (i : ℕ) → i < 3 → moves i ≡ none
before_last i h = ground arith

leap_day : parse_dmy_date ascii (codes "29/02/2024") ≡ some 842077
unfolding program parse_dmy_date day_month_year then_ group one_or_two_digits strip at_most exactly
    date_number number_from
leap_day = refl

no_leap_day : parse_dmy_date ascii (codes "29/02/2026") ≡ none
unfolding program parse_dmy_date day_month_year then_ group one_or_two_digits strip at_most exactly
    date_number number_from
no_leap_day = refl

-- The second run reads the last page, and not more.
second_run : pages_of (crawl settings three_pages 3 empty_db) ≡ 3 ∷ []
unfolding program strip_accents flat_map parse_dmy_date day_month_year then_ group one_or_two_digits
    strip at_most exactly date_number number_from
second_run = refl

runs-Completed_example :
    (cursor settings (runs settings three_pages 2 empty_db)).backfill_complete ≡ true
unfolding program
runs-Completed_example =
    runs-Completed settings three_pages 3 refl refl (refl, before_last, codes "Next disabled", refl)
      2 empty_db (omega arith) (omega arith)
