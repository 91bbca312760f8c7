-- ===== src/ClosedIndex.antt =====
-- src/20_pipeline/037-collect-closed-index.py: the resumable crawl of the Closed and Cancelled
-- listings. What the portal shows in one run is a parameter, page by page; so are the folders and
-- files that a record has on disk.
pub mod Loop
pub mod Kept
pub mod Cursor
pub mod Resume
pub mod Reach
pub mod Runs
mod Tests
use panamacompra_collector_b.Prelude.{
  ℕ, suc, ◌+◌, ◌*◌, ◌%◌, not, eqb, strip, Bool, true, false, ◌&&◌, ◌||◌, Option, none, some, List,
  [], ◌∷◌, ltb, leb, if◌then◌else◌, all, Text, codes, is_empty, starts_with, member,
}
use panamacompra_collector_b.Unicode.{Unicode, strip_accents}
use panamacompra_collector_b.Naming
use panamacompra_collector_b.Regex.{Match}
use panamacompra_collector_b.Details.Window.{day_month_year, number}
use panamacompra_collector_b.Archive.{Opportunity, Origin, IndexRow, Db, find_existing_opportunity}
use panamacompra_collector_b.Index.{Outcome, new, existing, insert_or_update_index}

abbrev divides : ℕ → ℕ → Bool
divides d n = eqb (n % d) 0

abbrev pub days_in_month : ℕ → ℕ → ℕ
days_in_month year month =
    if eqb month 2
    then (if divides 400 year || divides 4 year && not (divides 100 year) then 29 else 28)
    else if eqb month 4 || eqb month 6 || eqb month 9 || eqb month 11
    then 30
    else 31

-- `datetime(year, month, day).date()`, as a number in the order of the dates; `none` is a ValueError.
unfoldable pub date_number : ℕ → ℕ → ℕ → Option ℕ
date_number year month day =
    if leb 1 year && leb 1 month && leb month 12 && leb 1 day && leb day (days_in_month year month)
    then some ((year * 13 + month) * 32 + day)
    else none

abbrev date_of_groups : Unicode → List Text → Option ℕ
date_of_groups u (day ∷ month ∷ year ∷ []) =
    date_number (number u year) (number u month) (number u day)
date_of_groups u groups = none

abbrev date_of_match : Unicode → List Match → Option ℕ
date_of_match u [] = none
date_of_match u ((groups, rest) ∷ found) = date_of_groups u groups

unfoldable pub parse_dmy_date : Unicode → Text → Option ℕ
parse_dmy_date u text = date_of_match u (day_month_year u (strip text))

pub data Mode : Type 0 where
  forward : Mode
  backfill : Mode

-- A row of the listing, as `extract_rows` returns it.
pub record SiteRow : Type 0 where
  pub numero : Text
  pub estado : Text
  pub descripcion : Text
  pub entidad : Text
  pub dependencia : Text
  pub fecha : Text
  pub modalidad : Text
  pub link : Text

-- Whether the tab opens, the rows of each page, and what a click on Next does on each page:
-- `none` where it moves, and the reason where it does not.
pub record Portal : Type 0 where
  pub click_group : Bool
  pub extract_rows : ℕ → List SiteRow
  pub click_next : ℕ → Option Text

-- Where a record is on disk, and whether its archive is complete.
pub record Folder : Type 0 where
  pub date_folder : Text
  pub record_folder : Text
  pub index_json_path : Text
  pub complete : Bool

pub record Config : Type 0 where
  pub unicode : Unicode
  pub mode : Mode
  pub group : Text
  pub estado_prefix : Text
  pub page_cap : ℕ
  -- `forward_cutoff_date`, `backfill_cutoff_date`, and the bounds that the staff set.
  pub forward_cutoff_date : ℕ
  pub backfill_cutoff_date : ℕ
  pub backfill_start_date : Option ℕ
  pub backfill_end_date : Option ℕ
  pub now_iso : Text
  -- `find_existing_record_archive`, and the folder of a new record.
  pub find_existing_record_archive : Text → Option Folder
  pub new_folder : SiteRow → Folder

-- `stop_reason`, without the numbers in its text: a reason of the pager is kept.
pub data Stop : Type 0 where
  running : Stop
  page_cap_reached : Stop
  target_date : Stop
  no_next : Text → Stop
  range_not_reached : Stop
  short_of_cursor : Text → Stop

-- The variables of `main` that its loop changes.
pub record Run : Type 0 where
  pub conn : Db
  pub seen : List Text
  pub page_counts : List (ℕ × ℕ)
  pub page_number : ℕ
  pub new_records : ℕ
  pub existing_records : ℕ
  pub target_range_rows : ℕ
  pub newer_than_range_rows : ℕ
  pub reached_last_page : Bool
  pub reached_cutoff_date : Bool
  pub stop_reason : Stop

module _ (g : Config) where
  unfoldable pub cutoff_date : ℕ
  cutoff_date = elim g.mode [
    | forward ↦ g.forward_cutoff_date
    | backfill ↦ elim g.backfill_start_date [ none ↦ g.backfill_cutoff_date | some d ↦ d ]
  ]

  unfoldable pub range_end_date : Option ℕ
  range_end_date = elim g.mode [ forward ↦ none | backfill ↦ g.backfill_end_date ]

  unfoldable pub of_group : SiteRow → Bool
  of_group r =
      is_empty r.estado
      || starts_with (g.unicode.lower (strip_accents g.unicode r.estado)) g.estado_prefix

  abbrev pub count_date : Option ℕ → Option ℕ → Run → Run
  count_date none date s = s
  count_date (some last) none s = s
  count_date (some last) (some date) s =
      if leb cutoff_date date && leb date last
      then record s { target_range_rows = suc s.target_range_rows }
      else if ltb last date
      then record s { newer_than_range_rows = suc s.newer_than_range_rows }
      else s

  -- The rows of the requested range, and those that are newer.
  unfoldable pub count_rows : List SiteRow → Run → Run
  count_rows [] s = s
  count_rows (r ∷ rows) s =
      count_rows rows (count_date range_end_date (parse_dmy_date g.unicode r.fecha) s)

  unfoldable pub page_dates : List SiteRow → List ℕ
  page_dates [] = []
  page_dates (r ∷ rows) = elim (parse_dmy_date g.unicode r.fecha) [
    | none ↦ page_dates rows
    | some date ↦ date ∷ page_dates rows
  ]

  -- `page_dates and max(page_dates) < cutoff_date`
  abbrev pub all_past : List ℕ → Bool
  all_past [] = false
  all_past (d ∷ dates) = all (λ x. ltb x cutoff_date) (d ∷ dates)

  abbrev pub newer : Option ℕ → Option ℕ → Bool
  newer none date = false
  newer (some last) none = false
  newer (some last) (some date) = ltb last date

  abbrev origin_at : Folder → Origin
  origin_at f = record {
    first_seen = some g.now_iso;
    date_folder = some f.date_folder;
    record_folder = some f.record_folder;
    index_json_path = some f.index_json_path;
  }

  -- Where the record is or goes, and whether it was on disk but not in the archive. A row of the
  -- archive has its folder and its index file.
  unfoldable pub place_of : SiteRow → Option Opportunity → Origin × Bool
  place_of r (some old) = (old.origin, false)
  place_of r none = elim (g.find_existing_record_archive r.numero) [
    | none ↦ (origin_at (g.new_folder r), false)
    | some f ↦ (origin_at f, true)
  ]

  abbrev status_of : SiteRow → Option Opportunity → Option Text
  status_of r (some old) = old.detail_status
  status_of r none = elim (g.find_existing_record_archive r.numero) [
    | none ↦ some (codes "pending")
    | some f ↦ some (if f.complete then codes "saved" else codes "pending")
  ]

  abbrev finish_of : Option Opportunity → Option Text
  finish_of none = some []
  finish_of (some old) = old.finish_date_guess

  unfoldable pub row_of : SiteRow → Option Opportunity → IndexRow
  row_of r found = record {
    numero = r.numero;
    listing = record {
      grupo = some g.group;
      estado = some r.estado;
      descripcion = some r.descripcion;
      short_description = some (Naming.short_description r.descripcion);
      entidad = some r.entidad;
      dependencia = some r.dependencia;
      fecha = some r.fecha;
      modalidad = some r.modalidad;
      link = some r.link;
      last_seen = g.now_iso;
      tipo_url = some (Naming.detect_url_type g.unicode r.link);
    };
    origin = (place_of r found).0;
    detail_status = status_of r found;
    finish_date_guess = finish_of found;
  }

  abbrev pub counted : Outcome → Bool → Run → Run
  counted new false s = record s { new_records = suc s.new_records }
  counted new true s = record s { existing_records = suc s.existing_records }
  counted existing on_disk s = record s { existing_records = suc s.existing_records }

  unfoldable pub store_row : SiteRow → Run → Run
  store_row r s =
      let found = find_existing_opportunity s.conn r.numero in
      let result = insert_or_update_index g.unicode s.conn (row_of r found) (codes "index") in
      counted result.0 (place_of r found).1 (record s { conn = result.1 })

  -- A row that was seen, one that is newer than the range, or one to store.
  abbrev pub visit : Bool → Bool → SiteRow → Run → Run
  visit true later r s = s
  visit false true r s = record s { seen = r.numero ∷ s.seen }
  visit false false r s = store_row r (record s { seen = r.numero ∷ s.seen })

  unfoldable pub store_rows : List SiteRow → Run → Run
  store_rows [] s = s
  store_rows (r ∷ rows) s =
      store_rows rows (
        visit (member r.numero s.seen) (newer range_end_date (parse_dmy_date g.unicode r.fecha)) r
          s)
