-- ===== src/Archive.antt =====
-- The archive database of src/common.py (`init_db`, `ensure_db_schema`): the tables that the
-- modelled operations read and write. A column that may be NULL is an `Option`. The columns of
-- `opportunities` are grouped by the statements that write them together.
use panamacompra_collector_b.Prelude.{
  some_inj, ℕ, ◌≡◌, inl, inr, Bool, Option, none, some, List, [], ◌∷◌, Bool-cases, All, Text, ◌==◌,
}
use mathlib.Core.Path.{subst}
use panamacompra_collector_b.Table

-- The columns that every sighting of a listing row refreshes (the UPDATE of
-- `insert_or_update_index`, without its status columns).
pub record Listing : Type 0 where
  pub grupo : Option Text
  pub estado : Option Text
  pub descripcion : Option Text
  pub short_description : Option Text
  pub entidad : Option Text
  pub dependencia : Option Text
  pub fecha : Option Text
  pub modalidad : Option Text
  pub link : Option Text
  -- Every statement that writes this column binds a timestamp.
  pub last_seen : Text
  pub tipo_url : Option Text

-- The columns that are written once, by the INSERT.
pub record Origin : Type 0 where
  pub first_seen : Option Text
  pub date_folder : Option Text
  pub record_folder : Option Text
  pub index_json_path : Option Text

-- The columns of the detail download.
pub record Detail : Type 0 where
  pub detail_status : Option Text
  pub detail_attempts : ℕ
  pub detail_saved_at : Option Text
  pub detail_json_path : Option Text
  pub finish_date_guess : Option Text
  pub start_date_guess : Option Text

-- The columns of the status tracking.
pub record Tracking : Type 0 where
  pub pending_status_change : Option Text
  pub status_flag : Option Text
  pub status_updated_at : Option Text
  pub closed_at : Option Text

-- The columns of the notifier.
pub record Notice : Type 0 where
  pub notified_at : Option Text
  pub detail_notified_at : Option Text
  pub last_notified_status : Option Text
  pub last_notified_items_hash : Option Text
  pub last_notified_signature : Option Text
  pub notify_attempts : Option ℕ
  pub notify_error : Option Text
  pub last_calendar_export_path : Option Text

-- A row of `opportunities`.
pub record Opportunity : Type 0 where
  pub numero : Text
  pub listing : Listing
  pub open listing use *
  pub origin : Origin
  pub open origin use *
  pub detail : Detail
  pub open detail use *
  pub tracking : Tracking
  pub open tracking use *
  pub notice : Notice
  pub open notice use *

-- A row of `opportunity_status_history`.
pub record StatusEvent : Type 0 where
  pub numero : Text
  pub observed_at : Text
  pub source : Text
  pub previous_grupo : Option Text
  pub previous_estado : Option Text
  pub new_grupo : Option Text
  pub new_estado : Option Text
  pub change_code : Text
  pub notification_state : Text
  pub closure_at : Option Text

-- A row of `closed_crawl_state`: the backfill cursor of one group.
pub record CrawlState : Type 0 where
  pub grupo : Text
  pub backfill_page : ℕ
  pub backfill_complete : Bool
  pub last_forward_run_at : Option Text
  pub last_backfill_run_at : Option Text

-- The row that an index collector hands to `insert_or_update_index`.
pub record IndexRow : Type 0 where
  pub numero : Text
  pub listing : Listing
  pub open listing use *
  pub origin : Origin
  pub open origin use *
  pub detail_status : Option Text
  pub finish_date_guess : Option Text

-- The database, with the first-seen CSV beside it.
pub record Db : Type 0 where
  pub opportunities : List Opportunity
  pub history : List StatusEvent
  pub crawl : List CrawlState
  pub csv : List IndexRow

abbrev pub opportunity_key : Opportunity → Text
opportunity_key r = r.numero

-- `find_existing_opportunity` of src/common.py, and `fetch_row` of the notifier.
unfoldable pub find_existing_opportunity : Db → Text → Option Opportunity
find_existing_opportunity db numero = Table.find opportunity_key numero db.opportunities

-- UPDATE opportunities SET … WHERE numero = ?
unfoldable pub update_opportunity : Text → (Opportunity → Opportunity) → Db → Db
update_opportunity numero f db = record db {
  opportunities = Table.update opportunity_key numero f db.opportunities;
}

-- The primary key of `opportunities` holds.
abbrev pub HasUniqueKeys : Db → Type 0
HasUniqueKeys db = Table.Unique opportunity_key db.opportunities

abbrev pub no_tracking : Tracking
no_tracking = record {
  pending_status_change = none;
  status_flag = none;
  status_updated_at = none;
  closed_at = none;
}

abbrev pub no_notice : Notice
no_notice = record {
  notified_at = none;
  detail_notified_at = none;
  last_notified_status = none;
  last_notified_items_hash = none;
  last_notified_signature = none;
  notify_attempts = some 0;
  notify_error = none;
  last_calendar_export_path = none;
}

-- A property of every row that the archive returns.
abbrev pub EveryRow : (Opportunity → Type 0) → Db → Type 0
EveryRow P db =
    (numero : Text) (r : Opportunity) → find_existing_opportunity db numero ≡ some r → P r

pub EveryRow-of_All : (P : Opportunity → Type 0) (db : Db) → All P db.opportunities → EveryRow P db
unfolding find_existing_opportunity Table.find
EveryRow-of_All P db every numero r h = in_table db.opportunities every h
  where
    in_table : (t : List Opportunity) → All P t → Table.find opportunity_key numero t ≡ some r → P r
    in_table [] p e = absurd (cc e)
    in_table (x ∷ t) p e = elim (Bool-cases (x.numero == numero)) [
      | inl same ↦ subst P (some_inj (rw same at e)) p.0
      | inr other ↦ in_table t p.1 (rw other at e)
    ]
