-- ===== src/Index.antt =====
mod Tests
pub mod Reconcile
pub mod History
pub mod Repeat
pub mod Status
pub mod Refresh
pub mod Seen
-- The index path of src/common.py: `status_change_code`, `insert_or_update_index` and
-- `reconcile_legacy_status_history`. A commit is the new database; `source` names the pipeline.
use panamacompra_collector_b.Prelude.{
  ◌+◌, Bool, not, ◌&&◌, Option, none, some, List, [], ◌∷◌, ◌++◌, if◌then◌else◌, Text, codes, ◌==◌,
  is_empty, truthy, or_empty, coalesce, strip, ends_with,
}
use panamacompra_collector_b.Table
use panamacompra_collector_b.Unicode.{Unicode, strip_accents}
use panamacompra_collector_b.Archive.{
  Listing, Opportunity, StatusEvent, IndexRow, Db, find_existing_opportunity, update_opportunity,
  no_tracking, no_notice, Tracking,
}

pub data Outcome : Type 0 where
  new existing : Outcome

-- `_STATUS_CODE_ALIASES`
abbrev pub status_code_aliases : List (Text × Text)
status_code_aliases =
    (codes "abierta", codes "abierta")
    ∷ (codes "cerrada", codes "cerrada")
    ∷ (codes "cancelada", codes "cancelada")
    ∷ (codes "programada", codes "programada")
    ∷ (codes "desierta", codes "desierta")
    ∷ (codes "adjudicada", codes "adjudicada")
    ∷ []

-- `d.get(k, default)`
unfoldable pub get_or : List (Text × Text) → Text → Text → Text
get_or [] k default = default
get_or ((j, v) ∷ d) k default = if j == k then v else get_or d k default

-- `s[:-1]`
unfoldable pub drop_last : Text → Text
drop_last [] = []
drop_last (c ∷ []) = []
drop_last (c ∷ d ∷ s) = c ∷ drop_last (d ∷ s)

-- `transitioned`: the pair (grupo, estado) differs, NULL being read as the empty text.
unfoldable pub transitioned : Listing → Listing → Bool
transitioned before after = not (
    or_empty before.grupo == or_empty after.grupo
    && or_empty before.estado == or_empty after.estado)

-- The INSERT INTO opportunities, with the defaults of the columns that it leaves out.
unfoldable pub new_opportunity : IndexRow → Opportunity
new_opportunity row = record {
  numero = row.numero;
  listing = row.listing;
  origin = row.origin;
  detail = record {
    detail_status = row.detail_status;
    detail_attempts = 0;
    detail_saved_at = none;
    detail_json_path = none;
    finish_date_guess = row.finish_date_guess;
    start_date_guess = none;
  };
  tracking = no_tracking;
  notice = no_notice;
}

unfoldable pub insert_index : Db → IndexRow → Db
unfolding new_opportunity
insert_index db row = record db {
  opportunities = db.opportunities ++ new_opportunity row ∷ [];
  csv = db.csv ++ row ∷ [];
}

module _ (u : Unicode) where
  -- The inner `normalize` of `status_change_code`.
  unfoldable pub normalize : Option Text → Text
  unfolding strip_accents
  normalize text = u.lower (strip_accents u (strip (or_empty text)))

  unfoldable pub status_change_code : Option Text → Option Text → Option Text → Option Text → Text
  unfolding get_or drop_last
  status_change_code old_estado new_estado old_grupo new_grupo =
      let code = normalize new_estado in
      let fallback = normalize new_grupo in
      if not (is_empty code)
      then get_or status_code_aliases code code
      else if ends_with fallback (codes "s")
      then drop_last fallback
      else fallback

  abbrev pub change_code : Listing → Listing → Text
  change_code before after = status_change_code before.estado after.estado before.grupo after.grupo

  -- The status columns that the UPDATE writes: what the code computes from the row found, and the
  -- columns of the row that is updated, for its COALESCE.
  unfoldable pub track : Opportunity → IndexRow → Tracking → Tracking
  unfolding transitioned
  track found row old =
      if transitioned found.listing row.listing
      then (let code = change_code found.listing row.listing in
          record {
            pending_status_change =
                coalesce (if truthy found.notified_at then some code else none)
                  old.pending_status_change;
            status_flag = coalesce (some code) old.status_flag;
            status_updated_at = coalesce (some row.last_seen) old.status_updated_at;
            closed_at = if code == codes "cerrada" then some row.last_seen else none;
          })
      else record {
        pending_status_change = coalesce none old.pending_status_change;
        status_flag = coalesce none old.status_flag;
        status_updated_at = coalesce none old.status_updated_at;
        closed_at = found.closed_at;
      }

  -- The SET clause of the UPDATE.
  unfoldable pub refresh : Opportunity → IndexRow → Opportunity → Opportunity
  unfolding track
  refresh found row old = record old {
    listing = row.listing;
    tracking = track found row old.tracking;
  }

  -- The INSERT INTO opportunity_status_history.
  unfoldable pub status_event : Opportunity → IndexRow → Text → StatusEvent
  unfolding status_change_code
  status_event found row source = record {
    numero = row.numero;
    observed_at = row.last_seen;
    source = source;
    previous_grupo = some (or_empty found.grupo);
    previous_estado = some (or_empty found.estado);
    new_grupo = some (or_empty row.grupo);
    new_estado = some (or_empty row.estado);
    change_code = change_code found.listing row.listing;
    notification_state = codes "pending";
    closure_at = row.finish_date_guess;
  }

  -- The branch of `insert_or_update_index` for a NUMERO that is in the archive. The UPDATE binds
  -- the values computed from the row found, and writes them to the rows of that key.
  unfoldable pub update_index : Db → Opportunity → IndexRow → Text → Db
  unfolding refresh status_event update_opportunity
  update_index db found row source =
      let db' = update_opportunity row.numero (refresh found row) db in
      if transitioned found.listing row.listing
      then record db' { history = db'.history ++ status_event found row source ∷ [] }
      else db'

  unfoldable pub insert_or_update_index : Db → IndexRow → Text → Outcome × Db
  insert_or_update_index db row source = elim (find_existing_opportunity db row.numero) [
    | some found ↦ (existing, update_index db found row source)
    | none ↦ (new, insert_index db row)
  ]
