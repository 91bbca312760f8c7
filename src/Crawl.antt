-- ===== src/Crawl.antt =====
-- The resumable backfill cursor of src/common.py (`get_closed_crawl_state`,
-- `update_closed_crawl_state`): one row of `closed_crawl_state` for each group.
use panamacompra_collector_b.Prelude.{
  ℕ, ◌≡◌, refl, inl, inr, Bool, false, Option, none, some, [], ◌∷◌, ◌++◌, if◌then◌else◌,
  Option-cases, Text, ◌==◌, coalesce,
}
use mathlib.Core.Option
use panamacompra_collector_b.Table
use panamacompra_collector_b.Archive.{CrawlState, Db}

abbrev pub crawl_key : CrawlState → Text
crawl_key s = s.grupo

-- The row that `INSERT INTO closed_crawl_state (grupo)` makes, by the defaults of the columns.
abbrev pub fresh_cursor : Text → CrawlState
fresh_cursor grupo = record {
  grupo = grupo;
  backfill_page = 1;
  backfill_complete = false;
  last_forward_run_at = none;
  last_backfill_run_at = none;
}

unfoldable pub get_closed_crawl_state : Db → Text → CrawlState × Db
get_closed_crawl_state db grupo = elim (Table.find crawl_key grupo db.crawl) [
  | some state ↦ (state, db)
  | none ↦ let state = fresh_cursor grupo in (state, record db { crawl = db.crawl ++ state ∷ [] })
]

-- The keyword arguments of `update_closed_crawl_state`; `none` is an argument that is not given.
pub record CrawlFields : Type 0 where
  pub page : Option ℕ
  pub complete : Option Bool
  pub forward_run_at : Option Text
  pub backfill_run_at : Option Text

abbrev pub no_fields : CrawlFields
no_fields = record { page = none; complete = none; forward_run_at = none; backfill_run_at = none }

abbrev pub given {ℓ} : {A : Type ℓ} → Option A → A → A
given none old = old
given (some value) old = value

unfoldable pub set_fields : CrawlFields → CrawlState → CrawlState
set_fields fields state = record state {
  backfill_page = given fields.page state.backfill_page;
  backfill_complete = given fields.complete state.backfill_complete;
  last_forward_run_at = coalesce fields.forward_run_at state.last_forward_run_at;
  last_backfill_run_at = coalesce fields.backfill_run_at state.last_backfill_run_at;
}

-- An UPDATE: it makes no row for a group that has none.
unfoldable pub update_closed_crawl_state : Db → Text → CrawlFields → Db
update_closed_crawl_state db grupo fields = record db {
  crawl = Table.update crawl_key grupo (set_fields fields) db.crawl;
}

pub find-update_closed_crawl_state :
    (db : Db) (grupo other : Text) (fields : CrawlFields)
    → Table.find crawl_key other (update_closed_crawl_state db grupo fields).crawl ≡ (
        if grupo == other
        then Option.map (set_fields fields) (Table.find crawl_key grupo db.crawl)
        else Table.find crawl_key other db.crawl)
unfolding update_closed_crawl_state set_fields
find-update_closed_crawl_state db grupo other fields =
    Table.find-update crawl_key (set_fields fields) (λ s. refl) grupo other db.crawl

abbrev pub cursor_or_fresh : Text → Option CrawlState → CrawlState
cursor_or_fresh grupo none = fresh_cursor grupo
cursor_or_fresh grupo (some state) = state

pub get_closed_crawl_state_lem :
    (db : Db) (grupo : Text)
    → (get_closed_crawl_state db grupo).0
      ≡ cursor_or_fresh grupo (Table.find crawl_key grupo db.crawl)
unfolding get_closed_crawl_state
get_closed_crawl_state_lem db grupo = elim (Option-cases (Table.find crawl_key grupo db.crawl)) [
  | inl e ↦ rw (e, get_closed_crawl_state) refl
  | inr (state, e) ↦ rw (e, get_closed_crawl_state) refl
]
