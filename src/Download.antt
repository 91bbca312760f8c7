-- ===== src/Download.antt =====
-- `update_detail_status` of src/common.py: the outcome of a download attempt on a record.
mod Tests
use panamacompra_collector_b.Prelude.{
  ◌+◌, ◌-◌, ◌≤◌, ◌≡◌, refl, ◌∙◌, ◌≢◌, inl, inr, Bool, Option, none, some, [], ◌∷◌, arith,
  if◌then◌else◌, Bool-cases, Text, codes, ◌==◌, ==_iff, coalesce,
}
use mathlib.Core.Option
use panamacompra_collector_b.Table
use panamacompra_collector_b.Archive.{
  Opportunity, Detail, Db, find_existing_opportunity, update_opportunity, opportunity_key,
}

-- NULLIF(value, '') for a value that is bound as `value or ""`.
abbrev null_if_empty : Option Text → Option Text
null_if_empty none = none
null_if_empty (some []) = none
null_if_empty (some (c ∷ s)) = some (c ∷ s)

pub record Download : Type 0 where
  pub status : Text
  pub detail_json_path : Option Text
  pub finish_date_guess : Option Text
  pub start_date_guess : Option Text
  pub increment_attempts : Bool

unfoldable pub downloaded : Text → Download → Detail → Detail
downloaded now r old = record {
  detail_status = some r.status;
  detail_attempts = old.detail_attempts + (if r.increment_attempts then 1 else 0);
  detail_saved_at = if r.status == codes "saved" then some now else none;
  detail_json_path = coalesce (null_if_empty r.detail_json_path) old.detail_json_path;
  finish_date_guess = coalesce (null_if_empty r.finish_date_guess) old.finish_date_guess;
  start_date_guess = coalesce (null_if_empty r.start_date_guess) old.start_date_guess;
}

abbrev pub set_detail : (Detail → Detail) → Opportunity → Opportunity
set_detail f row = record row { detail = f row.detail }

unfoldable pub update_detail_status : Text → Text → Download → Db → Db
update_detail_status now numero r db = update_opportunity numero (set_detail (downloaded now r)) db

-- What no outcome takes back: the number of attempts, a path and the dates that are known.
abbrev pub Grows : Detail → Detail → Type 0
Grows old new =
    (old.detail_attempts ≤ new.detail_attempts)
    × (old.detail_json_path ≢ none → new.detail_json_path ≢ none)
    × (old.finish_date_guess ≢ none → new.finish_date_guess ≢ none)
    × (old.start_date_guess ≢ none → new.start_date_guess ≢ none)

coalesce-set {ℓ} : {A : Type ℓ} (a b : Option A) → b ≢ none → coalesce a b ≢ none
coalesce-set none b h = h
coalesce-set (some a) b h = λ e. cc

downloaded-Grows : (now : Text) (r : Download) (old : Detail) → Grows old (downloaded now r old)
unfolding downloaded
downloaded-Grows now r old = (
  ground arith,
  coalesce-set (null_if_empty r.detail_json_path) old.detail_json_path,
  coalesce-set (null_if_empty r.finish_date_guess) old.finish_date_guess,
  coalesce-set (null_if_empty r.start_date_guess) old.start_date_guess,
)

-- Whatever the outcome of a download, every record stays in the archive; no record loses an
-- attempt that was counted, nor the path of a detail file or a date that was known. Only the
-- record of the download changes, and only in its detail columns.
pub update_detail_status-Grows :
    (now numero other : Text) (r : Download) (db : Db) (row : Opportunity)
    → find_existing_opportunity db other ≡ some row
    → (new : Detail) × (find_existing_opportunity (update_detail_status now numero r db) other
        ≡ some (record row { detail = new }))
      × Grows row.detail new
      × (numero ≢ other → new ≡ row.detail)
unfolding update_detail_status update_opportunity find_existing_opportunity
update_detail_status-Grows now numero other r db row e = elim (Bool-cases (numero == other)) [
  | inl same ↦ (
    downloaded now r row.detail,
    Table.find-update opportunity_key (set_detail (downloaded now r)) (λ x. refl) numero other
          db.opportunities
        ∙ rw (same, (==_iff numero other).0 same, e) refl,
    downloaded-Grows now r row.detail,
    λ ne. absurd (ne ((==_iff numero other).0 same)),
  )
  | inr different ↦ (
    row.detail,
    Table.find-update opportunity_key (set_detail (downloaded now r)) (λ x. refl) numero other
          db.opportunities
        ∙ rw (different, e) refl,
    (ground arith, λ h. h, λ h. h, λ h. h),
    λ ne. refl,
  )
]
