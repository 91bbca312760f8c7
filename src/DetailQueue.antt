-- ===== src/DetailQueue.antt =====
-- The queues of the detail downloads: `detail_pending_rows` of src/20_pipeline/030-collect-details.py
-- and `closed_detail_pending_rows` of src/20_pipeline/037b-collect-closed-details.py.
pub mod Order
pub mod Rows
mod Tests
use panamacompra_collector_b.Prelude.{
  ℕ, suc, Bool, true, false, not, ◌&&◌, ◌||◌, Option, none, some, List, [], ◌∷◌, ltb, leb, eqb,
  if◌then◌else◌, keep, Text, codes, ◌==◌, or_empty,
}
use panamacompra_collector_b.Archive.{Opportunity}

-- The order of SQLite on rows of values: the first that differs decides.
unfoldable pub precedes : List ℕ → List ℕ → Bool
precedes [] t = true
precedes (a ∷ s) [] = false
precedes (a ∷ s) (b ∷ t) = ltb a b || eqb a b && precedes s t

abbrev is_saved : Option Text → Bool
is_saved none = false
is_saved (some status) = status == codes "saved"

-- NULL comes before every text.
abbrev null_first : Option Text → List ℕ
null_first none = []
null_first (some text) = 1 ∷ text

-- CASE WHEN detail_status = 'saved' THEN 1 ELSE 0 END, detail_attempts, first_seen
unfoldable pub order_key : Opportunity → List ℕ
order_key r =
    (if is_saved r.detail.detail_status then 1 else 0)
    ∷ r.detail.detail_attempts
    ∷ null_first r.origin.first_seen

unfoldable pub comes_before : Opportunity → Opportunity → Bool
comes_before a b = precedes (order_key a) (order_key b)

-- ORDER BY, where rows that are equal stay in the order of the table.
unfoldable pub insert_row : Opportunity → List Opportunity → List Opportunity
insert_row x [] = x ∷ []
insert_row x (y ∷ ys) =
    let rest = insert_row x ys in if comes_before x y then x ∷ y ∷ ys else y ∷ rest

unfoldable pub order_rows : List Opportunity → List Opportunity
order_rows [] = []
order_rows (x ∷ xs) = insert_row x (order_rows xs)

-- Whether the row is in the groups of the queue, and whether its archive is current on disk.
module _ (in_group row_archive_is_current : Opportunity → Bool) where
  unfoldable pub is_candidate : ℕ → Opportunity → Bool
  is_candidate max_attempts r = ltb r.detail.detail_attempts max_attempts && in_group r

  unfoldable pub is_pending : Opportunity → Bool
  is_pending r = not (is_saved r.detail.detail_status) || not (row_archive_is_current r)

  -- The loop over the candidates, for the rows that were taken already.
  unfoldable pub take_pending : ℕ → ℕ → List Opportunity → List Opportunity
  take_pending limit taken [] = []
  take_pending limit taken (r ∷ rows) = elim (is_pending r) [
    | false ↦ take_pending limit taken rows
    | true ↦ elim (ltb 0 limit && leb limit (suc taken)) [
      | true ↦ r ∷ []
      | false ↦ r ∷ take_pending limit (suc taken) rows
    ]
  ]

  -- A limit that is negative is 0 here: no limit.
  unfoldable pub pending_rows : ℕ → ℕ → List Opportunity → List Opportunity
  pending_rows limit max_attempts rows =
      take_pending limit 0 (order_rows (keep (is_candidate max_attempts) rows))

abbrev grupo_is : Text → Opportunity → Bool
grupo_is name r = or_empty r.listing.grupo == name

unfoldable pub detail_pending_rows :
    (Opportunity → Bool) → ℕ → ℕ → List Opportunity → List Opportunity
detail_pending_rows current = pending_rows (λ r. not (grupo_is (codes "Closed") r)) current

-- For the value of PC_CLOSED_BACKFILL_ONLY_CLOSED.
abbrev closed_group : Bool → Opportunity → Bool
closed_group true r = grupo_is (codes "Closed") r
closed_group false r = grupo_is (codes "Closed") r || grupo_is (codes "Cancelled") r

unfoldable pub closed_detail_pending_rows :
    Bool → (Opportunity → Bool) → ℕ → ℕ → List Opportunity → List Opportunity
closed_detail_pending_rows only_closed current = pending_rows (closed_group only_closed) current
