-- ===== src/DetailQueue/Tests.antt =====
-- The queues on a table of four rows.
use panamacompra_collector_b.Prelude.{
  ℕ, String, ◌≡◌, refl, Bool, true, false, some, List, [], ◌∷◌, map, keep, codes, ◌==◌,
}
use panamacompra_collector_b.Archive.{Opportunity}
use panamacompra_collector_b.Samples.{announced, saved_detail}
use panamacompra_collector_b.DetailQueue.{
  precedes, order_key, comes_before, insert_row, order_rows, is_candidate, is_pending, take_pending,
  pending_rows, detail_pending_rows, closed_detail_pending_rows,
}
use panamacompra_collector_b.DetailQueue.Rows.{IsQueue, pending_rows-IsQueue}

program : Unit {0}
unfolding codes ◌==◌ keep precedes order_key comes_before insert_row order_rows is_candidate
    is_pending take_pending pending_rows detail_pending_rows closed_detail_pending_rows
program = tt

abbrev tried : ℕ → String → String → Opportunity
tried attempts numero grupo =
    let row = announced numero grupo "Abierta" "Abierta" in
    record row {
      detail = record saved_detail {
        detail_status = some (codes "failed");
        detail_attempts = attempts;
      };
    }

abbrev rows : List Opportunity
rows =
    announced "N-1" "Abiertas" "Abierta" "Abierta"
    ∷ tried 2 "N-2" "Abiertas"
    ∷ tried 0 "N-3" "Abiertas"
    ∷ tried 0 "N-4" "Closed"
    ∷ []

abbrev current : Opportunity → Bool
current r = true

abbrev everywhere : Opportunity → Bool
everywhere r = true

first_tried_least :
    map (λ r. r.numero) (detail_pending_rows current 0 3 rows) ≡ codes "N-3" ∷ codes "N-2" ∷ []
unfolding program
first_tried_least = refl

closed_alone :
    map (λ r. r.numero) (closed_detail_pending_rows false current 1 3 rows) ≡ codes "N-4" ∷ []
unfolding program
closed_alone = refl

pending_rows-IsQueue_example :
    IsQueue everywhere current 1 3 rows (pending_rows everywhere current 1 3 rows)
pending_rows-IsQueue_example = pending_rows-IsQueue everywhere current 1 3 rows
