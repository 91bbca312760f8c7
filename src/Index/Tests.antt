-- ===== src/Index/Tests.antt =====
-- Runs of the index path on a small archive, and its theorems at those inputs.
use panamacompra_collector_b.Prelude.{
  ◌⊎◌, ◌≡◌, refl, Option, none, some, [], ◌∷◌, map, length, keep, Text, codes, ◌==◌, is_space,
  strip, starts_with, ends_with,
}
use mathlib.Core.List.{flat_map}
use panamacompra_collector_b.Table
use panamacompra_collector_b.Unicode.{ascii, strip_accents}
use panamacompra_collector_b.Archive.{
  Db, Opportunity, HasUniqueKeys, EveryRow, EveryRow-of_All, find_existing_opportunity,
  update_opportunity,
}
use panamacompra_collector_b.Samples.{index_row, announced, archive}
use panamacompra_collector_b.Index.{
  Outcome, new, existing, get_or, drop_last, normalize, status_change_code, transitioned, track,
  refresh, status_event, update_index, new_opportunity, insert_index, insert_or_update_index,
}
use panamacompra_collector_b.Index.Refresh.{insert_or_update_index-HasUniqueKeys}
use panamacompra_collector_b.Index.Seen.{IsSeen, insert_or_update_index-IsSeen}
use panamacompra_collector_b.Index.Status.{
  IsTracked, IsKept, insert_or_update_index-IsTracked, insert_or_update_index-IsKept,
}
use panamacompra_collector_b.Index.History.{HasTrail, last_event, insert_or_update_index-HasTrail}
use panamacompra_collector_b.Index.Repeat.{insert_or_update_index_idem}
use panamacompra_collector_b.Index.Reconcile.{
  is_candidate, expected_code, settle_tracking, legacy_event, reconcile_one, reconcile_from,
  reconcile_legacy_status_history,
}

program : Unit {0}
unfolding codes ◌==◌ is_space strip starts_with ends_with keep strip_accents get_or drop_last
    normalize status_change_code transitioned track refresh status_event update_index
    new_opportunity insert_index insert_or_update_index find_existing_opportunity update_opportunity
    Table.find Table.update is_candidate expected_code settle_tracking legacy_event reconcile_one
    reconcile_from reconcile_legacy_status_history flat_map
program = tt

code_closed :
    status_change_code ascii none (some (codes " Cerrada ")) none (some (codes "Closed"))
    ≡ codes "cerrada"
unfolding program
code_closed = refl

code_group : status_change_code ascii none none none (some (codes "Abiertas")) ≡ codes "abierta"
unfolding program
code_group = refl

-- N-1 closes: one event, the flag, the pending change and the closing time.
abbrev closing : Outcome × Db
closing = insert_or_update_index ascii archive (index_row "N-1" "Closed" "Cerrada") (codes "closed")

closing_outcome : closing.0 ≡ existing
unfolding program
closing_outcome = refl

closing_pending :
    map {B = Option Text × Option Text}
      (λ (r : Opportunity). (r.pending_status_change, r.closed_at))
      closing.1.opportunities
    ≡ (some (codes "cerrada"), some (codes "2026-07-01T10:00:00")) ∷ (none, none) ∷ []
unfolding program
closing_pending = refl

closing_history : length closing.1.history ≡ 1
unfolding program
closing_history = refl

inserted : (insert_or_update_index ascii archive (index_row "N-3" "Abiertas" "Abierta") []).0 ≡ new
unfolding program
inserted = refl

reconciled_one : (reconcile_legacy_status_history ascii archive).1 ≡ 1
unfolding program
reconciled_one = refl

archive-HasUniqueKeys : HasUniqueKeys archive
unfolding program
archive-HasUniqueKeys = (refl, (refl, tt))

archive-IsTracked : EveryRow IsTracked archive
unfolding program
archive-IsTracked = EveryRow-of_All IsTracked archive (
  record { closed = refl; announced = λ h. refl },
  (record { closed = refl; announced = λ h. refl }, tt),
)

archive-HasTrail : HasTrail archive
unfolding program last_event
archive-HasTrail numero e h = absurd (cc h)

insert_or_update_index-IsTracked_example : EveryRow IsTracked closing.1
insert_or_update_index-IsTracked_example =
    insert_or_update_index-IsTracked ascii archive (index_row "N-1" "Closed" "Cerrada")
      (codes "closed") archive-IsTracked

found_second :
    find_existing_opportunity archive (codes "N-2")
    ≡ some (announced "N-2" "Closed" "Cerrada" "Abierta")
unfolding program
found_second = refl

insert_or_update_index-IsKept_example :
    (r' : Opportunity) × (find_existing_opportunity closing.1 (codes "N-2") ≡ some r')
    × IsKept (announced "N-2" "Closed" "Cerrada" "Abierta") r'
insert_or_update_index-IsKept_example =
    insert_or_update_index-IsKept ascii archive (index_row "N-1" "Closed" "Cerrada")
      (codes "closed") (codes "N-2") (announced "N-2" "Closed" "Cerrada" "Abierta") found_second

insert_or_update_index-HasTrail_example : HasTrail closing.1
insert_or_update_index-HasTrail_example =
    insert_or_update_index-HasTrail ascii archive (index_row "N-1" "Closed" "Cerrada")
      (codes "closed") archive-HasTrail

insert_or_update_index-IsSeen_example :
    ((after : Opportunity) × (find_existing_opportunity closing.1 (codes "N-1") ≡ some after)
      × IsSeen ascii
          (find_existing_opportunity archive (codes "N-1"))
          (index_row "N-1" "Closed" "Cerrada")
          after)
    × ((codes "N-1" ≡ codes "N-2")
        ⊎ (find_existing_opportunity closing.1 (codes "N-2")
            ≡ find_existing_opportunity archive (codes "N-2")))
insert_or_update_index-IsSeen_example =
    insert_or_update_index-IsSeen ascii archive (index_row "N-1" "Closed" "Cerrada")
      (codes "closed") (codes "N-2")

insert_or_update_index_idem_example :
    insert_or_update_index ascii closing.1 (index_row "N-1" "Closed" "Cerrada") (codes "snapshot")
    ≡ (existing, closing.1)
insert_or_update_index_idem_example =
    insert_or_update_index_idem ascii archive (index_row "N-1" "Closed" "Cerrada") (codes "closed")
      (codes "snapshot") archive-HasUniqueKeys

insert_or_update_index-HasUniqueKeys_example : HasUniqueKeys closing.1
insert_or_update_index-HasUniqueKeys_example =
    insert_or_update_index-HasUniqueKeys ascii archive (index_row "N-1" "Closed" "Cerrada")
      (codes "closed") archive-HasUniqueKeys
