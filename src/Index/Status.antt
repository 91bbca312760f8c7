-- ===== src/Index/Status.antt =====
-- What the status columns of the archive always satisfy: `insert_or_update_index` and
-- `reconcile_legacy_status_history` of src/common.py.
use panamacompra_collector_b.Prelude.{
  ◌≡◌, refl, inl, inr, true, Option, none, some, arith, if◌then◌else◌, Bool-cases, Option-cases,
  some_inj, Text, codes, ◌==◌, ==_iff, truthy,
}
use panamacompra_collector_b.Unicode.{Unicode}
use panamacompra_collector_b.Archive.{
  HasUniqueKeys, opportunity_key, Opportunity, IndexRow, Db, EveryRow, find_existing_opportunity,
}
use panamacompra_collector_b.Index.{refresh, new_opportunity, insert_or_update_index}
use mathlib.Core.Path.{subst}
use panamacompra_collector_b.Table
use panamacompra_collector_b.Index.Reconcile.{settle_tracking, reconcile_legacy_status_history}
use panamacompra_collector_b.Index.Reconcile.Settled.{
  settle, key-settle, reconciled, reconcile_legacy_status_history-eq,
}
use panamacompra_collector_b.Index.Refresh.{
  seen_as, insert_or_update_index-EveryRow, find-insert_or_update_index,
}

-- When a record with this flag was closed: the time of its last transition if that closed it.
abbrev pub closure : Option Text → Option Text → Option Text
closure none updated_at = none
closure (some flag) updated_at = if flag == codes "cerrada" then updated_at else none

pub record IsTracked (r : Opportunity) : Type 0 where
  pub closed : r.closed_at ≡ closure r.status_flag r.status_updated_at
  pub announced : truthy r.pending_status_change ≡ true → truthy r.notified_at ≡ true

-- What a later sighting leaves alone in a row of the archive.
pub record IsKept (before after : Opportunity) : Type 0 where
  pub origin : after.origin ≡ before.origin
  pub detail : after.detail ≡ before.detail
  pub notice : after.notice ≡ before.notice

module _ (u : Unicode) where
  new_opportunity-IsTracked : (row : IndexRow) → IsTracked (new_opportunity row)
  unfolding new_opportunity
  new_opportunity-IsTracked row = ground arith

  refresh-IsTracked :
      (row : IndexRow) (found : Opportunity)
      → IsTracked found
      → IsTracked (refresh u found row found)
  unfolding refresh
  refresh-IsTracked row found h = ground arith

  -- In every archive whose rows satisfy it, a sighting keeps: closed_at is the time of the last
  -- transition if that transition was a closure and NULL otherwise, and a status change is
  -- pending only for a record that was announced.
  pub insert_or_update_index-IsTracked :
      (db : Db) (row : IndexRow) (source : Text)
      → EveryRow IsTracked db
      → EveryRow IsTracked (insert_or_update_index u db row source).1
  insert_or_update_index-IsTracked db row source =
      insert_or_update_index-EveryRow u db row source IsTracked (new_opportunity-IsTracked row)
        (refresh-IsTracked row)

  seen_as-IsKept :
      (db : Db) (row : IndexRow) (r : Opportunity)
      → find_existing_opportunity db row.numero ≡ some r
      → (r' : Opportunity) × (some (seen_as u (find_existing_opportunity db row.numero) row)
          ≡ some r')
        × IsKept r r'
  unfolding refresh
  seen_as-IsKept db row r h =
      (refresh u r row r, rw h refl, record { origin = refl; detail = refl; notice = refl })

  -- A sighting removes no record from the archive, and changes neither the origin, nor the
  -- detail download, nor the notification columns of any record that is there.
  pub insert_or_update_index-IsKept :
      (db : Db) (row : IndexRow) (source numero : Text) (r : Opportunity)
      → find_existing_opportunity db numero ≡ some r
      → (r' : Opportunity) × (find_existing_opportunity
            (insert_or_update_index u db row source).1
            numero
          ≡ some r')
        × IsKept r r'
  insert_or_update_index-IsKept db row source numero r h =
      rw (find-insert_or_update_index u db row source numero)
        (elim (Bool-cases (row.numero == numero)) [
          | inl same ↦ rw same (seen_as-IsKept db row r (rw ((==_iff row.numero numero).0 same) h))
          | inr other ↦ rw other (r, h, record { origin = refl; detail = refl; notice = refl })
        ])

  settle-IsTracked : (r : Opportunity) → IsTracked r → IsTracked (settle u r)
  unfolding settle settle_tracking
  settle-IsTracked r h = ground arith

  -- On an archive with unique keys, the reconciliation keeps of every row that closed_at is the
  -- time of the last transition if that was a closure and NULL otherwise, and that a status change
  -- is pending only for an announced record.
  pub reconcile_legacy_status_history-IsTracked :
      (db : Db)
      → HasUniqueKeys db
      → EveryRow IsTracked db
      → EveryRow IsTracked (reconcile_legacy_status_history u db).0
  unfolding find_existing_opportunity reconciled
  reconcile_legacy_status_history-IsTracked db unique every numero r h =
      let h' =
        rw
          (
            reconcile_legacy_status_history-eq u db unique,
            Table.find-map opportunity_key (settle u) (key-settle u) numero db.opportunities,
          )
          at h in
      elim (Option-cases (find_existing_opportunity db numero)) [
        | inl absent ↦ cc (rw absent at h')
        | inr (found, present) ↦
            subst IsTracked (some_inj (rw present at h'))
              (settle-IsTracked found (every numero found present))
      ]
