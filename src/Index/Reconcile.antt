-- ===== src/Index/Reconcile.antt =====
-- `reconcile_legacy_status_history` of src/common.py.
pub mod Settled
use panamacompra_collector_b.Prelude.{
  ℕ, ◌+◌, ◌-◌, Bool, false, not, Option, none, some, List, [], ◌∷◌, ◌++◌, if◌then◌else◌, keep, Text,
  codes, ◌==◌,
}
use panamacompra_collector_b.Unicode.{Unicode}
use panamacompra_collector_b.Archive.{Opportunity, StatusEvent, Db, update_opportunity}
use panamacompra_collector_b.Index.{status_change_code}

-- `a != b` of two columns in SQL, which a NULL makes false.
abbrev pub differ : Option Text → Option Text → Bool
differ none b = false
differ (some a) none = false
differ (some a) (some b) = not (a == b)

-- The WHERE clause of the SELECT.
unfoldable pub is_candidate : Opportunity → Bool
is_candidate r = elim r.notified_at [
  | none ↦ false
  | some _ ↦ differ r.last_notified_status r.estado
]

-- `candidate["status_flag"] == expected_code`
abbrev pub has_flag : Option Text → Text → Bool
has_flag none code = false
has_flag (some flag) code = flag == code

module _ (u : Unicode) where
  unfoldable pub expected_code : Opportunity → Text
  expected_code c = status_change_code u c.last_notified_status c.estado c.grupo c.grupo

  -- The UPDATE of one candidate.
  unfoldable pub settle_tracking : Opportunity → Opportunity → Opportunity
  settle_tracking c r = record r {
    tracking = record r.tracking {
      status_flag = some (expected_code c);
      status_updated_at = some c.last_seen;
      closed_at = if expected_code c == codes "cerrada" then some c.last_seen else none;
    };
  }

  -- The INSERT INTO opportunity_status_history.
  unfoldable pub legacy_event : Opportunity → StatusEvent
  legacy_event c = record {
    numero = c.numero;
    observed_at = c.last_seen;
    source = codes "legacy-reconcile";
    previous_grupo = none;
    previous_estado = c.last_notified_status;
    new_grupo = c.grupo;
    new_estado = c.estado;
    change_code = expected_code c;
    notification_state = codes "reconciled";
    closure_at = none;
  }

  -- The body of the `for` loop, over the database and `reconciled`.
  unfoldable pub reconcile_one : Opportunity → Db × ℕ → Db × ℕ
  reconcile_one c (db, reconciled) =
      if has_flag c.status_flag (expected_code c) then (db, reconciled) else (
        record (update_opportunity c.numero (settle_tracking c) db) {
          history = db.history ++ legacy_event c ∷ [];
        },
        reconciled + 1,
      )

  unfoldable pub reconcile_from : List Opportunity → Db × ℕ → Db × ℕ
  reconcile_from [] s = s
  reconcile_from (c ∷ cs) s = reconcile_from cs (reconcile_one c s)

  -- The candidates are fetched before the first row is written.
  unfoldable pub reconcile_legacy_status_history : Db → Db × ℕ
  reconcile_legacy_status_history db = reconcile_from (keep is_candidate db.opportunities) (db, 0)
