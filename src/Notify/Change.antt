-- ===== src/Notify/Change.antt =====
-- The announcements of a change that the snapshot of a record shows, and the manual ones.
use panamacompra_collector_b.Prelude.{
  Bool, false, not, ◌&&◌, ◌||◌, Option, none, some, [], if◌then◌else◌, Text, codes, ◌==◌, truthy,
}
use panamacompra_collector_b.Archive.{Opportunity, find_existing_opportunity}
use panamacompra_collector_b.Notify.{
  Desk, Node, allowed_match_line_for, waha_usable, status_value, is_cancelled_status,
}
use panamacompra_collector_b.Notify.Deliver.{
  mark_notified, mark_detail_notified, mark_snapshot, export_record_calendar, send_text,
}
use panamacompra_collector_b.Notify.Record.{with_db, saved, if_sent}

-- `row[column] == value` for a column that may be NULL.
abbrev same : Option Text → Text → Bool
same none b = false
same (some a) b = a == b

module _ (d : Desk) where
  unfoldable pub snapshot_taken : Opportunity → Text → Node → Node
  snapshot_taken row numero =
      with_db d (λ db. mark_snapshot d numero (export_record_calendar d row db))

  unfoldable pub signature_of : Opportunity → Text
  signature_of row = d.stable_hash (status_value row) (d.items_hash row.detail_json_path)

  unfoldable pub detected_matching : Opportunity → Text → Option Text → Node → Node × Bool
  detected_matching row numero none s = (with_db d (mark_snapshot d numero) s, false)
  detected_matching row numero (some line) s = if_sent d (snapshot_taken row numero) (
      send_text d
        (d.build_record_message row
          (if is_cancelled_status d (status_value row) then codes "cancelled" else codes "status")
          row.last_notified_status none)
        (codes "status") (codes "update") none s)

  unfoldable pub detected_row : Text → Option Opportunity → Node → Node × Bool
  detected_row numero none s = (s, false)
  detected_row numero (some row) s =
      if not (saved d row) || not (truthy row.notified_at)
      then (s, false)
      else if same row.last_notified_signature (signature_of row)
          || same row.last_notified_status (status_value row)
      then (s, false)
      else detected_matching row numero (allowed_match_line_for d row (codes "status")) s

  unfoldable pub notify_detected_status_change : Text → Node → Node × Bool
  notify_detected_status_change numero s =
      if waha_usable d
      then detected_row numero (find_existing_opportunity s.db numero) s
      else (s, false)

  unfoldable pub items_matching : Opportunity → Text → Option Text → Node → Node × Bool
  items_matching row numero none s = (with_db d (mark_snapshot d numero) s, false)
  items_matching row numero (some line) s = if_sent d (snapshot_taken row numero) (
      send_text d (d.build_record_message row (codes "items") none none) (codes "status")
        (codes "update") (some numero) s)

  unfoldable pub items_row : Text → Option Opportunity → Node → Node × Bool
  items_row numero none s = (s, false)
  items_row numero (some row) s =
      if not (saved d row) || not (truthy row.notified_at)
      then (s, false)
      else if same row.last_notified_signature (signature_of row)
      then (s, false)
      else if not (same row.last_notified_status (status_value row))
      then (s, false)
      else if same row.last_notified_items_hash (d.items_hash row.detail_json_path)
      then (with_db d (mark_snapshot d numero) s, false)
      else items_matching row numero (allowed_match_line_for d row (codes "status")) s

  unfoldable pub notify_items_change : Text → Node → Node × Bool
  notify_items_change numero s =
      if waha_usable d
      then items_row numero (find_existing_opportunity s.db numero) s
      else (s, false)

  unfoldable pub manual_row : Text → Bool → Option Opportunity → Node → Node × Bool
  manual_row numero force none s = (s, false)
  manual_row numero force (some row) s =
      if not (saved d row)
      then (s, false)
      else if truthy row.notified_at && not force
      then (s, false)
      else if_sent d
          (with_db d (λ db.
            mark_detail_notified d numero
              (mark_notified d numero (export_record_calendar d row db))))
          (send_text d
            (d.build_record_message row (codes "manual") none
              (some (codes "Enviado manualmente desde el monitor")))
            [] (codes "new") (some numero) s)

  unfoldable pub notify_manual_record : Text → Bool → Node → Node × Bool
  notify_manual_record numero force s =
      if waha_usable d
      then manual_row numero force (find_existing_opportunity s.db numero) s
      else (s, false)
