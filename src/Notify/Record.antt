-- ===== src/Notify/Record.antt =====
-- The announcements of one record.
use panamacompra_collector_b.Prelude.{
  ℤ, pos, negsuc, ℕ, suc, ◌+◌, ◌*◌, Bool, true, false, not, ◌&&◌, ◌||◌, Option, none, some, ltb,
  if◌then◌else◌, Text, codes, ◌==◌, is_empty, truthy, or_empty,
}
use panamacompra_collector_b.Archive.{Opportunity, Db, find_existing_opportunity}
use panamacompra_collector_b.Notify.{
  Desk, Node, allowed_match_line_for, waha_usable, status_value, is_cancelled_status, dash,
}
use panamacompra_collector_b.Notify.Deliver.{
  mark_notified, mark_detail_notified, mark_snapshot, clear_status_change, export_record_calendar,
  send_text,
}

pub data Decision : Type 0 where
  ok : Decision
  expired : Decision
  too_far : Decision

abbrev day : ℕ
day = 86400

module _ (d : Desk) where
  -- deadline > now + timedelta(days=within_days)
  abbrev beyond : Option ℤ → ℕ → Bool
  beyond none deadline = false
  beyond (some (pos n)) deadline = ltb (d.now + n * day) deadline
  beyond (some (negsuc n)) deadline = ltb d.now (deadline + suc n * day)

  unfoldable pub deadline_decision : Opportunity → Decision
  deadline_decision row = elim (d.parse_finish_date row) [
    | none ↦ ok
    | some deadline ↦
        if d.skip_expired && ltb deadline d.now
        then expired
        else if beyond d.within_days deadline
        then too_far
        else ok
  ]

  abbrev pub with_db : (Db → Db) → Node → Node
  with_db f s = record s { db = f s.db }

  unfoldable pub settle_silently : Text → Node → Node
  settle_silently numero = with_db (λ db. mark_detail_notified d numero (mark_notified d numero db))

  abbrev pub saved : Opportunity → Bool
  saved row = elim row.detail_status [ none ↦ false | some s ↦ s == codes "saved" ]

  -- What follows an accepted announcement.
  unfoldable pub announced : Opportunity → Text → Node → Node
  announced row numero = with_db (λ db.
      let marked = mark_notified d numero (export_record_calendar d row db) in
      if saved row then mark_detail_notified d numero marked else marked)

  unfoldable pub if_sent : (Node → Node) → Node × Bool → Node × Bool
  if_sent f (s, true) = (f s, true)
  if_sent f (s, false) = (s, false)

  unfoldable pub announce_matching : Opportunity → Text → Option Text → Node → Node × Bool
  announce_matching row numero none s = (settle_silently numero s, false)
  announce_matching row numero (some line) s = if_sent (announced row numero) (
      send_text d (d.build_record_message row (codes "new") none (some line)) (codes "index")
        (codes "new") (some numero) s)

  unfoldable pub announce_by : Opportunity → Text → Decision → Node → Node × Bool
  announce_by row numero expired s = (settle_silently numero s, false)
  announce_by row numero too_far s = (s, false)
  announce_by row numero ok s =
      announce_matching row numero (allowed_match_line_for d row (codes "index")) s

  unfoldable pub announce_row : Text → Option Opportunity → Node → Node × Bool
  announce_row numero none s = (s, false)
  announce_row numero (some row) s =
      if truthy row.notified_at
      then (s, false)
      else announce_by row numero (deadline_decision row) s

  unfoldable pub notify_saved_record : Text → Node → Node × Bool
  notify_saved_record numero s =
      if waha_usable d && d.baseline
      then announce_row numero (find_existing_opportunity s.db numero) s
      else (s, false)

  -- `_PREV_STATUS_FOR_CHANGE.get(change_code, change_code or DASH)`
  abbrev previous_for : Text → Text
  previous_for change_code =
      if change_code == codes "abierta"
      then codes "Programada"
      else if change_code == codes "cancelada"
      then codes "Programada"
      else if is_empty change_code
      then dash
      else change_code

  abbrev or_text : Option Text → Text → Text
  or_text a b = if truthy a then or_empty a else b

  unfoldable pub build_status_change_message : Opportunity → Text → Option Text → Text
  build_status_change_message row change_code line =
      d.build_record_message row
        (if change_code == codes "abierta"
          then codes "abierta"
          else if is_cancelled_status d (status_value row)
          then codes "cancelled"
          else codes "status")
        (some (or_text row.last_notified_status (previous_for change_code))) line

  unfoldable pub change_announced : Opportunity → Text → Node → Node
  change_announced row numero =
      with_db (λ db.
        clear_status_change numero (mark_snapshot d numero (export_record_calendar d row db)))

  unfoldable pub change_purpose : Text → Text
  change_purpose change_code =
      if change_code == codes "abierta" then codes "open_now" else codes "status"

  unfoldable pub change_matching : Opportunity → Text → Text → Option Text → Node → Node × Bool
  change_matching row numero change_code none s = (with_db (clear_status_change numero) s, false)
  change_matching row numero change_code (some line) s = if_sent (change_announced row numero) (
      send_text d (build_status_change_message row change_code (some line))
        (change_purpose change_code) (codes "update") (some numero) s)

  unfoldable pub change_row : Text → Option Opportunity → Node → Node × Bool
  change_row numero none s = (s, false)
  change_row numero (some row) s =
      let change_code = or_empty row.pending_status_change in
      if not (truthy row.pending_status_change)
      then (s, false)
      else change_matching row numero change_code
          (allowed_match_line_for d row (change_purpose change_code)) s

  unfoldable pub notify_status_change : Text → Node → Node × Bool
  notify_status_change numero s =
      if waha_usable d
      then change_row numero (find_existing_opportunity s.db numero) s
      else (s, false)

  unfoldable pub detail_settled : Text → Db → Db
  detail_settled numero db = mark_snapshot d numero (mark_detail_notified d numero db)

  unfoldable pub detail_matching : Opportunity → Text → Option Text → Node → Node × Bool
  detail_matching row numero none s = (with_db (detail_settled numero) s, false)
  detail_matching row numero (some line) s =
      if_sent (with_db (λ db. detail_settled numero (export_record_calendar d row db))) (
        send_text d (d.build_record_message row (codes "details") none (some line))
          (codes "details") (codes "new") (some numero) s)

  unfoldable pub detail_row : Text → Option Opportunity → Node → Node × Bool
  detail_row numero none s = (s, false)
  detail_row numero (some row) s =
      if not (saved row) || not (truthy row.notified_at) || truthy row.detail_notified_at
      then (s, false)
      else detail_matching row numero (allowed_match_line_for d row (codes "details")) s

  unfoldable pub notify_detail_ready : Text → Node → Node × Bool
  notify_detail_ready numero s =
      if waha_usable d
      then detail_row numero (find_existing_opportunity s.db numero) s
      else (s, false)
