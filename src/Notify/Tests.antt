-- ===== src/Notify/Tests.antt =====
-- The announcements, run on an archive of one new record.
use panamacompra_collector_b.Prelude.{
  inl, ◌≡◌, refl, true, false, none, some, [], ◌∷◌, keep, any, codes, ◌==◌, truthy, is_space,
  lstrip_by, strip_by, strip, member,
}
use panamacompra_collector_b.Table
use panamacompra_collector_b.Archive.{find_existing_opportunity}
use panamacompra_collector_b.Waha.{
  any_destination_configured, configured_chat_id, default_chat_id, read_chat_file, purpose_chat_id,
}
use panamacompra_collector_b.Waha.Send.{
  send_to, post_ready, clear_qr_warning, refused, require_session_ready, attempt_from, retries_left,
  breaker_threshold, max_send_attempts,
}
use panamacompra_collector_b.Waha.Send
use panamacompra_collector_b.Notify.{
  Desk, waha_usable, allowed_match_line_for, match_line_for, load_filter_rules, first_rules,
  matching_client_profiles,
}
use panamacompra_collector_b.Notify.Samples.{desk, timed_out, new_row, node}
use panamacompra_collector_b.Notify.Deliver.{
  send_text, send_matching, settle_send, send_all, send_profiles, post_to,
}
use panamacompra_collector_b.Notify.Record.{
  notify_saved_record, announce_row, announce_by, announce_matching, if_sent, deadline_decision, ok,
}
use panamacompra_collector_b.Notify.Baseline.{
  ensure_baseline, AllNoticed, ensure_baseline-notify_saved_record,
}
use panamacompra_collector_b.Notify.Digest.{build_index_digest_messages}
use panamacompra_collector_b.Notify.Digest.Chunks.{Splits, build_index_digest_messages-Splits}
use panamacompra_collector_b.Notify.Once.{HasMark, Unset}
use panamacompra_collector_b.Notify.Once.Saved.{
  notify_saved_record-once, notify_saved_record-retried,
}

program : Unit {0}
unfolding default_chat_id read_chat_file strip strip_by lstrip_by is_space
    any_destination_configured any codes ◌==◌ member configured_chat_id waha_usable
    allowed_match_line_for match_line_for load_filter_rules first_rules send_text send_matching
    settle_send send_all send_profiles post_to notify_saved_record announce_row announce_by
    announce_matching if_sent deadline_decision find_existing_opportunity Table.find Send.send_text
    send_to post_ready clear_qr_warning refused purpose_chat_id matching_client_profiles keep
    require_session_ready attempt_from retries_left breaker_threshold max_send_attempts
program = tt

accepted : (notify_saved_record (desk none) (codes "N-1") node).1 ≡ true
unfolding program
accepted = refl

rejected : (notify_saved_record (desk (some timed_out)) (codes "N-1") node).1 ≡ false
unfolding program
rejected = refl

found : find_existing_opportunity node.db (codes "N-1") ≡ some new_row
unfolding program
found = refl

allowed :
    allowed_match_line_for (desk (some timed_out)) new_row (codes "index")
    ≡ some (codes "Sin filtro (todas las entradas)")
unfolding program
allowed = refl

due : deadline_decision (desk (some timed_out)) new_row ≡ ok
unfolding program
due = refl

clock : truthy (some (desk none).now_str) ≡ true
unfolding program
clock = refl

notify_saved_record-once_example :
    notify_saved_record
      (desk none)
      (codes "N-1")
      ((notify_saved_record (desk none) (codes "N-1") node).0)
    ≡ ((notify_saved_record (desk none) (codes "N-1") node).0, false)
notify_saved_record-once_example =
    notify_saved_record-once (desk none) (codes "N-1") node clock accepted

notify_saved_record-retried_example :
    HasMark Unset
      (codes "N-1")
      ((notify_saved_record (desk (some timed_out)) (codes "N-1") node).0).db
notify_saved_record-retried_example =
    notify_saved_record-retried (desk (some timed_out)) (codes "N-1") node new_row
      (codes "Sin filtro (todas las entradas)") found refl due allowed rejected

build_index_digest_messages-Splits_example : Splits 2 (new_row ∷ new_row ∷ new_row ∷ []) (
    build_index_digest_messages
      (desk none)
      (λ part total rows. [])
      2
      (new_row ∷ new_row ∷ new_row ∷ []))
build_index_digest_messages-Splits_example =
    build_index_digest_messages-Splits (desk none) (λ part total rows. []) 1
      (new_row ∷ new_row ∷ new_row ∷ [])

abbrev unmarked : Desk
unmarked = record (desk none) { baseline = false }

made : (ensure_baseline unmarked node.db).1 ≡ true
unfolding program ensure_baseline
made = refl

ensure_baseline-notify_saved_record_example :
    AllNoticed (ensure_baseline unmarked node.db).0
    × (notify_saved_record
          (record unmarked { baseline = true })
          (codes "N-1")
          (record node { db = (ensure_baseline unmarked node.db).0 })
        ≡ (record node { db = (ensure_baseline unmarked node.db).0 }, false))
ensure_baseline-notify_saved_record_example =
    ensure_baseline-notify_saved_record unmarked node.db node (codes "N-1") clock (inl refl, tt)
      made
