-- ===== src/Notify/StatusDigest/Tests.antt =====
-- A digest of status changes that is not accepted.
use panamacompra_collector_b.Prelude.{
  if◌then◌else◌, ◌≡◌, refl, Option, none, some, List, [], ◌∷◌, keep, any, Text, codes, ◌==◌,
  is_space, lstrip_by, strip_by, strip, starts_with, member,
}
use panamacompra_collector_b.Table
use panamacompra_collector_b.Archive.{find_existing_opportunity, update_opportunity}
use panamacompra_collector_b.Waha.{
  any_destination_configured, configured_chat_id, default_chat_id, read_chat_file, purpose_chat_id,
}
use panamacompra_collector_b.Waha.Send.{
  send_to, post_ready, clear_qr_warning, refused, require_session_ready, attempt_from, retries_left,
  breaker_threshold, max_send_attempts,
}
use panamacompra_collector_b.Waha.Send
use panamacompra_collector_b.Notify.Samples.{desk, timed_out, new_row, node}
use panamacompra_collector_b.Notify.Deliver.{
  send_text, send_matching, settle_send, send_all, send_profiles, post_to, record_send_outcome,
  mark_snapshot, clear_status_change, export_record_calendar,
}
use panamacompra_collector_b.Notify.Digest.{chunks}
use panamacompra_collector_b.Notify.StatusDigest.{
  Change, build_status_digest_messages, failed_changes, accepted_change, accepted_changes, Step,
  at_snapshot, after_send, send_changes, kind_of, announce_status_digest,
}

program : Unit {0}
unfolding default_chat_id read_chat_file strip strip_by lstrip_by is_space
    any_destination_configured any codes ◌==◌ member configured_chat_id send_text send_matching
    settle_send send_all send_profiles post_to Send.send_text send_to post_ready clear_qr_warning
    refused require_session_ready attempt_from retries_left breaker_threshold max_send_attempts
    purpose_chat_id after_send chunks build_status_digest_messages send_changes failed_changes
    accepted_change accepted_changes announce_status_digest record_send_outcome update_opportunity
    find_existing_opportunity Table.find Table.update mark_snapshot clear_status_change
    export_record_calendar kind_of keep starts_with
program = tt

abbrev entries : List Change
entries = record { kind = codes "update"; row = new_row; label = codes "x" } ∷ []

abbrev shown : Option Text → Text
shown value = []

abbrev unbroken : Text → Option Step
unbroken numero = none

-- The snapshot of N-1 cannot be marked.
abbrev broken_mark : Text → Option Step
broken_mark numero = if numero == codes "N-1" then some at_snapshot else none

none_announced :
    (announce_status_digest (desk (some timed_out)) unbroken shown [] 1 entries node).2 ≡ 0
unfolding program
none_announced = refl

one_announced : (announce_status_digest (desk none) unbroken shown [] 1 entries node).2 ≡ 1
unfolding program
one_announced = refl

one_unmarked : (announce_status_digest (desk none) broken_mark shown [] 1 entries node).2 ≡ 0
unfolding program
one_unmarked = refl
