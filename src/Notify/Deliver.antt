-- ===== src/Notify/Deliver.antt =====
-- The marks on a record, and `send_text`: one message to the shared destination and to the client
-- profiles that match.
use panamacompra_collector_b.Prelude.{
  ℕ, ◌+◌, Bool, true, false, not, ◌&&◌, Option, none, some, List, [], ◌∷◌, ◌++◌, if◌then◌else◌,
  take, Text, codes, is_empty, strip, starts_with, member,
}
use panamacompra_collector_b.Archive.{
  Opportunity, Notice, Tracking, Db, find_existing_opportunity, update_opportunity,
}
use panamacompra_collector_b.Waha.{configured_chat_id}
use panamacompra_collector_b.Waha.Send.{
  AppNotification, Client, Result, skipped, sent, qr_required, not_ready, failed, crashed,
}
use panamacompra_collector_b.Waha.Send
use panamacompra_collector_b.Notify.{
  Desk, Node, Profile, status_value, match_line_for, matching_client_profiles,
}

abbrev pub set_notice : (Notice → Notice) → Opportunity → Opportunity
set_notice f row = record row { notice = f row.notice }

-- `signature_for`
unfoldable pub snapshot : Desk → Opportunity → Notice → Notice
snapshot d row old =
    let status = status_value row in
    let items = d.items_hash row.detail_json_path in
    record old {
      last_notified_status = some status;
      last_notified_items_hash = some items;
      last_notified_signature = some (d.stable_hash status items);
    }

abbrev pub announced_now : Desk → Notice → Notice
announced_now d old = record old { notified_at = some d.now_str }

abbrev pub mark_row : Desk → Opportunity → Opportunity
mark_row d row = set_notice (λ old. announced_now d (snapshot d row old)) row

unfoldable pub mark_notified : Desk → Text → Db → Db
mark_notified d numero db = update_opportunity numero (mark_row d) db

unfoldable pub mark_detail_notified : Desk → Text → Db → Db
mark_detail_notified d numero db =
    update_opportunity numero
      (set_notice (λ old. record old { detail_notified_at = some d.now_str })) db

unfoldable pub mark_snapshot : Desk → Text → Db → Db
mark_snapshot d numero db = update_opportunity numero (λ row. set_notice (snapshot d row) row) db

abbrev drop_pending : Tracking → Tracking
drop_pending old = record old { pending_status_change = none }

unfoldable pub clear_status_change : Text → Db → Db
clear_status_change numero db =
    update_opportunity numero (λ row. record row { tracking = drop_pending row.tracking }) db

unfoldable pub export_record_calendar : Desk → Opportunity → Db → Db
export_record_calendar d row db = elim (d.calendar_export row) [
  | none ↦ db
  | some path ↦
      update_opportunity row.numero
        (set_notice (λ old. record old { last_calendar_export_path = some path })) db
]

abbrev or_none : Text → Option Text
or_none [] = none
or_none (c ∷ s) = some (c ∷ s)

abbrev next_attempt : Option ℕ → ℕ
next_attempt none = 1
next_attempt (some n) = n + 1

-- The error is empty where the message was accepted.
unfoldable pub record_send_outcome : Option Text → Text → Db → Db
record_send_outcome none error db = db
record_send_outcome (some numero) error db =
    update_opportunity numero
      (set_notice (λ old. record old {
        notify_attempts = some (next_attempt old.notify_attempts);
        notify_error = or_none (take 300 error);
      }))
      db

-- The text of the exception that a call of `waha.send_text` raises, if it raises one.
abbrev pub raised : Result → Option Text
raised skipped = none
raised sent = none
raised (qr_required reason) = some reason
raised (not_ready reason) = some reason
raised (failed reason) = some reason
raised (crashed error) = some error

-- Best effort: the log may not take the entry.
unfoldable pub log_app_notification : Desk → Text → Text → Text → Client → Client
log_app_notification d purpose text chat_id c =
    let entry : AppNotification = record { purpose = purpose; text = text; chat_id = chat_id } in
    record c { app_log = if d.endpoint.logs entry then c.app_log ++ entry ∷ [] else c.app_log }

-- How the `try` block ends: with `sent_any`, or in an exception.
pub data Ended : Type 0 where
  ended : Bool → Ended
  broken : Text → Ended

module _ (d : Desk) (text purpose : Text) where
  -- Where a message to one destination was accepted, the rest follows.
  abbrev pub and_then : Client × Option Text → (Client → Client × Ended) → Client × Ended
  and_then (c, none) next = next c
  and_then (c, some error) next = (c, broken error)

  unfoldable pub post_to : Text → Client → Client × Option Text
  post_to chat_id c =
      let result = Send.send_text d.endpoint d.delivery text purpose chat_id c in
      (result.0, raised result.1)

  unfoldable pub send_profiles : List Profile → List Text → Bool → Client → Client × Ended
  send_profiles [] sent_chat_ids sent_any c = (c, ended sent_any)
  send_profiles (profile ∷ profiles) sent_chat_ids sent_any c =
      let chat_id = strip profile.chat_id in
      elim (member chat_id sent_chat_ids) [
        | true ↦ send_profiles profiles sent_chat_ids sent_any c
        | false ↦ elim (starts_with chat_id (codes "app:")) [
          | true ↦
              send_profiles profiles (chat_id ∷ sent_chat_ids) true
                (log_app_notification d purpose text chat_id c)
          | false ↦
              and_then (post_to chat_id c) (send_profiles profiles (chat_id ∷ sent_chat_ids) true)
        ]
      ]

  unfoldable pub send_all : Bool → Text → List Profile → Client → Client × Ended
  send_all true default_chat_id profiles c =
      and_then (post_to [] c) (send_profiles profiles (default_chat_id ∷ []) true)
  send_all false default_chat_id profiles c = send_profiles profiles [] false c

  -- What follows the `try` block.
  unfoldable pub settle_send : Option Text → Node → Client × Ended → Node × Bool
  settle_send numero s (c, ended false) = (record s { client = c }, false)
  settle_send numero s (c, ended true) =
      (record s { client = c; db = record_send_outcome numero [] s.db }, true)
  settle_send numero s (c, broken error) = (
    record s { client = c; db = record_send_outcome numero error s.db; last_send_error = error },
    false,
  )

  abbrev find_row : Option Text → Db → Option Opportunity
  find_row none db = none
  find_row (some numero) db = find_existing_opportunity db numero

  abbrev has_line : Option Text → Bool
  has_line none = false
  has_line (some line) = true

  abbrev matches_default : Option Opportunity → Bool
  matches_default none = true
  matches_default (some row) = has_line (match_line_for d row purpose)

  abbrev profiles_of : Option Opportunity → List Profile
  profiles_of none = []
  profiles_of (some row) = matching_client_profiles d purpose row

  abbrev no_profile : List Profile → Bool
  no_profile [] = true
  no_profile (p ∷ ps) = false

  unfoldable pub send_matching : Option Text → Bool → Text → List Profile → Node → Node × Bool
  send_matching numero has_default default_chat_id profiles s =
      if not has_default && no_profile profiles
      then (s, false)
      else settle_send numero s (send_all has_default default_chat_id profiles s.client)

  -- The notifier's `send_text`, with `numero` where `conn` and `numero` are given.
  unfoldable pub send_text : Text → Option Text → Node → Node × Bool
  send_text event numero s =
      let s = record s { last_send_error = [] } in
      let row = find_row numero s.db in
      let default_chat_id = strip (configured_chat_id d.delivery.chats purpose) in
      if d.record_events_respect_filter && not (d.enabled_for_event event)
      then (s, false)
      else send_matching numero (not (is_empty default_chat_id) && matches_default row)
          default_chat_id (profiles_of row) s
