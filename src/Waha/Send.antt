-- ===== src/Waha/Send.antt =====
-- `send_text` of src/30_notify/010-waha-client.py with the session check before it, the retries
-- and the circuit breaker. The endpoint is a parameter: what it reports of the session, and what
-- it answers to a message, given the messages posted before.
pub mod Outcome
pub mod Requests
use panamacompra_collector_b.Prelude.{
  ℤ, pos, negsuc, ℕ, zero, suc, ◌+◌, ◌-◌, Bool, not, Option, none, some, List, [], ◌∷◌, ◌++◌, leb,
  if◌then◌else◌, take, Text, codes, strip,
}
use panamacompra_collector_b.Filter.{words, join}
use panamacompra_collector_b.Waha.{Settings, configured_chat_id, or_else}

pub record Post : Type 0 where
  pub session : Text
  pub chat_id : Text
  pub text : Text

-- The dictionary that `waha_session_status` returns.
pub record Session : Type 0 where
  pub name : Text
  pub status : Text
  pub connected : Bool
  pub needs_qr : Bool
  pub dashboard_url : Text

-- A client notification in the log of the app.
pub record AppNotification : Type 0 where
  pub purpose : Text
  pub text : Text
  pub chat_id : Text

-- An exception of the request: its text, the reason that `send_error_reason` makes of it, and
-- whether it is one of the classes that the `except` names (OSError, URLError, HTTPError and
-- TimeoutError, not HTTPException).
pub record Failure : Type 0 where
  pub error : Text
  pub reason : Text
  pub caught : Bool

-- `answer` is `none` where the request succeeds. `session_error` is an exception that the request of
-- `waha_session_status` lets through; `logs` is whether `log_app_notification`, which swallows its
-- failures, gets its entry into the log.
pub record Endpoint : Type 0 where
  pub session_error : Option Text
  pub logs : AppNotification → Bool
  pub session_status : Text → Session
  pub answer : List Post → Post → Option Failure

-- An entry of the unsent audit, without its timestamp.
pub record Unsent : Type 0 where
  pub session : Text
  pub purpose : Text
  pub chat_id : Text
  pub reason : Text
  pub text_preview : Text

-- `qr_warning` is the file of the attention flag, as its message and action.
pub record Client : Type 0 where
  pub posted : List Post
  pub unsent : List Unsent
  pub app_log : List AppNotification
  pub qr_warning : Option (Text × Text)
  pub send_failures : ℕ

-- A setting is `none` where `int` refuses it. `timeout_error` is the ValueError of `float` for a
-- timeout that is no number.
pub record Delivery : Type 0 where
  pub session : Text
  pub retries : Option ℤ
  pub breaker : Option ℤ
  pub timeout_error : Option Text
  pub chats : Settings

pub data Result : Type 0 where
  skipped : Result
  sent : Result
  qr_required : Text → Result
  not_ready : Text → Result
  failed : Text → Result
  crashed : Text → Result

abbrev pub at_least_one : ℕ → ℕ
at_least_one zero = 1
at_least_one (suc n) = suc n

unfoldable pub max_send_attempts : Option ℤ → ℕ
max_send_attempts none = 3
max_send_attempts (some (pos n)) = suc n
max_send_attempts (some (negsuc n)) = 1

unfoldable pub breaker_threshold : Option ℤ → ℕ
breaker_threshold none = 3
breaker_threshold (some (pos n)) = at_least_one n
breaker_threshold (some (negsuc n)) = 1

unfoldable pub unsent_entry : Text → Text → Text → Text → Text → Unsent
unsent_entry session purpose chat_id reason text = record {
  session = session;
  purpose = or_else purpose (codes "default");
  chat_id = chat_id;
  reason = take 500 reason;
  text_preview = take 240 (join (codes " ") (words text));
}

unfoldable pub flag_unsent_message : Text → Text → Text → Text → Text → Client → Client
flag_unsent_message session purpose chat_id reason text c = record c {
  unsent = c.unsent ++ unsent_entry session purpose chat_id reason text ∷ [];
}

unfoldable pub write_waha_warning : Text → Text → Client → Client
write_waha_warning message action c = record c { qr_warning = some (message, action) }

unfoldable pub write_qr_warning : Session → Client → Client
write_qr_warning result =
    write_waha_warning
      (codes
        "WAHA requires a QR scan. WhatsApp messaging was skipped; the collector continued normally.")
      (codes "Open " ++ result.dashboard_url ++ codes " and scan the QR code to pair the session.")

unfoldable pub clear_qr_warning : Client → Client
clear_qr_warning c = record c { qr_warning = none }

unfoldable pub qr_reason : Session → Text
qr_reason result =
    codes "WAHA_QR_REQUIRED: session '"
    ++ result.name
    ++ codes "' is "
    ++ result.status
    ++ codes "; scan QR at "
    ++ result.dashboard_url

unfoldable pub not_ready_reason : Session → Text
not_ready_reason result =
    codes "WAHA_NOT_READY: session '"
    ++ result.name
    ++ codes "' is "
    ++ result.status
    ++ codes "; message was not posted"

unfoldable pub not_ready_warning : Session → Client → Client
not_ready_warning result =
    write_waha_warning
      (codes "WAHA session '"
        ++ result.name
        ++ codes "' is "
        ++ result.status
        ++ codes ". WhatsApp messaging was skipped; the collector continued normally.")
      (codes "Open " ++ result.dashboard_url ++ codes " and verify or restart the WAHA session.")

-- `require_session_ready`, which returns `sent` where it returns and the exception where it raises.
unfoldable pub require_session_ready :
    Session → Text → Text → Text → Text → Client → Client × Result
require_session_ready result session purpose chat_id text c =
    if result.needs_qr
    then (
      flag_unsent_message session purpose chat_id (qr_reason result) text
          (write_qr_warning result c),
      qr_required (qr_reason result),
    )
    else if not result.connected
    then (
      flag_unsent_message session purpose chat_id (not_ready_reason result) text
          (not_ready_warning result c),
      not_ready (not_ready_reason result),
    )
    else (clear_qr_warning c, sent)

abbrev app_notification : Text → Post → AppNotification
app_notification purpose p = record { purpose = purpose; text = p.text; chat_id = p.chat_id }

-- An exception of a step before, which nothing catches, ends the call.
abbrev pub unless_raised : Option Text → Client → Client × Result → Client × Result
unless_raised none c next = next
unless_raised (some error) c next = (c, crashed error)

module _ (e : Endpoint) where
  unfoldable pub delivered : Text → Post → Client → Client
  delivered purpose p c = record c {
    posted = c.posted ++ p ∷ [];
    send_failures = 0;
    app_log =
        if e.logs (app_notification purpose p)
        then c.app_log ++ app_notification purpose p ∷ []
        else c.app_log;
  }

  unfoldable pub refused : Post → Client → Client
  refused p c = record c { posted = c.posted ++ p ∷ [] }

  unfoldable pub give_up : Text → Post → Failure → Client → Client
  give_up purpose p failure c =
      flag_unsent_message p.session purpose p.chat_id failure.reason p.text
        (record (refused p c) { send_failures = suc c.send_failures })

  -- The exception of an attempt: one that is not caught ends the call at once.
  abbrev pub on_failure : Post → Failure → Client → Client × Result → Client × Result
  on_failure p failure c handled =
      if failure.caught then handled else (refused p c, crashed failure.error)

  -- The loop over the attempts: the number is that of the retries left after this one.
  unfoldable pub attempt_from : ℕ → Text → Post → Client → Client × Result
  attempt_from zero purpose p c = elim (e.answer c.posted p) [
    | none ↦ (delivered purpose p c, sent)
    | some failure ↦ on_failure p failure c (give_up purpose p failure c, failed failure.error)
  ]
  attempt_from (suc retries) purpose p c =
      let again = attempt_from retries purpose p (refused p c) in
      elim (e.answer c.posted p) [
        | none ↦ (delivered purpose p c, sent)
        | some failure ↦ on_failure p failure c again
      ]

  unfoldable pub retries_left : Delivery → Client → ℕ
  retries_left d c =
      if leb (breaker_threshold d.breaker) c.send_failures
      then 0
      else max_send_attempts d.retries - 1

  unfoldable pub post_ready : Delivery → Text → Post → Client × Result → Client × Result
  post_ready d purpose p (c, sent) = attempt_from (retries_left d c) purpose p c
  post_ready d purpose p (c, raised) = (c, raised)

  unfoldable pub send_to : Delivery → Text → Text → Text → Client → Client × Result
  send_to d text purpose [] c = (c, skipped)
  send_to d text purpose (i ∷ chat_id) c = unless_raised e.session_error c (
      post_ready d purpose (record { session = d.session; chat_id = i ∷ chat_id; text = text })
        (require_session_ready (e.session_status d.session) d.session purpose (i ∷ chat_id) text c))

  unfoldable pub send_text : Delivery → Text → Text → Text → Client → Client × Result
  send_text d text purpose chat_id_override c = unless_raised d.timeout_error c (
      send_to d text purpose (or_else (strip chat_id_override) (configured_chat_id d.chats purpose))
        c)
