-- ===== src/Waha/Tests.antt =====
-- The destinations and the sending of messages, run on examples.
use panamacompra_collector_b.Prelude.{
  pos, ◌≡◌, refl, inl, inr, true, false, none, some, [], ◌∷◌, eqb, if◌then◌else◌, Bool-cases,
  length, any, codes, ◌==◌, is_space, lstrip_by, strip_by, strip, member,
}
use panamacompra_collector_b.Waha.{
  Settings, chat_purposes, read_chat_file, purpose_chat_id, default_chat_id, distinct_values,
  single_chat_id, configured_chat_id, any_destination_configured,
}
use panamacompra_collector_b.Waha.Routing.{HasOne, configured_chat_id-one}
use panamacompra_collector_b.Waha.Send.{
  Endpoint, Client, Delivery, sent, breaker_threshold, max_send_attempts, require_session_ready,
  attempt_from, retries_left, send_text, send_to, post_ready, clear_qr_warning, refused,
}
use panamacompra_collector_b.Waha.Send.Outcome.{Accounted, send_text-Accounted}

-- The group "g", saved for the summary alone.
abbrev summary_only : Settings
summary_only = record {
  purpose_env = λ purpose. [];
  purpose_file = λ purpose. if purpose == codes "summary" then some (b'g' ∷ []) else none;
  default_env = [];
  default_file = none;
}

summary_only-HasOne : HasOne summary_only (b'g' ∷ [])
unfolding purpose_chat_id read_chat_file strip strip_by lstrip_by is_space
summary_only-HasOne purpose = elim (Bool-cases (member purpose chat_purposes)) [
  | inl known ↦ elim (Bool-cases (purpose == codes "summary")) [
    | inl summary ↦ rw (known, summary) (inr refl)
    | inr other ↦ rw (known, other) (inl refl)
  ]
  | inr unknown ↦ rw unknown (inl refl)
]

configured_chat_id-one_example : configured_chat_id summary_only (codes "index") ≡ b'g' ∷ []
unfolding default_chat_id read_chat_file strip strip_by lstrip_by any_destination_configured any
    purpose_chat_id member codes ◌==◌ is_space
configured_chat_id-one_example =
    configured_chat_id-one summary_only b'g' [] (codes "index") refl summary_only-HasOne refl

-- An endpoint that answers the second request.
abbrev second_time : Endpoint
second_time = record {
  session_error = none;
  logs = λ entry. true;
  session_status = λ name. record {
    name = name;
    status = codes "WORKING";
    connected = true;
    needs_qr = false;
    dashboard_url = [];
  };
  answer = λ posted p.
      if eqb (length posted) 1
      then none
      else some (record { error = codes "timed out"; reason = codes "timed out"; caught = true });
}

abbrev idle : Client
idle = record { posted = []; unsent = []; app_log = []; qr_warning = none; send_failures = 0 }

abbrev tripped : Client
tripped = record idle { send_failures = 3 }

abbrev delivery : Delivery
delivery = record {
  session = codes "default";
  retries = some (pos 2);
  breaker = none;
  timeout_error = none;
  chats = summary_only;
}

program : Unit {0}
unfolding default_chat_id read_chat_file strip strip_by lstrip_by is_space
    any_destination_configured any purpose_chat_id member codes ◌==◌ configured_chat_id
    single_chat_id distinct_values require_session_ready attempt_from retries_left send_text send_to
    post_ready clear_qr_warning refused breaker_threshold max_send_attempts
program = tt

sent_second : (send_text second_time delivery (codes "hola") (codes "index") [] idle).1 ≡ sent
unfolding program
sent_second = refl

send_text-Accounted_example :
    Accounted second_time
      (codes "index")
      (codes "hola")
      idle
      (send_text second_time delivery (codes "hola") (codes "index") [] idle)
send_text-Accounted_example =
    send_text-Accounted second_time delivery (codes "hola") (codes "index") [] idle
