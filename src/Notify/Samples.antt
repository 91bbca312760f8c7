-- ===== src/Notify/Samples.antt =====
-- A desk, a record that was not announced, and the archive with it.
use panamacompra_collector_b.Prelude.{pos, true, false, Option, none, some, [], ◌∷◌, ◌++◌, codes}
use panamacompra_collector_b.Unicode.{ascii}
use panamacompra_collector_b.Samples
use panamacompra_collector_b.Samples.{empty_db}
use panamacompra_collector_b.Archive.{Opportunity, no_notice}
use panamacompra_collector_b.Waha.{Settings}
use panamacompra_collector_b.Waha.Send.{Endpoint, Failure}
use panamacompra_collector_b.Notify.{Desk, Node}

abbrev pub endpoint : Option Failure → Endpoint
endpoint answer = record {
  session_error = none;
  logs = λ entry. true;
  session_status = λ name. record {
    name = name;
    status = [];
    connected = true;
    needs_qr = false;
    dashboard_url = [];
  };
  answer = λ posted p. answer;
}

abbrev pub chats : Settings
chats = record {
  purpose_env = λ purpose. [];
  purpose_file = λ purpose. none;
  default_env = codes "g";
  default_file = none;
}

-- A desk without filters and profiles, with the answer of the endpoint.
abbrev pub desk : Option Failure → Desk
desk answer = record {
  unicode = ascii;
  endpoint = endpoint answer;
  delivery = record {
    session = codes "default";
    retries = some (pos 0);
    breaker = none;
    timeout_error = none;
    chats = chats;
  };
  profiles = [];
  waha_enabled = true;
  record_events_respect_filter = false;
  enabled_for_event = λ event. false;
  keywords_file = λ purpose. none;
  shared_keywords_file = none;
  baseline = true;
  now_str = codes "2026-07-01 10:00:00";
  now = 1000;
  parse_finish_date = λ row. none;
  skip_expired = true;
  within_days = none;
  summary_descripcion = λ path. none;
  items_text = λ path. [];
  items_hash = λ path. codes "0";
  stable_hash = λ status items. status ++ items;
  calendar_export = λ row. none;
  build_record_message = λ row variant previous line. row.numero ++ variant;
}

abbrev pub timed_out : Failure
timed_out = record { error = codes "timed out"; reason = codes "timed out"; caught = true }

abbrev pub new_row : Opportunity
new_row = record (Samples.announced "N-1" "Abiertas" "Abierta" "Abierta") { notice = no_notice }

abbrev pub node : Node
node = record {
  db = record empty_db { opportunities = new_row ∷ [] };
  client = record { posted = []; unsent = []; app_log = []; qr_warning = none; send_failures = 0 };
  last_send_error = [];
}
