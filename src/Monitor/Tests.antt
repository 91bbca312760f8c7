-- ===== src/Monitor/Tests.antt =====
-- Requests with and without a session.
use panamacompra_collector_b.Prelude.{
  ◌≡◌, refl, some, [], ◌∷◌, ◌++◌, keep, Text, codes, ◌==◌, is_space, lstrip_by, strip_by, strip,
  starts_with, member,
}
use panamacompra_collector_b.Filter.{split_by}
use panamacompra_collector_b.Splits.{split_once, lines_from, splitlines, last_value}
use panamacompra_collector_b.Monitor.{
  Shell, setting_line, setting_lines, parse_settings_file, load_monitor_setting,
}
use panamacompra_collector_b.Monitor.Session.{
  Session, Keys, rpartition, make_session_token, parse_session_token,
}
use panamacompra_collector_b.Monitor.Access.{
  Request, staff, no_access, valid_monitor_tabs, is_local_request, session_cookie, session_of,
  access_level,
}
use panamacompra_collector_b.Monitor.Granted.{Granted}

program : Unit {0}
unfolding codes ◌==◌ strip starts_with member keep lstrip_by strip_by is_space split_by split_once
    lines_from splitlines last_value setting_line setting_lines parse_settings_file
    load_monitor_setting rpartition make_session_token parse_session_token valid_monitor_tabs
    is_local_request session_cookie session_of access_level
program = tt

abbrev clerk : Session
clerk = record {
  uid = codes "staff:ana";
  email = codes "ana";
  role = codes "staff";
  tabs = codes "records" ∷ codes "billing" ∷ [];
  exp = 1000;
}

-- A server whose signatures are an `x` after the payload, with one session in its tokens.
abbrev keys : Keys
keys = record {
  sign_session = λ payload. payload ++ codes "x";
  encode = λ s. codes "p";
  decode = λ payload. some clerk;
  now = 500;
}

abbrev request : Text → Request
request cookie = record {
  client_address = codes "10.0.0.7";
  cookie = cookie;
  admin_token_header = [];
  admin_token_query = [];
}

signed_in :
    access_level keys [] (request (codes "a=1; pc_admin_session=p.px"))
    ≡ (staff, codes "records" ∷ [])
unfolding program
signed_in = refl

forged : access_level keys [] (request (codes "pc_admin_session=p.q")) ≡ (no_access, [])
unfolding program
forged = refl

made_token : make_session_token keys (codes "u") (codes "e") (codes "admin") [] ≡ codes "p.px"
unfolding program
made_token = refl

abbrev shell : Shell
shell = record { shlex_split = λ text. some (strip text ∷ []) }

set_in_file :
    load_monitor_setting shell
      (codes "# settings\nPC_ADMIN_API_TOKEN=one\nPC_ADMIN_API_TOKEN=two\n")
      []
      (codes "PC_ADMIN_API_TOKEN")
      []
    ≡ codes "two"
unfolding program
set_in_file = refl
