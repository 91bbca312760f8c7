-- ===== src/Ics/Tests.antt =====
-- The calendar output on examples.
use panamacompra_collector_b.Prelude.{◌≡◌, refl, none, some, [], ◌∷◌, arith, keep, codes}
use mathlib.Core.List.{flat_map}
use panamacompra_collector_b.Ics.{
  replace_char, replace_crlf, ics_escape, digits_only, ics_datetime, fold_rest, ics_fold_line,
  Calendar, calendars_lines, vevent_lines, fields_of, ics_utc_datetime, ics_param,
}
use panamacompra_collector_b.Ics.Folding.{IsFolded, ics_fold_line-IsFolded}
use panamacompra_collector_b.Ics.Escaping.{unescape, line_feeds, unescape-ics_escape}

program : Unit {0}
unfolding codes replace_char replace_crlf ics_escape digits_only ics_datetime fold_rest
    ics_fold_line flat_map keep calendars_lines vevent_lines fields_of ics_utc_datetime ics_param
program = tt

escaped : ics_escape (some (codes "a,b;\r\nc")) ≡ codes "a\\,b\\;\\nc"
unfolding program
escaped = refl

stamped : ics_datetime (some (codes "2026-06-23T12:00:00")) ≡ codes "20260623T120000"
unfolding program
stamped = refl

folded : ics_fold_line 4 (codes "abcdefghi") ≡ codes "abcd" ∷ codes " efg" ∷ codes " hi" ∷ []
unfolding program
folded = refl

abbrev calendar : Calendar
calendar = record {
  timezone = none;
  uid = some (codes "1");
  summary = some (codes "Compra de insumos, salud; y equipo");
  dtstart = some (codes "2026-06-23T12:00:00");
  dtend = none;
  dtstamp = none;
  description = none;
  location = none;
  url_publico = none;
  url_interno = none;
  organizer = record { email = some (codes "a@b.c"); name = some (codes "A"); role = none };
  attendees = codes "d@e.f" ∷ [];
}

ics_fold_line-IsFolded_example :
    IsFolded 4 (codes "abcdefghi") (ics_fold_line 4 (codes "abcdefghi"))
ics_fold_line-IsFolded_example = ics_fold_line-IsFolded 4 (codes "abcdefghi") (omega arith)

unescape-ics_escape_example :
    unescape (ics_escape (some (codes "a,b;\r\nc"))) ≡ line_feeds (codes "a,b;\r\nc")
unescape-ics_escape_example = unescape-ics_escape (some (codes "a,b;\r\nc"))
