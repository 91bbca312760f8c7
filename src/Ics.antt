-- ===== src/Ics.antt =====
-- The iCalendar output of src/common.py: escaping, folding, and the lines of an event.
pub mod Folding
pub mod Escaping
mod Tests
use panamacompra_collector_b.Prelude.{
  ℕ, zero, suc, ◌+◌, ◌-◌, ◌/◌, Bool, not, ◌&&◌, Option, List, [], ◌∷◌, ◌++◌, map, ltb, leb, eqb,
  if◌then◌else◌, length, take, drop, keep, Text, codes, is_empty, truthy, or_empty,
}
use mathlib.Core.List.{flat_map}
use panamacompra_collector_b.Filter.{join}

-- `s.replace(c, t)` for one character.
unfoldable pub replace_char : ℕ → Text → Text → Text
unfolding flat_map
replace_char c t s = flat_map (λ x. if eqb x c then t else x ∷ []) s

-- `s.replace("\r\n", "\n")`
unfoldable pub replace_crlf : Text → Text
replace_crlf [] = []
replace_crlf (c ∷ []) = c ∷ []
replace_crlf (c ∷ d ∷ s) =
    let skipped = replace_crlf s in
    let kept = replace_crlf (d ∷ s) in
    if eqb c b'\r' && eqb d b'\n' then b'\n' ∷ skipped else c ∷ kept

unfoldable pub ics_escape : Option Text → Text
ics_escape value = replace_char b'\n' (b'\\' ∷ b'n' ∷ []) (
    replace_char b'\r' (b'\n' ∷ []) (
      replace_crlf (
        replace_char b',' (b'\\' ∷ b',' ∷ []) (
          replace_char b';' (b'\\' ∷ b';' ∷ [])
            (replace_char b'\\' (b'\\' ∷ b'\\' ∷ []) (or_empty value))))))

unfoldable pub digits_only : Text → Text
digits_only = keep (λ c. leb b'0' c && leb c b'9')

unfoldable pub ics_datetime : Option Text → Text
ics_datetime value =
    let digits = take 14 (digits_only (or_empty value)) in
    if ltb 8 (length digits) then take 8 digits ++ b'T' ∷ drop 8 digits else digits

unfoldable pub ics_utc_datetime : Option Text → Text
ics_utc_datetime value =
    let stamp = ics_datetime value in if is_empty stamp then [] else stamp ++ b'Z' ∷ []

unfoldable pub ics_param : Option Text → Text
ics_param value = b'"' ∷ (replace_char b'"' (b'\\' ∷ b'"' ∷ []) (or_empty value) ++ b'"' ∷ [])

-- The loop of `_ics_fold_line` after its first line: each further line is a space and at most
-- `width` characters.
unfoldable pub fold_rest : ℕ → ℕ → Text → List Text
fold_rest zero width line = []
fold_rest (suc fuel) width [] = []
fold_rest (suc fuel) width (c ∷ line) =
    (b' ' ∷ take width (c ∷ line)) ∷ fold_rest fuel width (drop width (c ∷ line))

-- Each further line takes at least one character, so that the length of the line is enough fuel.
unfoldable pub ics_fold_line : ℕ → Text → List Text
ics_fold_line limit line =
    if leb (length line) limit
    then line ∷ []
    else take limit line ∷ fold_rest (length line) (limit - 1) (drop limit line)

pub record Organizer : Type 0 where
  pub email : Option Text
  pub name : Option Text
  pub role : Option Text

pub record Calendar : Type 0 where
  pub timezone : Option Text
  pub uid : Option Text
  pub summary : Option Text
  pub dtstart : Option Text
  pub dtend : Option Text
  pub dtstamp : Option Text
  pub description : Option Text
  pub location : Option Text
  pub url_publico : Option Text
  pub url_interno : Option Text
  pub organizer : Organizer
  pub attendees : List Text

abbrev filled : Option Text → Text → Text
filled a b = if truthy a then or_empty a else b

abbrev organizer_params : Organizer → List Text
organizer_params o =
    (if truthy o.name then (codes "CN=" ++ ics_param o.name) ∷ [] else [])
    ++ (if truthy o.role then (codes "ROLE=" ++ ics_param o.role) ∷ [] else [])

abbrev organizer_key : List Text → Text
organizer_key [] = codes "ORGANIZER"
organizer_key (p ∷ params) = codes "ORGANIZER;" ++ join (codes ";") (p ∷ params)

-- The properties of an event, in the order of their lines; `calendar_tz` is the setting CALENDAR_TZ.
unfoldable pub fields_of : Text → Calendar → List (Text × Text)
fields_of calendar_tz c =
    let tz = filled c.timezone calendar_tz in
    (codes "UID", or_empty c.uid)
    ∷ (codes "SUMMARY", ics_escape c.summary)
    ∷ (codes "DTSTART;TZID=" ++ tz ++ codes ";VALUE=DATE-TIME", ics_datetime c.dtstart)
    ∷ (codes "DTEND;TZID=" ++ tz ++ codes ";VALUE=DATE-TIME", ics_datetime c.dtend)
    ∷ (codes "DTSTAMP;VALUE=DATE-TIME", ics_utc_datetime c.dtstamp)
    ∷ (codes "DESCRIPTION", ics_escape c.description)
    ∷ (codes "LOCATION", ics_escape c.location)
    ∷ (codes "URL", filled c.url_publico (or_empty c.url_interno))
    ∷ ((if truthy c.organizer.email
          then (
            organizer_key (organizer_params c.organizer),
            codes "MAILTO:" ++ or_empty c.organizer.email,
          )
            ∷ []
          else [])
        ++ map (λ attendee. (codes "ATTENDEE", codes "MAILTO:" ++ attendee)) c.attendees)

abbrev pub content_line : Text × Text → Text
content_line (key, value) = key ++ b':' ∷ value

abbrev pub is_set : Text × Text → Bool
is_set (key, value) = not (is_empty value)

unfoldable pub vevent_lines : Text → Calendar → List Text
unfolding flat_map keep
vevent_lines calendar_tz c =
    codes "BEGIN:VEVENT"
    ∷ (flat_map (λ field. ics_fold_line 75 (content_line field))
          (keep is_set (fields_of calendar_tz c))
        ++ codes "END:VEVENT" ∷ [])

abbrev pub ics_header : List Text
ics_header =
    codes "BEGIN:VCALENDAR"
    ∷ codes "VERSION:2.0"
    ∷ codes "PRODID:-//panamacompra-collector//EN"
    ∷ codes "CALSCALE:GREGORIAN"
    ∷ codes "METHOD:PUBLISH"
    ∷ []

unfoldable pub calendars_lines : Text → List Calendar → List Text
unfolding flat_map
calendars_lines calendar_tz calendars =
    ics_header ++ flat_map (vevent_lines calendar_tz) calendars ++ codes "END:VCALENDAR" ∷ [] ∷ []

-- For one calendar this is `calendar_to_ics`, which writes the same lines.
unfoldable pub calendars_to_ics : Text → List Calendar → Text
calendars_to_ics calendar_tz calendars =
    join (b'\r' ∷ b'\n' ∷ []) (calendars_lines calendar_tz calendars)
