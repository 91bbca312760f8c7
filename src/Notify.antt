-- ===== src/Notify.antt =====
-- src/20_pipeline/020-notify-whatsapp.py. This file: the settings and the saved files as a record,
-- the filters of the destinations and of the client profiles, and the marks on a record. The text
-- of a message, the portal's detail files and the hash of a snapshot are fields of the record.
pub mod Deliver
pub mod Record
pub mod Baseline
pub mod Change
pub mod Digest
pub mod StatusDigest
pub mod Shared
pub mod Once
pub mod Samples
mod Tests
use panamacompra_collector_b.Prelude.{
  ℤ, ℕ, ◌+◌, Bool, true, false, not, ◌&&◌, ◌||◌, Option, none, some, List, [], ◌∷◌, ◌++◌,
  if◌then◌else◌, keep, all, Text, codes, ◌==◌, is_empty, truthy, or_empty, coalesce, strip,
  contains, member,
}
use panamacompra_collector_b.Unicode.{Unicode, strip_accents}
use panamacompra_collector_b.Archive.{Opportunity, Db}
use panamacompra_collector_b.Filter.{
  Rule, Rules, no_rules, parse_filter_rules, evaluate_filter, join,
}
use panamacompra_collector_b.Waha.{any_destination_configured}
use panamacompra_collector_b.Waha.Send.{Endpoint, Client, Delivery}

-- An enabled entry of waha_clients.json, as `load_client_profiles` returns it.
pub record Profile : Type 0 where
  pub chat_id : Text
  pub purposes : List Text
  pub filters : Text

pub record Desk : Type 0 where
  pub unicode : Unicode
  pub endpoint : Endpoint
  pub delivery : Delivery
  pub profiles : List Profile
  -- PC_WAHA_ENABLED, PC_WAHA_RECORD_EVENTS_RESPECT_FILTER and `waha.enabled_for_event`
  pub waha_enabled : Bool
  pub record_events_respect_filter : Bool
  pub enabled_for_event : Text → Bool
  -- waha_keywords_<purpose>.txt and waha_keywords.txt
  pub keywords_file : Text → Option Text
  pub shared_keywords_file : Option Text
  -- The marker of the baseline exists.
  pub baseline : Bool
  -- `now_str()`, and the clock that deadlines are compared with, both in one call's time.
  pub now_str : Text
  pub now : ℕ
  pub parse_finish_date : Opportunity → Option ℕ
  pub skip_expired : Bool
  -- `cfg_int`.
  pub within_days : Option ℤ
  -- The description in the detail summary, and those of the first items, of a saved detail file.
  pub summary_descripcion : Option Text → Option Text
  pub items_text : Text → Text
  pub items_hash : Option Text → Text
  pub stable_hash : Text → Text → Text
  -- The path that `export_record_calendar` wrote, if it did.
  pub calendar_export : Opportunity → Option Text
  -- `build_record_message`: the variant, the previous status and the match line.
  pub build_record_message : Opportunity → Text → Option Text → Option Text → Text

-- What the calls change: the archive, the WAHA client and `_last_send_error`.
pub record Node : Type 0 where
  pub db : Db
  pub client : Client
  pub last_send_error : Text

abbrev pub filter_purposes : List Text
filter_purposes = codes "index" ∷ codes "details" ∷ codes "status" ∷ codes "open_now" ∷ []

-- The em dash of the messages.
abbrev pub dash : Text
dash = 8212 ∷ []

unfoldable pub clean_field : Option Text → Text
clean_field none = dash
clean_field (some value) = let text = strip value in if is_empty text then dash else text

-- `a or b` on columns.
abbrev pub first_of : Option Text → Option Text → Option Text
first_of a b = if truthy a then a else b

unfoldable pub status_value : Opportunity → Text
status_value row = clean_field (first_of row.estado row.grupo)

module _ (d : Desk) where
  unfoldable pub waha_usable : Bool
  waha_usable =
      d.waha_enabled
      && (any_destination_configured d.delivery.chats
          || (elim d.profiles [ [] ↦ false | p ∷ ps ↦ true ]))

  unfoldable pub is_cancelled_status : Text → Bool
  is_cancelled_status value =
      let normalized = d.unicode.lower (strip_accents d.unicode value) in
      contains normalized (codes "cancel")
      || contains normalized (codes "anulad")
      || contains normalized (codes "desiert")

  abbrev any_rule : List Rule → Bool
  any_rule [] = false
  any_rule (r ∷ rs) = true

  abbrev pub has_rules : Rules → Bool
  has_rules rules = any_rule rules.includes || any_rule rules.excludes

  unfoldable pub first_rules : List (Option Text) → Rules
  first_rules [] = no_rules
  first_rules (none ∷ paths) = first_rules paths
  first_rules (some text ∷ paths) =
      let rest = first_rules paths in
      if has_rules (parse_filter_rules text) then parse_filter_rules text else rest

  unfoldable pub load_filter_rules : Text → Rules
  load_filter_rules purpose = first_rules (
      (if member purpose filter_purposes then d.keywords_file purpose ∷ [] else [])
      ++ (if purpose == codes "open_now" then d.keywords_file (codes "index") ∷ [] else [])
      ++ d.shared_keywords_file ∷ [])

  -- The values of a list that are set, with a space between them.
  abbrev pub present : List (Option Text) → List Text
  present [] = []
  present (none ∷ values) = present values
  present (some [] ∷ values) = present values
  present (some (c ∷ value) ∷ values) = (c ∷ value) ∷ present values

  unfoldable pub row_filter_haystack : Opportunity → Text
  row_filter_haystack row = join (codes " ") (
      present (
        row.descripcion
        ∷ row.short_description
        ∷ row.entidad
        ∷ row.dependencia
        ∷ row.modalidad
        ∷ row.grupo
        ∷ d.summary_descripcion row.detail_json_path
        ∷ (if truthy row.detail_json_path
            then some (d.items_text (or_empty row.detail_json_path))
            else some [])
        ∷ []))

  unfoldable pub subscribes : Text → Profile → Bool
  subscribes purpose profile =
      member (codes "all") profile.purposes
      || member purpose profile.purposes
      || (purpose == codes "open_now" && member (codes "index") profile.purposes)

  abbrev pub is_some {ℓ} : {A : Type ℓ} → Option A → Bool
  is_some none = false
  is_some (some a) = true

  unfoldable pub matching_client_profiles : Text → Opportunity → List Profile
  matching_client_profiles purpose row =
      keep
        (λ profile.
          subscribes purpose profile
          && is_some (
              evaluate_filter d.unicode (row_filter_haystack row)
                (parse_filter_rules profile.filters)))
        d.profiles

  unfoldable pub match_line_for : Opportunity → Text → Option Text
  match_line_for row purpose =
      let rules = load_filter_rules purpose in
      if not (has_rules rules)
      then some (codes "Sin filtro (todas las entradas)")
      else evaluate_filter d.unicode
          (join (codes " ") (
            present (
              row.descripcion
              ∷ row.short_description
              ∷ row.entidad
              ∷ row.dependencia
              ∷ row.modalidad
              ∷ d.summary_descripcion row.detail_json_path
              ∷ [])))
          rules

  abbrev pub profile_line : List Profile → Option Text
  profile_line [] = none
  profile_line (p ∷ ps) = some (codes "Coincidencia por perfil de cliente")

  unfoldable pub allowed_match_line_for : Opportunity → Text → Option Text
  allowed_match_line_for row purpose =
      coalesce (match_line_for row purpose) (profile_line (matching_client_profiles purpose row))
