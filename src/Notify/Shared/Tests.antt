-- ===== src/Notify/Shared/Tests.antt =====
-- A record that the shared filter rejects, and a profile that takes every record.
use panamacompra_collector_b.Prelude.{
  ◌≡◌, refl, ◌≢◌, none, some, [], ◌∷◌, arith, keep, any, all, All, Text, codes, ◌==◌, is_space,
  lstrip_by, strip_by, strip, starts_with, ends_with, contains, member,
}
use mathlib.Core.List.{flat_map}
use panamacompra_collector_b.Table
use panamacompra_collector_b.Unicode.{strip_accents}
use panamacompra_collector_b.Archive.{find_existing_opportunity}
use panamacompra_collector_b.Filter.{
  split_by, words, join, terms_of, add_include, add_exclude, add_token, add_tokens,
  parse_filter_rules, word_plural_variants, word_present, term_present, rule_words_present,
  match_line, include_line, evaluate_filter,
}
use panamacompra_collector_b.Waha.{
  configured_chat_id, default_chat_id, purpose_chat_id, read_chat_file,
}
use panamacompra_collector_b.Notify.{
  Desk, Profile, match_line_for, load_filter_rules, first_rules, matching_client_profiles,
  row_filter_haystack, subscribes,
}
use panamacompra_collector_b.Notify.Samples.{desk, new_row, node}
use panamacompra_collector_b.Notify.Deliver.{send_text}
use panamacompra_collector_b.Notify.Shared.{Only, IsFor, IsOther, send_text-Only}

abbrev everything : Profile
everything = record { chat_id = codes "p"; purposes = codes "all" ∷ []; filters = [] }

abbrev strict : Desk
strict = record (desk none) {
  shared_keywords_file = some (codes "zzz");
  profiles = everything ∷ [];
}

program : Unit {0}
unfolding codes ◌==◌ is_space strip strip_by lstrip_by starts_with ends_with contains keep any all
    member strip_accents flat_map split_by words join terms_of add_include add_exclude add_token
    add_tokens parse_filter_rules word_plural_variants word_present term_present rule_words_present
    match_line include_line evaluate_filter match_line_for load_filter_rules first_rules
    matching_client_profiles row_filter_haystack subscribes find_existing_opportunity Table.find
    configured_chat_id default_chat_id purpose_chat_id read_chat_file
program = tt

found : find_existing_opportunity node.db (codes "N-1") ≡ some new_row
unfolding program
found = refl

rejects : match_line_for strict new_row (codes "index") ≡ none
unfolding program
rejects = refl

abbrev shared : Text
shared = b'g' ∷ []

abbrev own : Text
own = b'p' ∷ []

different : own ≢ shared
different h = absurd (ground arith)

taken :
    All
      (IsFor (IsOther strict (codes "index")))
      (matching_client_profiles strict (codes "index") new_row)
unfolding program
taken = ((refl, refl, different), tt)

send_text-Only_example :
    Only
      (IsOther strict (codes "index"))
      ((send_text strict (codes "hola") (codes "index") (codes "new") (some (codes "N-1")) node).0
        ).client
send_text-Only_example =
    send_text-Only strict (codes "hola") (codes "index") (codes "new") (codes "N-1") node new_row
      found rejects taken tt
