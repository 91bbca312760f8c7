-- ===== src/Filter/Tests.antt =====
-- Runs of the filter, and its theorems at those inputs.
use panamacompra_collector_b.Prelude.{
  ◌≡◌, refl, ◌≢◌, ◌↔◌, true, none, some, [], ◌∷◌, keep, any, all, codes, ◌==◌, is_space, strip,
  starts_with, ends_with, contains,
}
use mathlib.Core.List.{flat_map}
use panamacompra_collector_b.Unicode.{ascii, strip_accents}
use panamacompra_collector_b.Filter.{
  Rules, split_by, words, join, terms_of, add_include, add_exclude, add_token, add_tokens,
  parse_filter_rules, word_plural_variants, word_present, term_present, rule_words_present,
  match_line, include_line, evaluate_filter,
}
use panamacompra_collector_b.Filter.Parse.{AreProper, parse_filter_rules-AreProper}
use panamacompra_collector_b.Filter.Decision.{IsAdmitted, evaluate_filter_iff}

program : Unit {0}
unfolding codes ◌==◌ is_space strip starts_with ends_with contains keep any all strip_accents
    flat_map split_by words join terms_of add_include add_exclude add_token add_tokens
    parse_filter_rules word_plural_variants word_present term_present rule_words_present match_line
    include_line evaluate_filter
program = tt

abbrev rules : Rules
rules = parse_filter_rules (codes "salud + insumos, toro bocas\n-obra + calle,# nota, +")

parsed : rules ≡ record {
  includes = (codes "salud" ∷ codes "insumos" ∷ []) ∷ (codes "toro bocas" ∷ []) ∷ [];
  excludes = (codes "obra" ∷ codes "calle" ∷ []) ∷ [];
}
unfolding program
parsed = refl

-- The words of a term need not be adjacent, nor in order.
reordered : evaluate_filter ascii (codes "Bocas del Toro") rules ≡ some (codes "toro bocas")
unfolding program
reordered = refl

plural : word_present ascii (codes "escuela de obras") (codes "escuelas") ≡ true
unfolding program
plural = refl

excluded : evaluate_filter ascii (codes "Bocas del Toro: obra en calle 2") rules ≡ none
unfolding program
excluded = refl

parse_filter_rules-AreProper_example : AreProper rules
parse_filter_rules-AreProper_example =
    parse_filter_rules-AreProper (codes "salud + insumos, toro bocas\n-obra + calle,# nota, +")

evaluate_filter_iff_example :
    (evaluate_filter ascii (codes "Bocas del Toro") rules ≢ none)
    ↔ IsAdmitted ascii (codes "Bocas del Toro") rules
evaluate_filter_iff_example = evaluate_filter_iff ascii (codes "Bocas del Toro") rules
