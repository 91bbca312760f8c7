-- ===== src/Filter.antt =====
-- The keyword filter of src/20_pipeline/020-notify-whatsapp.py: `parse_filter_rules`,
-- `word_plural_variants`, `rule_words_present` and `evaluate_filter`. A rule is a list of terms.
pub mod Parse
pub mod Decision
mod Tests
use panamacompra_collector_b.Prelude.{
  ℕ, ◌+◌, ◌-◌, Bool, not, ◌&&◌, ◌||◌, Option, none, some, List, [], ◌∷◌, ◌++◌, map, ltb, eqb,
  if◌then◌else◌, length, take, drop, keep, any, all, Text, codes, is_empty, is_space, strip,
  starts_with, ends_with, contains,
}
use panamacompra_collector_b.Unicode.{Unicode, strip_accents}

abbrev pub Rule : Type 0
Rule = List Text

abbrev cons_head : ℕ → List Text → List Text
cons_head c [] = (c ∷ []) ∷ []
cons_head c (piece ∷ pieces) = (c ∷ piece) ∷ pieces

-- `re.split` at each character of a class, and `str.split(sep)` for a separator of one character.
unfoldable pub split_by : (ℕ → Bool) → Text → List Text
split_by sep [] = [] ∷ []
split_by sep (c ∷ s) = let rest = split_by sep s in if sep c then [] ∷ rest else cons_head c rest

-- `str.split()`: the words between runs of white space.
unfoldable pub words : Text → List Text
unfolding split_by keep is_space
words s = keep (λ w. not (is_empty w)) (split_by is_space s)

-- `sep.join(pieces)`
unfoldable pub join : Text → List Text → Text
join sep [] = []
join sep (piece ∷ []) = piece
join sep (piece ∷ next ∷ pieces) = piece ++ sep ++ join sep (next ∷ pieces)

-- `[term.strip() for term in token.split("+") if term.strip()]`
unfoldable pub terms_of : Text → Rule
terms_of token = keep (λ t. not (is_empty t)) (map strip (split_by (λ c. eqb c b'+') token))

-- The rules of a text: those that include, and those that exclude.
pub record Rules : Type 0 where
  pub includes : List Rule
  pub excludes : List Rule

abbrev pub no_rules : Rules
no_rules = record { includes = []; excludes = [] }

-- `if terms: (excludes if negate else includes).append(terms)`
unfoldable pub add_include : Rule → Rules → Rules
add_include [] rest = rest
add_include (t ∷ ts) rest = record rest { includes = (t ∷ ts) ∷ rest.includes }

unfoldable pub add_exclude : Rule → Rules → Rules
add_exclude [] rest = rest
add_exclude (t ∷ ts) rest = record rest { excludes = (t ∷ ts) ∷ rest.excludes }

-- The body of the loop for one token that is stripped already, before the rules that follow it.
unfoldable pub add_token : Text → Rules → Rules
add_token token rest =
    if is_empty token || starts_with token (codes "#")
    then rest
    else if starts_with token (codes "-")
    then add_exclude (terms_of (strip (drop 1 token))) rest
    else add_include (terms_of token) rest

unfoldable pub add_tokens : List Text → Rules
add_tokens [] = no_rules
add_tokens (raw ∷ raws) = add_token (strip raw) (add_tokens raws)

unfoldable pub parse_filter_rules : Text → Rules
parse_filter_rules text = add_tokens (split_by (λ c. eqb c b',' || eqb c 10) text)

-- `word[:-n]`
abbrev pub chop : ℕ → Text → Text
chop n word = take (length word - n) word

unfoldable pub word_plural_variants : Text → List Text
word_plural_variants word =
    word
    ∷ ((if ltb 5 (length word) && ends_with word (codes "es") then chop 2 word ∷ [] else [])
        ++ (if ltb 4 (length word) && ends_with word (codes "s") then chop 1 word ∷ [] else []))

module _ (u : Unicode) where
  unfoldable pub word_present : Text → Text → Bool
  word_present haystack word = any (contains haystack) (word_plural_variants word)

  unfoldable pub term_present : Text → Text → Bool
  term_present haystack term = all (word_present haystack) (words (u.lower (strip_accents u term)))

  unfoldable pub rule_words_present : Rule → Text → Bool
  rule_words_present terms haystack = all (term_present haystack) terms

  -- `matched`, joined or None.
  unfoldable pub match_line : List Rule → Option Text
  match_line [] = none
  match_line (rule ∷ rules) = some (join (codes ", ") (map (join (codes " + ")) (rule ∷ rules)))

  -- The rest of `evaluate_filter`, when no excluding rule matches.
  unfoldable pub include_line : (Rule → Bool) → List Rule → List Rule → Option Text
  include_line rule_matches [] [] = some (codes "Sin filtro (todas las entradas)")
  include_line rule_matches [] (rule ∷ excludes) = some (codes "Pasa las exclusiones")
  include_line rule_matches (rule ∷ includes) excludes =
      match_line (keep rule_matches (rule ∷ includes))

  unfoldable pub evaluate_filter : Text → Rules → Option Text
  evaluate_filter haystack rules =
      let normalized = u.lower (strip_accents u haystack) in
      let rule_matches = λ (terms : Rule). rule_words_present terms normalized in
      if any rule_matches rules.excludes
      then none
      else include_line rule_matches rules.includes rules.excludes
