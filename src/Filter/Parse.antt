-- ===== src/Filter/Parse.antt =====
-- What `parse_filter_rules` returns, whatever the operator typed.
use panamacompra_collector_b.Prelude.{
  ◌≡◌, inl, inr, Bool, true, not, ◌||◌, List, [], ◌∷◌, map, eqb, Bool-cases, drop, keep, All, Text,
  codes, is_empty, strip, starts_with,
}
use panamacompra_collector_b.Filter.{
  Rule, Rules, terms_of, add_include, add_exclude, add_token, add_tokens, split_by,
  parse_filter_rules,
}

-- A rule has a term, and no term is empty.
abbrev pub IsProper : Rule → Type 0
IsProper [] = ⊥
IsProper (t ∷ ts) = All (λ term. not (is_empty term) ≡ true) (t ∷ ts)

All-keep : {A : Type 0} (p : A → Bool) (xs : List A) → All (λ x. p x ≡ true) (keep p xs)
unfolding keep
All-keep p [] = tt
All-keep p (x ∷ xs) = elim (Bool-cases (p x)) [
  | inl e ↦ rw e (e, All-keep p xs)
  | inr e ↦ rw e (All-keep p xs)
]

terms_of-All : (token : Text) → All (λ term. not (is_empty term) ≡ true) (terms_of token)
unfolding terms_of
terms_of-All token = All-keep (λ t. not (is_empty t)) (map strip (split_by (λ c. eqb c b'+') token))

-- All the rules are proper.
abbrev pub AreProper : Rules → Type 0
AreProper rules = All IsProper rules.includes × All IsProper rules.excludes

add_rule-AreProper :
    (terms : Rule) (rest : Rules)
    → All (λ term. not (is_empty term) ≡ true) terms
    → AreProper rest
    → AreProper (add_include terms rest) × AreProper (add_exclude terms rest)
unfolding add_include add_exclude
add_rule-AreProper [] rest h proper = (proper, proper)
add_rule-AreProper (t ∷ ts) rest h (i, e) = (((h, i), e), (i, (h, e)))

add_token-AreProper :
    (token : Text) (rest : Rules) → AreProper rest → AreProper (add_token token rest)
unfolding add_token
add_token-AreProper token rest proper =
    elim (Bool-cases (is_empty token || starts_with token (codes "#"))) [
      | inl skipped ↦ rw skipped proper
      | inr kept ↦ elim (Bool-cases (starts_with token (codes "-"))) [
        | inl negated ↦
            let body = strip (drop 1 token) in
            rw (kept, negated)
              (add_rule-AreProper (terms_of body) rest (terms_of-All body) proper).1
        | inr plain ↦
            rw (kept, plain)
              (add_rule-AreProper (terms_of token) rest (terms_of-All token) proper).0
      ]
    ]

add_tokens-AreProper : (raws : List Text) → AreProper (add_tokens raws)
unfolding add_tokens
add_tokens-AreProper [] = (tt, tt)
add_tokens-AreProper (raw ∷ raws) =
    add_token-AreProper (strip raw) (add_tokens raws) (add_tokens-AreProper raws)

-- Whatever the text, every rule that is read has at least one term and no empty term: an empty
-- term would match every record.
pub parse_filter_rules-AreProper : (text : Text) → AreProper (parse_filter_rules text)
unfolding parse_filter_rules
parse_filter_rules-AreProper text =
    add_tokens-AreProper (split_by (λ c. eqb c b',' || eqb c 10) text)
