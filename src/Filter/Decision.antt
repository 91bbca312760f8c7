-- ===== src/Filter/Decision.antt =====
-- What the filter decides, without the line that it prints.
use panamacompra_collector_b.Prelude.{
  ◌≡◌, refl, ◌≢◌, ◌↔◌, ◌⊎◌, inl, inr, Bool, true, false, ◌&&◌, none, List, [], ◌∷◌, ◌++◌, arith,
  Bool-cases, keep, any, all, All, Text,
}
use panamacompra_collector_b.Unicode.{Unicode, strip_accents}
use panamacompra_collector_b.Filter.{
  Rule, Rules, word_present, term_present, rule_words_present, match_line, include_line,
  evaluate_filter, words,
}

-- Some rule of the list passes the test.
pub data Some (p : Rule → Bool) : List Rule → Type 0 where
  here : {rule : Rule} {rules : List Rule} → p rule ≡ true → Some p (rule ∷ rules)
  there : {rule : Rule} {rules : List Rule} → Some p rules → Some p (rule ∷ rules)

any-Some : (p : Rule → Bool) (rules : List Rule) → any p rules ≡ true → Some p rules
unfolding any
any-Some p [] h = absurd (cc h)
any-Some p (r ∷ rules) h = elim (Bool-cases (p r)) [
  | inl e ↦ here e
  | inr e ↦ there (any-Some p rules (rw e at h))
]

any-All : (p : Rule → Bool) (rules : List Rule) → any p rules ≡ false → All (λ r. p r ≡ false) rules
unfolding any
any-All p [] h = tt
any-All p (r ∷ rules) h = elim (Bool-cases (p r)) [
  | inl e ↦ absurd (cc (rw e at h))
  | inr e ↦ (e, any-All p rules (rw e at h))
]

All-any : (p : Rule → Bool) (rules : List Rule) → All (λ r. p r ≡ false) rules → any p rules ≡ false
unfolding any
All-any p [] h = refl
All-any p (r ∷ rules) h = rw h.0 (All-any p rules h.1)

-- The filter keeps a rule exactly if some rule passes.
keep-ne-nil : (p : Rule → Bool) (rules : List Rule) → Some p rules → keep p rules ≢ []
unfolding keep
keep-ne-nil p [] s h = elim s [ ]
keep-ne-nil p (r ∷ rules) (here e) h = absurd (cc (rw e at h))
keep-ne-nil p (r ∷ rules) (there s) h = elim (Bool-cases (p r)) [
  | inl e ↦ cc (rw e at h)
  | inr e ↦ keep-ne-nil p rules s (rw e at h)
]

keep-Some : (p : Rule → Bool) (rules : List Rule) → keep p rules ≢ [] → Some p rules
unfolding keep
keep-Some p [] h = absurd (h refl)
keep-Some p (r ∷ rules) h = elim (Bool-cases (p r)) [
  | inl e ↦ here e
  | inr e ↦ there (keep-Some p rules (rw e at h))
]

module _ (u : Unicode) where
  match_line-none : (rules : List Rule) → (match_line u rules ≢ none) ↔ (rules ≢ [])
  unfolding match_line
  match_line-none [] = (λ h e. h refl, λ h e. h refl)
  match_line-none (r ∷ rules) = (λ h e. cc e, λ h e. cc e)

  -- A rule matches the text, read without accents and case.
  abbrev pub matches : Text → Rule → Bool
  matches haystack rule = rule_words_present u rule (u.lower (strip_accents u haystack))

  -- No excluding rule matches, and there is no including rule or one of them matches.
  abbrev pub IsAdmitted : Text → Rules → Type 0
  IsAdmitted haystack rules =
      All (λ r. matches haystack r ≡ false) rules.excludes
      × ((rules.includes ≡ []) ⊎ Some (matches haystack) rules.includes)

  include_line-Some :
      (p : Rule → Bool) (includes excludes : List Rule)
      → include_line u p includes excludes ≢ none
      → (includes ≡ []) ⊎ Some p includes
  unfolding include_line
  include_line-Some p [] excludes h = inl refl
  include_line-Some p (r ∷ rules) excludes h =
      inr (keep-Some p (r ∷ rules) ((match_line-none (keep p (r ∷ rules))).0 h))

  include_line-ne-none :
      (p : Rule → Bool) (includes excludes : List Rule)
      → (includes ≡ []) ⊎ Some p includes
      → include_line u p includes excludes ≢ none
  unfolding include_line
  include_line-ne-none p [] [] h e = cc e
  include_line-ne-none p [] (r ∷ excludes) h e = cc e
  include_line-ne-none p (r ∷ rules) excludes (inl empty) e = cc empty
  include_line-ne-none p (r ∷ rules) excludes (inr found) e =
      (match_line-none (keep p (r ∷ rules))).1 (keep-ne-nil p (r ∷ rules) found) e

  evaluate_filter-IsAdmitted :
      (haystack : Text) (rules : Rules)
      → evaluate_filter u haystack rules ≢ none
      → IsAdmitted haystack rules
  unfolding evaluate_filter
  evaluate_filter-IsAdmitted haystack rules h =
      elim (Bool-cases (any (matches haystack) rules.excludes)) [
        | inl out ↦ absurd (h (rw out refl))
        | inr fine ↦ (
          any-All (matches haystack) rules.excludes fine,
          include_line-Some (matches haystack) rules.includes rules.excludes (rw fine at h),
        )
      ]

  IsAdmitted-evaluate_filter :
      (haystack : Text) (rules : Rules)
      → IsAdmitted haystack rules
      → evaluate_filter u haystack rules ≢ none
  unfolding evaluate_filter
  IsAdmitted-evaluate_filter haystack rules (fine, found) =
      rw (All-any (matches haystack) rules.excludes fine)
        (include_line-ne-none (matches haystack) rules.includes rules.excludes found)

  -- The filter lets a text through exactly when no excluding rule matches it and, if there are
  -- including rules, at least one of them does.
  pub evaluate_filter_iff :
      (haystack : Text) (rules : Rules)
      → (evaluate_filter u haystack rules ≢ none) ↔ IsAdmitted haystack rules
  evaluate_filter_iff haystack rules =
      (evaluate_filter-IsAdmitted haystack rules, IsAdmitted-evaluate_filter haystack rules)

-- The words of a rule, normalised: what its matching depends on.
abbrev pub rule_words : Unicode → Rule → List Text
rule_words u [] = []
rule_words u (term ∷ terms) = words (u.lower (strip_accents u term)) ++ rule_words u terms

all-append : (p : Text → Bool) (s t : List Text) → all p (s ++ t) ≡ (all p s && all p t)
unfolding all
all-append p [] t = refl
all-append p (x ∷ s) t = ground (arith, all-append p s t)

term_present_lem :
    (u : Unicode) (haystack term : Text)
    → term_present u haystack term
      ≡ all (word_present u haystack) (words (u.lower (strip_accents u term)))
unfolding term_present
term_present_lem u haystack term = refl

-- A rule matches exactly if each of its words, of whatever term, has a variant in the text. So
-- how the words are grouped into terms, and whether they are adjacent, does not matter.
pub rule_words_present-eq :
    (u : Unicode) (terms : Rule) (haystack : Text)
    → rule_words_present u terms haystack ≡ all (word_present u haystack) (rule_words u terms)
unfolding rule_words_present all
rule_words_present-eq u [] haystack = refl
rule_words_present-eq u (term ∷ terms) haystack =
    rw
      (all-append (word_present u haystack) (words (u.lower (strip_accents u term)))
        (rule_words u terms))
      (ground (arith, rule_words_present-eq u terms haystack, term_present_lem u haystack term))
