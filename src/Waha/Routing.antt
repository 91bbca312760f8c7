-- ===== src/Waha/Routing.antt =====
-- Where messages go when one group is set, and when none is.
use panamacompra_collector_b.Prelude.{
  ℕ, ◌≡◌, refl, ◌⊎◌, inl, inr, Bool, true, false, not, ◌&&◌, List, [], ◌∷◌, if◌then◌else◌,
  Bool-cases, any, Text, codes, ◌==◌, ==_refl, is_empty, member,
}
use panamacompra_collector_b.Waha.{
  Settings, chat_purposes, or_else, purpose_chat_id, default_chat_id, distinct_values,
  single_chat_id, configured_chat_id, any_destination_configured,
}

if-same {ℓ} : {A : Type ℓ} (b : Bool) (x : A) → (if b then x else x) ≡ x
if-same true x = refl
if-same false x = refl

member_head : (value : Text) → member value (value ∷ []) ≡ true
unfolding member
member_head value = rw (==_refl value) refl

and-false : (b : Bool) → (b && false) ≡ false
and-false true = refl
and-false false = refl

member-blank : (p : Text) → or_else [] p ≡ p
member-blank p = refl

-- Every purpose is blank or has the value.
abbrev pub HasOne : Settings → Text → Type 0
HasOne c value = (p : Text) → (purpose_chat_id c p ≡ []) ⊎ (purpose_chat_id c p ≡ value)

module _ (c : Settings) where
  distinct_values-only :
      (value : Text) (purposes : List Text)
      → HasOne c value
      → distinct_values c (value ∷ []) purposes ≡ value ∷ []
  unfolding distinct_values
  distinct_values-only value [] h = refl
  distinct_values-only value (p ∷ purposes) h = elim (h p) [
    | inl blank ↦ rw blank (distinct_values-only value purposes h)
    | inr same ↦
        rw (same, member_head value, and-false (not (is_empty value)))
          (distinct_values-only value purposes h)
  ]

  -- The first value that is set is the only one collected.
  distinct_values-first :
      (d : ℕ) (value : Text) (purposes : List Text)
      → HasOne c (d ∷ value)
      → any (λ p. not (is_empty (purpose_chat_id c p))) purposes ≡ true
      → distinct_values c [] purposes ≡ (d ∷ value) ∷ []
  unfolding distinct_values any member
  distinct_values-first d value [] h found = absurd (cc found)
  distinct_values-first d value (p ∷ purposes) h found = elim (h p) [
    | inl blank ↦ rw blank (distinct_values-first d value purposes h (rw blank at found))
    | inr same ↦ rw same (distinct_values-only (d ∷ value) purposes h)
  ]

  configured-one :
      (d : ℕ) (value : Text)
      → default_chat_id c ≡ []
      → HasOne c (d ∷ value)
      → any_destination_configured c ≡ true
      → single_chat_id c ≡ d ∷ value
  unfolding single_chat_id any_destination_configured
  configured-one d value blank h found =
      rw (distinct_values-first d value chat_purposes h (rw blank at found)) refl

  -- With no default group, and one group under one or more of the purposes, a message of every
  -- purpose goes to that group, the purposes that were left blank included.
  pub configured_chat_id-one :
      (d : ℕ) (value : Text) (purpose : Text)
      → default_chat_id c ≡ []
      → HasOne c (d ∷ value)
      → any_destination_configured c ≡ true
      → configured_chat_id c purpose ≡ d ∷ value
  unfolding configured_chat_id
  configured_chat_id-one d value purpose blank h found = elim (h purpose) [
    | inr same ↦ rw same refl
    | inl own ↦ rw (own, blank, configured-one d value blank h found) (index_or purpose)
  ]
    where
      index_or :
          (purpose : Text)
          → or_else
              (if purpose == codes "open_now" then purpose_chat_id c (codes "index") else [])
              (d ∷ value)
            ≡ d ∷ value
      index_or purpose = elim (Bool-cases (purpose == codes "open_now")) [
        | inl e ↦ rw e (elim (h (codes "index")) [ inl b ↦ rw b refl | inr s ↦ rw s refl ])
        | inr e ↦ rw e refl
      ]
