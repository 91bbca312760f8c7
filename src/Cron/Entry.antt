-- ===== src/Cron/Entry.antt =====
-- The entry of the tool in the crontab: what installing and removing it leave of the crontab.
use panamacompra_collector_b.Prelude.{
  keep-All, ◌≡◌, refl, ap, ◌∙◌, inl, inr, Bool, true, false, not, List, [], ◌∷◌, ◌++◌, eqb_refl,
  Bool-cases, All-append, keep, All, Text, is_empty, strip, starts_with, contains,
}
use panamacompra_collector_b.Filter.{join}
use panamacompra_collector_b.Splits.{lines_from, splitlines}
use panamacompra_collector_b.Cron.{
  Paths, marker, current_crontab, is_other, others, cron_line, newline, install, payload, remove,
}
use panamacompra_collector_b.Cron.Lines.{OneLine, splitlines-join, splitlines-OneLine}

abbrev not_blank : Text → Bool
not_blank line = not (is_empty (strip line))

-- A line of a crontab: without line breaks, and not blank.
abbrev pub IsEntry : Text → Type 0
IsEntry line = OneLine line × (not_blank line ≡ true)

keep-each {ℓ} : {A : Type ℓ} (p : A → Bool) (xs : List A) → All (λ x. p x ≡ true) (keep p xs)
unfolding keep
keep-each p [] = tt
keep-each p (x ∷ xs) = elim (Bool-cases (p x)) [
  | inl e ↦ rw e (e, keep-each p xs)
  | inr e ↦ rw e (keep-each p xs)
]

keep_id {ℓ} : {A : Type ℓ} (p : A → Bool) (xs : List A) → All (λ x. p x ≡ true) xs → keep p xs ≡ xs
unfolding keep
keep_id p [] h = refl
keep_id p (x ∷ xs) h = rw (h.0, keep_id p xs h.1) refl

keep-snoc {ℓ} :
    {A : Type ℓ} (p : A → Bool) (xs : List A) (x : A)
    → p x ≡ false
    → keep p (xs ++ x ∷ []) ≡ keep p xs
unfolding keep
keep-snoc p [] x e = rw e refl
keep-snoc p (y ∷ xs) x e = rw (keep-snoc p xs x e) refl

starts_with_refl : (s : Text) → starts_with s s ≡ true
unfolding starts_with
starts_with_refl [] = refl
starts_with_refl (c ∷ s) = rw (eqb_refl c) (starts_with_refl s)

contains_end : (before s : Text) → contains (before ++ s) s ≡ true
unfolding contains
contains_end [] [] = refl
contains_end [] (c ∷ s) = rw (starts_with_refl (c ∷ s)) refl
contains_end (a ∷ before) s = elim (Bool-cases (starts_with (a ∷ before ++ s) s)) [
  | inl e ↦ rw e refl
  | inr e ↦ rw e (contains_end before s)
]

All-zip {ℓ} :
    {A : Type ℓ} (P Q : A → Type ℓ) (xs : List A) → All P xs → All Q xs → All (λ x. P x × Q x) xs
All-zip P Q [] h k = tt
All-zip P Q (x ∷ xs) h k = ((h.0, k.0), All-zip P Q xs h.1 k.1)

IsEntry-current : (tab : Text) → All IsEntry (current_crontab tab)
unfolding current_crontab
IsEntry-current tab =
    All-zip OneLine _ (current_crontab tab)
      (keep-All OneLine not_blank (splitlines tab) (splitlines-OneLine tab))
      (keep-each not_blank (splitlines tab))

IsEntry-others : (tab : Text) → All IsEntry (others tab)
unfolding others
IsEntry-others tab = keep-All IsEntry is_other (current_crontab tab) (IsEntry-current tab)

All-first : (xs : List Text) → All IsEntry xs → All OneLine xs
All-first [] h = tt
All-first (x ∷ xs) h = (h.0.0, All-first xs h.1)

All-second : (xs : List Text) → All IsEntry xs → All (λ x. not_blank x ≡ true) xs
All-second [] h = tt
All-second (x ∷ xs) h = (h.0.1, All-second xs h.1)

others_idem : (tab : Text) → keep is_other (others tab) ≡ others tab
unfolding others
others_idem tab = keep_id is_other _ (keep-each is_other (current_crontab tab))

left-others :
    (tab : Text) (lines : List Text) (line : Text)
    → current_crontab tab ≡ lines ++ line ∷ []
    → keep is_other lines ≡ lines
    → is_other line ≡ false
    → others tab ≡ lines
unfolding others
left-others tab lines line written same own =
    rw (written) (keep-snoc is_other lines line own ∙ same)

current-join :
    (line : Text) (lines : List Text)
    → All IsEntry (line ∷ lines)
    → current_crontab (join newline (line ∷ lines) ++ newline) ≡ line ∷ lines
unfolding current_crontab
current-join line lines entries =
    rw (splitlines-join line lines (All-first (line ∷ lines) entries))
      (keep_id not_blank (line ∷ lines) (All-second (line ∷ lines) entries))

current-payload : (lines : List Text) → All IsEntry lines → current_crontab (payload lines) ≡ lines
unfolding current_crontab splitlines lines_from keep
current-payload [] entries = refl
current-payload (line ∷ lines) entries = current-join line lines entries

current-install :
    (lines : List Text) (line : Text)
    → All IsEntry lines
    → IsEntry line
    → current_crontab (join newline (lines ++ line ∷ []) ++ newline) ≡ lines ++ line ∷ []
current-install [] line entries h = current-join line [] (h, tt)
current-install (first ∷ lines) line entries h =
    current-join first (lines ++ line ∷ [])
      (entries.0, All-append IsEntry lines (line ∷ []) entries.1 (h, tt))

cron_line-own : (p : Paths) (expression : Text) → is_other (cron_line p expression) ≡ false
unfolding cron_line
cron_line-own p expression = rw (contains_end _ marker) refl

-- Where the new entry is one line that is not blank: installing the schedule leaves every other
-- entry of the crontab as it is and in its order, and makes the new entry, at the end, the one entry
-- of the tool, whatever entries of the tool there were. Removing the schedule leaves the other
-- entries alone, also right after it was installed.
pub install-others :
    (p : Paths) (expression tab : Text)
    → IsEntry (cron_line p expression)
    → (current_crontab (install p expression tab) ≡ others tab ++ cron_line p expression ∷ [])
      × (others (install p expression tab) ≡ others tab)
      × (current_crontab (remove tab) ≡ others tab)
      × (current_crontab (remove (install p expression tab)) ≡ others tab)
unfolding install remove
install-others p expression tab entry =
    let line = cron_line p expression in
    let written = current-install (others tab) line (IsEntry-others tab) entry in
    let removed = current-payload (others tab) (IsEntry-others tab) in
    let left =
      left-others (install p expression tab) (others tab) line written (others_idem tab)
        (cron_line-own p expression) in
    (written, left, removed, ap (λ lines. current_crontab (payload lines)) left ∙ removed)
