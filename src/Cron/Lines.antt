-- ===== src/Cron/Lines.antt =====
-- The crontab as lines: what is written is read back.
use panamacompra_collector_b.Prelude.{
  append_nil, append_assoc, ◌≡◌, refl, ap, ◌∙◌, inl, inr, Bool, true, false, not, ◌&&◌, List, [],
  ◌∷◌, ◌++◌, eqb, Bool-cases, All-append, all, All, Text,
}
use panamacompra_collector_b.Filter.{join}
use panamacompra_collector_b.Splits.{breaks_line, last_line, lines_from, splitlines}
use panamacompra_collector_b.Cron.{newline}

-- A text without line breaks.
abbrev pub OneLine : Text → Type 0
OneLine line = All (λ c. breaks_line c ≡ false) line

lines_from-line :
    (so_far line rest : Text)
    → OneLine line
    → lines_from false so_far (line ++ 10 ∷ rest) ≡ (so_far ++ line) ∷ lines_from false [] rest
unfolding lines_from
lines_from-line so_far [] rest clean = rw (append_nil so_far) refl
lines_from-line so_far (c ∷ line) rest clean =
    rw (clean.0, lines_from)
      (lines_from-line (so_far ++ c ∷ []) line rest clean.1
        ∙ rw (append_assoc so_far (c ∷ []) line) refl)

lines_from-join :
    (line : Text) (lines : List Text)
    → All OneLine (line ∷ lines)
    → lines_from false [] (join newline (line ∷ lines) ++ newline) ≡ line ∷ lines
unfolding join lines_from
lines_from-join line [] clean = lines_from-line [] line [] clean.0
lines_from-join line (next ∷ lines) clean =
    ap (lines_from false []) (
      append_assoc (line ++ newline) (join newline (next ∷ lines)) newline
      ∙ append_assoc line newline (join newline (next ∷ lines) ++ newline))
    ∙ lines_from-line [] line (join newline (next ∷ lines) ++ newline) clean.0
    ∙ ap (λ rest. line ∷ rest) (lines_from-join next lines clean.1)

pub splitlines-join :
    (line : Text) (lines : List Text)
    → All OneLine (line ∷ lines)
    → splitlines (join newline (line ∷ lines) ++ newline) ≡ line ∷ lines
unfolding splitlines
splitlines-join line lines clean = lines_from-join line lines clean

last_line-OneLine : (line : Text) → OneLine line → All OneLine (last_line line)
last_line-OneLine [] clean = tt
last_line-OneLine (c ∷ line) clean = (clean, tt)

lines_from-OneLine :
    (after_cr : Bool) (line text : Text)
    → OneLine line
    → All OneLine (lines_from after_cr line text)
unfolding lines_from
lines_from-OneLine after_cr line [] clean = last_line-OneLine line clean
lines_from-OneLine after_cr line (c ∷ text) clean = elim (Bool-cases (after_cr && eqb c 10)) [
  | inl e ↦ rw (e, lines_from) (lines_from-OneLine false line text clean)
  | inr e ↦ elim (Bool-cases (breaks_line c)) [
    | inl e2 ↦ rw (e, e2, lines_from) (clean, lines_from-OneLine (eqb c 13) [] text tt)
    | inr e2 ↦
        rw (e, e2, lines_from)
          (lines_from-OneLine false (line ++ c ∷ []) text
            (All-append (λ x. breaks_line x ≡ false) line (c ∷ []) clean (e2, tt)))
  ]
]

pub splitlines-OneLine : (text : Text) → All OneLine (splitlines text)
unfolding splitlines
splitlines-OneLine text = lines_from-OneLine false [] text tt

pub OneLine-of : (line : Text) → all (λ c. not (breaks_line c)) line ≡ true → OneLine line
unfolding all
OneLine-of [] e = tt
OneLine-of (c ∷ line) e = elim (Bool-cases (breaks_line c)) [
  | inl breaks ↦ absurd (cc (rw breaks at e))
  | inr whole ↦ (whole, OneLine-of line (rw whole at e))
]
