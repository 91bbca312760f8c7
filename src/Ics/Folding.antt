-- ===== src/Ics/Folding.antt =====
-- Folding: the lines put together again are the content line, and each is short.
use panamacompra_collector_b.Prelude.{
  append_nil, ℕ, zero, suc, ◌-◌, ◌≤◌, ◌≡◌, refl, inl, inr, List, [], ◌∷◌, ◌++◌, arith, leb, leb→le,
  Bool-cases, length, take-drop, length-take_le, length-drop_le, All-append, take, drop, keep, All,
  Text, codes,
}
use mathlib.Core.List.{flat_map}
use panamacompra_collector_b.Ics.{
  Calendar, fold_rest, ics_fold_line, fields_of, content_line, is_set, vevent_lines, ics_header,
  calendars_lines,
}

-- What a reader of the format does with the lines of one property: it drops the first character
-- of each line after the first, and puts the lines together.
abbrev continued : List Text → Text
continued [] = []
continued ([] ∷ lines) = continued lines
continued ((c ∷ line) ∷ lines) = line ++ continued lines

abbrev pub unfolded : List Text → Text
unfolded [] = []
unfolded (line ∷ lines) = line ++ continued lines

abbrev pub Short : ℕ → Text → Type 0
Short limit line = length line ≤ limit

-- The further lines begin with a space.
abbrev pub AreContinued : List Text → Type 0
AreContinued [] = Unit
AreContinued (line ∷ lines) = All (λ l. take 1 l ≡ b' ' ∷ []) lines

abbrev Folds : ℕ → Text → List Text → Type 0
Folds limit line lines =
    (continued lines ≡ line) × All (Short limit) lines × All (λ l. take 1 l ≡ b' ' ∷ []) lines

fold_rest-Folds :
    (fuel w : ℕ) (line : Text)
    → length line ≤ fuel
    → Folds (suc (suc w)) line (fold_rest fuel (suc w) line)
unfolding fold_rest
fold_rest-Folds zero w [] h = (refl, tt, tt)
fold_rest-Folds zero w (c ∷ line) h = absurd (grind arith)
fold_rest-Folds (suc fuel) w [] h = (refl, tt, tt)
fold_rest-Folds (suc fuel) w (c ∷ line) h =
    let shorter = length-drop_le w line in
    let rest = fold_rest-Folds fuel w (drop w line) (grind arith) in
    let width = length-take_le w line in
    (rw (rest.0, take-drop w line) refl, (grind arith, rest.1), (refl, rest.2))

abbrev pub IsFolded : ℕ → Text → List Text → Type 0
IsFolded limit line lines = (unfolded lines ≡ line) × All (Short limit) lines × AreContinued lines

fold_line_at :
    (w : ℕ) (line : Text) → IsFolded (suc (suc w)) line (ics_fold_line (suc (suc w)) line)
unfolding ics_fold_line
fold_line_at w line = elim (Bool-cases (leb (length line) (suc (suc w)))) [
  | inl short ↦ rw short (append_nil line, (leb→le _ _ short, tt), tt)
  | inr long ↦
      let shorter = length-drop_le (suc (suc w)) line in
      let rest = fold_rest-Folds (length line) w (drop (suc (suc w)) line) shorter in
      let less : suc (suc w) - 1 ≡ suc w = omega arith in
      rw (long, less)
        (
          rw (rest.0) (take-drop (suc (suc w)) line),
          (length-take_le (suc (suc w)) line, rest.1),
          rest.2,
        )
]

-- Folding is undone by unfolding. For a limit of two characters or more, a reader that unfolds the
-- lines of a property gets the content line back, no line is longer than the limit, and each line
-- after the first begins with a space.
pub ics_fold_line-IsFolded :
    (limit : ℕ) (line : Text) → 2 ≤ limit → IsFolded limit line (ics_fold_line limit line)
ics_fold_line-IsFolded (suc (suc w)) line h = fold_line_at w line
ics_fold_line-IsFolded (suc zero) line h = absurd (omega arith)
ics_fold_line-IsFolded zero line h = absurd (omega arith)

folded_fields :
    (fields : List (Text × Text))
    → All (Short 75) (flat_map (λ field. ics_fold_line 75 (content_line field)) fields)
unfolding flat_map
folded_fields [] = tt
folded_fields (field ∷ fields) =
    All-append (Short 75) (ics_fold_line 75 (content_line field)) _
      (ics_fold_line-IsFolded 75 (content_line field) (omega arith)).1 (folded_fields fields)

vevent_lines-Short : (tz : Text) (c : Calendar) → All (Short 75) (vevent_lines tz c)
unfolding vevent_lines codes
vevent_lines-Short tz c = (
  omega arith,
  All-append (Short 75) _ _ (folded_fields (keep is_set (fields_of tz c))) (omega arith, tt),
)

event_lines : (tz : Text) (cs : List Calendar) → All (Short 75) (flat_map (vevent_lines tz) cs)
unfolding flat_map
event_lines tz [] = tt
event_lines tz (c ∷ cs) =
    All-append (Short 75) (vevent_lines tz c) _ (vevent_lines-Short tz c) (event_lines tz cs)

-- Whatever the fields of the calendars are, no line of the written file has more than 75
-- characters.
pub calendars_lines-Short :
    (tz : Text) (cs : List Calendar) → All (Short 75) (calendars_lines tz cs)
unfolding calendars_lines codes
calendars_lines-Short tz cs =
    All-append (Short 75) ics_header _
      (omega arith, (omega arith, (omega arith, (omega arith, (omega arith, tt)))))
      (All-append (Short 75) (flat_map (vevent_lines tz) cs) _ (event_lines tz cs)
        (omega arith, (omega arith, tt)))
