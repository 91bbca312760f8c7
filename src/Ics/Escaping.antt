-- ===== src/Ics/Escaping.antt =====
-- Escaping: what a reader of the format takes from an escaped text.
use panamacompra_collector_b.Prelude.{
  ℕ, ◌≡◌, refl, inl, inr, false, Option, [], ◌∷◌, ◌++◌, arith, eqb, if◌then◌else◌, eqb_iff,
  Bool-cases, Text, or_empty,
}
use mathlib.Core.List.{flat_map}
use panamacompra_collector_b.Ics.{replace_char, replace_crlf, ics_escape}

-- The escapes of the format, read from left to right.
abbrev meaning : ℕ → ℕ
meaning c = if eqb c b'n' then b'\n' else if eqb c b'N' then b'\n' else c

unfoldable pub unescape : Text → Text
unescape [] = []
unescape (c ∷ []) = c ∷ []
unescape (c ∷ d ∷ s) =
    let after = unescape s in
    let plain = unescape (d ∷ s) in if eqb c b'\\' then meaning d ∷ after else c ∷ plain

-- The text with each line end, of whatever kind, as a line feed.
abbrev pub line_feeds : Text → Text
line_feeds s = replace_char b'\r' (b'\n' ∷ []) (replace_crlf s)

-- What each character becomes.
abbrev mark : ℕ → Text
mark c =
    if eqb c b'\\'
    then b'\\' ∷ b'\\' ∷ []
    else if eqb c b';'
    then b'\\' ∷ b';' ∷ []
    else if eqb c b','
    then b'\\' ∷ b',' ∷ []
    else c ∷ []

replace-step :
    (s : Text)
    → replace_char b','
        (b'\\' ∷ b',' ∷ [])
        (replace_char b';' (b'\\' ∷ b';' ∷ []) (replace_char b'\\' (b'\\' ∷ b'\\' ∷ []) s))
      ≡ flat_map mark s
unfolding replace_char flat_map
replace-step [] = refl
replace-step (c ∷ s) = ground (arith, replace-step s)

crlf-cons : (c : ℕ) (s : Text) → eqb c b'\r' ≡ false → replace_crlf (c ∷ s) ≡ c ∷ replace_crlf s
unfolding replace_crlf
crlf-cons c [] h = refl
crlf-cons c (d ∷ s) h = rw h refl

-- A carriage return stays before the mark of a character that is no line feed.
crlf-kept :
    (d : ℕ) (s : Text)
    → eqb d b'\n' ≡ false
    → replace_crlf (b'\r' ∷ (mark d ++ s)) ≡ b'\r' ∷ replace_crlf (mark d ++ s)
unfolding replace_crlf
crlf-kept d s h = ground arith

crlf-mark_plain :
    (c : ℕ) (s : Text) → eqb c b'\r' ≡ false → replace_crlf (mark c ++ s) ≡ mark c ++ replace_crlf s
crlf-mark_plain c s h = ground (arith, crlf-cons c s, crlf-cons b'\\' (c ∷ s))

crlf-mark : (s : Text) → replace_crlf (flat_map mark s) ≡ flat_map mark (replace_crlf s)
unfolding replace_crlf flat_map
crlf-mark [] = refl
crlf-mark (c ∷ []) = ground arith
crlf-mark (c ∷ d ∷ s) = elim (Bool-cases (eqb c b'\r')) [
  | inr other ↦
      rw (crlf-mark_plain c (flat_map mark (d ∷ s)) other, other) (rw (crlf-mark (d ∷ s)) refl)
  | inl cr ↦ elim (Bool-cases (eqb d b'\n')) [
    | inl lf ↦ rw ((eqb_iff c b'\r').0 cr, (eqb_iff d b'\n').0 lf, crlf-mark s) refl
    | inr kept ↦
        rw ((eqb_iff c b'\r').0 cr, crlf-kept d (flat_map mark s) kept, crlf-mark (d ∷ s), kept)
          refl
  ]
]

-- What each character becomes in the end.
abbrev escaped : ℕ → Text
escaped c = if eqb c b'\n' then b'\\' ∷ b'n' ∷ [] else mark c

ends-mark :
    (s : Text)
    → replace_char b'\n' (b'\\' ∷ b'n' ∷ []) (replace_char b'\r' (b'\n' ∷ []) (flat_map mark s))
      ≡ flat_map escaped (replace_char b'\r' (b'\n' ∷ []) s)
unfolding replace_char flat_map
ends-mark [] = refl
ends-mark (c ∷ s) = ground (arith, ends-mark s)

unescape-cons : (c : ℕ) (s : Text) → eqb c b'\\' ≡ false → unescape (c ∷ s) ≡ c ∷ unescape s
unfolding unescape
unescape-cons c [] h = refl
unescape-cons c (d ∷ s) h = rw h refl

unescape-escaped : (s : Text) → unescape (flat_map escaped s) ≡ s
unfolding unescape flat_map
unescape-escaped [] = refl
unescape-escaped (c ∷ s) = ground (arith, unescape-escaped s, unescape-cons c (flat_map escaped s))

-- An escaped text is read back as it was, up to the kind of its line ends: whatever backslashes,
-- commas, semicolons and line ends a value has, a reader of the property that resolves the escapes
-- gets the value with a line feed for each line end.
pub unescape-ics_escape :
    (value : Option Text) → unescape (ics_escape value) ≡ line_feeds (or_empty value)
unfolding ics_escape
unescape-ics_escape value =
    rw
      (
        replace-step (or_empty value),
        crlf-mark (or_empty value),
        ends-mark (replace_crlf (or_empty value)),
      )
      (unescape-escaped (line_feeds (or_empty value)))
