-- ===== src/Regex.antt =====
-- What the sources use of Python's `re`: a pattern is the list of its matches at the start of a
-- text, in the order in which the engine tries them. A match has its groups and the text after it.
pub mod Parses
pub mod Fuel
use panamacompra_collector_b.Prelude.{
  ℕ, zero, suc, ◌+◌, ◌-◌, Bool, true, false, ◌&&◌, ◌||◌, Option, none, some, List, [], ◌∷◌, ◌++◌,
  leb, eqb, if◌then◌else◌, length, take, Text, is_empty,
}

abbrev pub Match : Type 0
Match = List Text × Text

abbrev pub Pattern : Type 0
Pattern = Text → List Match

-- One character of a class.
abbrev pub one : (ℕ → Bool) → Pattern
one p [] = []
one p (c ∷ s) = if p c then ([], s) ∷ [] else []

abbrev pub after : List Text → List Match → List Match
after groups [] = []
after groups ((more, rest) ∷ found) = (groups ++ more, rest) ∷ after groups found

abbrev pub each : Pattern → List Match → List Match
each q [] = []
each q ((groups, rest) ∷ found) = after groups (q rest) ++ each q found

-- One pattern, and then another.
unfoldable pub then_ : Pattern → Pattern → Pattern
then_ p q s = each q (p s)

-- `{0,n}` and `*` of a class, greedy.
unfoldable pub at_most : ℕ → (ℕ → Bool) → Pattern
at_most zero p s = ([], s) ∷ []
at_most (suc n) p [] = ([], []) ∷ []
at_most (suc n) p (c ∷ s) = elim (p c) [
  | true ↦ at_most n p s ++ ([], c ∷ s) ∷ []
  | false ↦ ([], c ∷ s) ∷ []
]

unfoldable pub many : (ℕ → Bool) → Pattern
many p [] = ([], []) ∷ []
many p (c ∷ s) = elim (p c) [ true ↦ many p s ++ ([], c ∷ s) ∷ [] | false ↦ ([], c ∷ s) ∷ [] ]

-- `+` and `{n}` of a class.
unfoldable pub some_of : (ℕ → Bool) → Pattern
some_of p = then_ (one p) (many p)

unfoldable pub exactly : ℕ → (ℕ → Bool) → Pattern
exactly zero p s = ([], s) ∷ []
exactly (suc n) p s = then_ (one p) (exactly n p) s

-- `?`, with the groups that an absent match leaves.
abbrev pub maybe : List Text → Pattern → Pattern
maybe absent p s = p s ++ (absent, s) ∷ []

-- `( … )`
abbrev pub captured : Text → List Match → List Match
captured s [] = []
captured s ((groups, rest) ∷ found) =
    (take (length s - length rest) s ∷ groups, rest) ∷ captured s found

unfoldable pub group : Pattern → Pattern
group p s = captured s (p s)

-- `$` of a pattern without flags: the end, or before a last newline.
unfoldable pub at_end : Pattern
at_end [] = ([], []) ∷ []
at_end (c ∷ s) = if eqb c 10 && is_empty s then ([], c ∷ s) ∷ [] else []

-- Letters of a literal in lower case, under IGNORECASE: besides the capital, `i` has two more forms,
-- and `s` and `k` one.
abbrev pub ignoring_case : ℕ → ℕ → Bool
ignoring_case x c =
    eqb c x
    || leb b'a' x && leb x b'z' && eqb (c + 32) x
    || eqb x b'i' && (eqb c 304 || eqb c 305)
    || eqb x b's' && eqb c 383
    || eqb x b'k' && eqb c 8490

unfoldable pub literal : Text → Pattern
literal [] s = ([], s) ∷ []
literal (x ∷ xs) s = then_ (one (ignoring_case x)) (literal xs) s

-- A match with its place in the text: where it begins and ends, and what is after it.
pub record Found : Type 0 where
  pub start : ℕ
  pub stop : ℕ
  pub groups : List Text
  pub rest : Text

abbrev pub at_place : ℕ → Text → Match → Found
at_place start s (groups, rest) = record {
  start = start;
  stop = start + (length s - length rest);
  groups = groups;
  rest = rest;
}

abbrev pub first_match : ℕ → Text → List Match → Option Found → Option Found
first_match start s [] later = later
first_match start s (m ∷ found) later = some (at_place start s m)

-- `re.search` from a place on.
unfoldable pub search_from : Pattern → ℕ → Text → Option Found
search_from p start [] = first_match start [] (p []) none
search_from p start (c ∷ s) = first_match start (c ∷ s) (p (c ∷ s)) (search_from p (suc start) s)

unfoldable pub search : Pattern → Text → Option Found
search p s = search_from p 0 s

-- `re.finditer` of a pattern that matches no empty text: every match takes a character of the fuel.
unfoldable pub find_from : ℕ → Pattern → ℕ → Text → List Found
find_from zero p start s = []
find_from (suc fuel) p start s = elim (search_from p start s) [
  | none ↦ []
  | some found ↦ found ∷ find_from fuel p found.stop found.rest
]

unfoldable pub find_all : Pattern → Text → List Found
find_all p s = find_from (length s) p 0 s

abbrev pub matches : Option Found → Bool
matches none = false
matches (some found) = true

-- `re.sub` of the runs of a class by one character.
unfoldable pub squeeze : (ℕ → Bool) → ℕ → Bool → Text → Text
squeeze p by in_run [] = []
squeeze p by in_run (c ∷ s) = elim (p c) [
  | true ↦ elim in_run [ true ↦ squeeze p by true s | false ↦ by ∷ squeeze p by true s ]
  | false ↦ c ∷ squeeze p by false s
]
