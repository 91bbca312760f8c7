-- ===== src/Regex/Fuel.antt =====
-- Patterns that take at least one character, and how often they match: once per character at most.
use panamacompra_collector_b.Prelude.{
  ℕ, zero, suc, ◌+◌, ◌≤◌, ◌<◌, ◌≡◌, refl, sym, ap, ◌∙◌, inl, inr, Bool, Option, none, some, List,
  [], ◌∷◌, arith, Option-cases, length, length-append, All, Text,
}
use mathlib.Core.Path.{subst}
use panamacompra_collector_b.Regex.{
  Match, Pattern, Found, one, then_, at_most, many, exactly, group, first_match, search_from,
  find_from,
}
use panamacompra_collector_b.Regex.Parses.{
  IsMatch, Parses, IsRun, IsOption, one-Parses, at_most-Parses, exactly-Parses, many-Parses,
  then_-Parses, group-Parses,
}

-- A pattern whose matches take at least so many characters.
abbrev pub TakesAtLeast : ℕ → Pattern → Type 0
TakesAtLeast n p = Parses (λ groups before. n ≤ length before) p

pub then_-TakesAtLeast :
    (m n : ℕ) (p q : Pattern)
    → TakesAtLeast m p
    → TakesAtLeast n q
    → TakesAtLeast (m + n) (then_ p q)
then_-TakesAtLeast m n p q =
    then_-Parses (λ groups before. m ≤ length before) (λ groups before. n ≤ length before)
      (λ groups before. m + n ≤ length before)
      (λ a b s t h k. (let e = length-append s t in omega arith)) p q

pub group-TakesAtLeast : (n : ℕ) (p : Pattern) → TakesAtLeast n p → TakesAtLeast n (group p)
group-TakesAtLeast n =
    group-Parses (λ groups before. n ≤ length before) (λ groups before. n ≤ length before)
      (λ a s q. q)

run_found :
    (m : ℕ) (q : ℕ → Bool) (N : ℕ → Type 0) (s : Text) (found : List Match)
    → ((k : ℕ) → N k → m ≤ k)
    → All (IsMatch (IsRun q N) s) found
    → All (IsMatch (λ groups before. m ≤ length before) s) found
run_found m q N s [] least h = tt
run_found m q N s ((groups, rest) ∷ found) least h =
    let (before, run, split) = h.0 in
    ((before, least (length before) run.1, split), run_found m q N s found least h.1)

pub run-TakesAtLeast :
    (m : ℕ) (p : Pattern) (q : ℕ → Bool) (N : ℕ → Type 0)
    → ((k : ℕ) → N k → m ≤ k)
    → Parses (IsRun q N) p
    → TakesAtLeast m p
run-TakesAtLeast m p q N least h s = run_found m q N s (p s) least (h s)

pub one-TakesAtLeast : (q : ℕ → Bool) → TakesAtLeast 1 (one q)
one-TakesAtLeast q = run-TakesAtLeast 1 (one q) q (λ k. k ≡ 1) (λ k h. omega arith) (one-Parses q)

pub at_most-TakesAtLeast : (n : ℕ) (q : ℕ → Bool) → TakesAtLeast 0 (at_most n q)
at_most-TakesAtLeast n q =
    run-TakesAtLeast 0 (at_most n q) q (λ k. k ≤ n) (λ k h. omega arith) (at_most-Parses n q)

pub exactly-TakesAtLeast : (n : ℕ) (q : ℕ → Bool) → TakesAtLeast 0 (exactly n q)
exactly-TakesAtLeast n q =
    run-TakesAtLeast 0 (exactly n q) q (λ k. k ≡ n) (λ k h. omega arith) (exactly-Parses n q)

pub many-TakesAtLeast : (q : ℕ → Bool) → TakesAtLeast 0 (many q)
many-TakesAtLeast q =
    run-TakesAtLeast 0 (many q) q (λ k. Unit {0}) (λ k h. omega arith) (many-Parses q)

fewer :
    (m n : ℕ) (s : Text) (found : List Match)
    → n ≤ m
    → All (IsMatch (λ groups before. m ≤ length before) s) found
    → All (IsMatch (λ groups before. n ≤ length before) s) found
fewer m n s [] l h = tt
fewer m n s ((groups, rest) ∷ found) l h =
    let (before, least, split) = h.0 in ((before, omega arith, split), fewer m n s found l h.1)

pub TakesAtLeast-fewer : (m n : ℕ) (p : Pattern) → n ≤ m → TakesAtLeast m p → TakesAtLeast n p
TakesAtLeast-fewer m n p l h s = fewer m n s (p s) l (h s)

abbrev IsShorter : Text → Found → Type 0
IsShorter s found = length found.rest < length s

first_match-IsShorter :
    (start : ℕ) (s : Text) (found : List Match) (later : Option Found)
    → All (IsMatch (λ groups before. 1 ≤ length before) s) found
    → IsOption (IsShorter s) later
    → IsOption (IsShorter s) (first_match start s found later)
first_match-IsShorter start s [] later h k = k
first_match-IsShorter start s ((groups, rest) ∷ found) later h k =
    let (before, least, split) = h.0 in
    let whole = ap length split in let e = length-append before rest in omega arith

IsShorter-cons :
    (c : ℕ) (s : Text) (found : Option Found)
    → IsOption (IsShorter s) found
    → IsOption (IsShorter (c ∷ s)) found
IsShorter-cons c s none h = tt
IsShorter-cons c s (some found) h = omega arith

search_from-IsShorter :
    (p : Pattern) (start : ℕ) (s : Text)
    → TakesAtLeast 1 p
    → IsOption (IsShorter s) (search_from p start s)
unfolding search_from
search_from-IsShorter p start [] h = first_match-IsShorter start [] (p []) none (h []) tt
search_from-IsShorter p start (c ∷ s) h =
    first_match-IsShorter start (c ∷ s) (p (c ∷ s)) _ (h (c ∷ s))
      (IsShorter-cons c s _ (search_from-IsShorter p (suc start) s h))

abbrev continued : ℕ → Pattern → Option Found → List Found
continued fuel p none = []
continued fuel p (some found) = found ∷ find_from fuel p found.stop found.rest

find_from-continued :
    (fuel : ℕ) (p : Pattern) (start : ℕ) (s : Text)
    → find_from (suc fuel) p start s ≡ continued fuel p (search_from p start s)
unfolding find_from
find_from-continued fuel p start s = elim (Option-cases (search_from p start s)) [
  | inl e ↦ rw (e, find_from) refl
  | inr (found, e) ↦ rw (e, find_from) refl
]

continued_empty :
    (n : ℕ) (p : Pattern) (s : Text) (found : Option Found)
    → length s ≤ 0
    → IsOption (IsShorter s) found
    → continued n p found ≡ []
continued_empty n p s none l h = refl
continued_empty n p s (some found) l h = absurd (omega arith)

find_from_empty :
    (n : ℕ) (p : Pattern) (start : ℕ) (s : Text)
    → TakesAtLeast 1 p
    → length s ≤ 0
    → find_from n p start s ≡ []
unfolding find_from
find_from_empty zero p start s h l = refl
find_from_empty (suc n) p start s h l =
    find_from-continued n p start s
    ∙ continued_empty n p s (search_from p start s) l (search_from-IsShorter p start s h)

-- Two amounts of fuel that are enough give the same matches.
pub find_from_enough :
    (m n : ℕ) (p : Pattern) (start : ℕ) (s : Text)
    → TakesAtLeast 1 p
    → length s ≤ m
    → length s ≤ n
    → find_from m p start s ≡ find_from n p start s
find_from_enough zero n p start s h lm ln =
    find_from_empty zero p start s h lm ∙ sym (find_from_empty n p start s h lm)
find_from_enough (suc m) zero p start s h lm ln =
    find_from_empty (suc m) p start s h ln ∙ sym (find_from_empty zero p start s h ln)
find_from_enough (suc m) (suc n) p start s h lm ln =
    let continue : continued m p (search_from p start s) ≡ continued n p (search_from p start s) =
      elim (Option-cases (search_from p start s)) [
        | inl e ↦ rw e refl
        | inr (found, e) ↦
            let shorter = search_from-IsShorter p start s h in
            let less : length found.rest < length s = subst (IsOption (IsShorter s)) e shorter in
            rw e (
              ap (λ more. found ∷ more)
                (find_from_enough m n p found.stop found.rest h (omega arith) (omega arith)))
      ] in
    find_from-continued m p start s ∙ continue ∙ sym (find_from-continued n p start s)
