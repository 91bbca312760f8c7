-- ===== src/Regex/Parses.antt =====
-- What the matches of a pattern have in common: a relation of their groups to the text they take.
use panamacompra_collector_b.Prelude.{
  ℕ, zero, suc, ◌+◌, ◌-◌, ◌≤◌, ◌≡◌, refl, sym, ap, ◌∙◌, inl, inr, Bool, true, Option, none, some,
  List, [], ◌∷◌, ◌++◌, arith, Bool-cases, length, append_assoc, length-append, take-append,
  All-append, take, All, Text,
}
use mathlib.Core.Path.{subst}
use panamacompra_collector_b.Regex.{
  Match, Pattern, Found, one, after, each, then_, at_most, exactly, many, maybe, captured, group,
  first_match, search_from, search, find_from, find_all,
}

-- A match of a text: what it takes stands before its rest.
abbrev pub IsMatch : (List Text → Text → Type 0) → Text → Match → Type 0
IsMatch Q s (groups, rest) = (before : Text) × Q groups before × (s ≡ before ++ rest)

abbrev pub Parses : (List Text → Text → Type 0) → Pattern → Type 0
Parses Q p = (s : Text) → All (IsMatch Q s) (p s)

-- A run of a class, whose length has a property; it has no groups.
abbrev pub IsRun : (ℕ → Bool) → (ℕ → Type 0) → List Text → Text → Type 0
IsRun p N groups before = (groups ≡ []) × N (length before) × All (λ c. p c ≡ true) before

pub one-Parses : (p : ℕ → Bool) → Parses (IsRun p (λ n. n ≡ 1)) (one p)
one-Parses p [] = tt
one-Parses p (c ∷ s) = elim (Bool-cases (p c)) [
  | inl e ↦ rw e ((c ∷ [], (refl, refl, (e, tt)), refl), tt)
  | inr e ↦ rw e tt
]

module _ (Q R T : List Text → Text → Type 0)
    (both : (a b : List Text) (s t : Text) → Q a s → R b t → T (a ++ b) (s ++ t)) where
  after-IsMatch :
      (groups : List Text) (before s rest : Text) (found : List Match)
      → Q groups before
      → s ≡ before ++ rest
      → All (IsMatch R rest) found
      → All (IsMatch T s) (after groups found)
  after-IsMatch groups before s rest [] q split h = tt
  after-IsMatch groups before s rest ((more, end) ∷ found) q split h =
      let (next, r, inner) = h.0 in
      (
        (
          before ++ next,
          both groups more before next q r,
          split ∙ ap (λ t. before ++ t) inner ∙ sym (append_assoc before next end),
        ),
        after-IsMatch groups before s rest found q split h.1,
      )

  each-IsMatch :
      (q : Pattern) (s : Text) (found : List Match)
      → Parses R q
      → All (IsMatch Q s) found
      → All (IsMatch T s) (each q found)
  each-IsMatch q s [] r h = tt
  each-IsMatch q s ((groups, rest) ∷ found) r h =
      let (before, first, split) = h.0 in
      All-append (IsMatch T s) (after groups (q rest)) (each q found)
        (after-IsMatch groups before s rest (q rest) first split (r rest))
        (each-IsMatch q s found r h.1)

  pub then_-Parses : (p q : Pattern) → Parses Q p → Parses R q → Parses T (then_ p q)
  unfolding then_
  then_-Parses p q h k s = each-IsMatch q s (p s) k (h s)

module _ (Q T : List Text → Text → Type 0)
    (captures : (a : List Text) (s : Text) → Q a s → T (s ∷ a) s) where
  captured-IsMatch :
      (s : Text) (found : List Match)
      → All (IsMatch Q s) found
      → All (IsMatch T s) (captured s found)
  captured-IsMatch s [] h = tt
  captured-IsMatch s ((groups, rest) ∷ found) h =
      let (before, q, split) = h.0 in
      let text = ap (λ t. take (length t - length rest) t) split ∙ take-append before rest in
      (
        (before, subst (λ t. T (t ∷ groups) before) (sym text) (captures groups before q), split),
        captured-IsMatch s found h.1,
      )

  pub group-Parses : (p : Pattern) → Parses Q p → Parses T (group p)
  unfolding group
  group-Parses p h s = captured-IsMatch s (p s) (h s)

shift-IsMatch :
    (Q T : List Text → Text → Type 0) (c : ℕ) (s : Text) (found : List Match)
    → ((a : List Text) (t : Text) → Q a t → T a (c ∷ t))
    → All (IsMatch Q s) found
    → All (IsMatch T (c ∷ s)) found
shift-IsMatch Q T c s [] step h = tt
shift-IsMatch Q T c s ((groups, rest) ∷ found) step h =
    let (before, q, split) = h.0 in
    (
      (c ∷ before, step groups before q, ap (λ t. c ∷ t) split),
      shift-IsMatch Q T c s found step h.1,
    )

nothing-IsRun : (n : ℕ) (p : ℕ → Bool) → IsRun p (λ k. k ≤ n) [] []
nothing-IsRun n p = (refl, omega arith, tt)

pub at_most-Parses : (n : ℕ) (p : ℕ → Bool) → Parses (IsRun p (λ k. k ≤ n)) (at_most n p)
unfolding at_most
at_most-Parses zero p s = (([], nothing-IsRun zero p, refl), tt)
at_most-Parses (suc n) p [] = (([], nothing-IsRun (suc n) p, refl), tt)
at_most-Parses (suc n) p (c ∷ s) = elim (Bool-cases (p c)) [
  | inl e ↦
      rw (e, at_most)
        (All-append (IsMatch (IsRun p (λ k. k ≤ suc n)) (c ∷ s)) (at_most n p s) (([], c ∷ s) ∷ [])
          (shift-IsMatch (IsRun p (λ k. k ≤ n)) (IsRun p (λ k. k ≤ suc n)) c s (at_most n p s)
            (λ a t q. (q.0, (let h = q.1 in omega arith), (e, q.2))) (at_most-Parses n p s))
          (([], nothing-IsRun (suc n) p, refl), tt))
  | inr e ↦ rw (e, at_most) (([], nothing-IsRun (suc n) p, refl), tt)
]

pub many-Parses : (p : ℕ → Bool) → Parses (IsRun p (λ k. Unit {0})) (many p)
unfolding many
many-Parses p [] = (([], (refl, tt, tt), refl), tt)
many-Parses p (c ∷ s) = elim (Bool-cases (p c)) [
  | inl e ↦
      rw (e, many)
        (All-append (IsMatch (IsRun p (λ k. Unit {0})) (c ∷ s)) (many p s) (([], c ∷ s) ∷ [])
          (shift-IsMatch (IsRun p (λ k. Unit {0})) (IsRun p (λ k. Unit {0})) c s (many p s)
            (λ a t q. (q.0, tt, (e, q.2))) (many-Parses p s))
          (([], (refl, tt, tt), refl), tt))
  | inr e ↦ rw (e, many) (([], (refl, tt, tt), refl), tt)
]

pub maybe-Parses :
    (Q : List Text → Text → Type 0) (absent : List Text) (p : Pattern)
    → Q absent []
    → Parses Q p
    → Parses Q (maybe absent p)
maybe-Parses Q absent p none_ h s =
    All-append (IsMatch Q s) (p s) ((absent, s) ∷ []) (h s) (([], none_, refl), tt)

-- A pattern with so many groups.
abbrev pub HasGroups : ℕ → Pattern → Type 0
HasGroups n p = Parses (λ groups before. length groups ≡ n) p

pub IsRun-HasGroups :
    (p : Pattern) (q : ℕ → Bool) (N : ℕ → Type 0) → Parses (IsRun q N) p → HasGroups 0 p
IsRun-HasGroups p q N h s = counted s (p s) (h s)
  where
    counted :
        (s : Text) (found : List Match)
        → All (IsMatch (IsRun q N) s) found
        → All (IsMatch (λ groups before. length groups ≡ 0) s) found
    counted s [] h = tt
    counted s ((groups, rest) ∷ found) h =
        let (before, run, split) = h.0 in ((before, ap length run.0, split), counted s found h.1)

pub then_-HasGroups :
    (m n : ℕ) (p q : Pattern) → HasGroups m p → HasGroups n q → HasGroups (m + n) (then_ p q)
then_-HasGroups m n p q =
    then_-Parses (λ groups before. length groups ≡ m) (λ groups before. length groups ≡ n)
      (λ groups before. length groups ≡ m + n)
      (λ a b s t h k. (let e = length-append a b in omega arith)) p q

-- A run after a run.
pub append-IsRun :
    (p : ℕ → Bool) (M N L : ℕ → Type 0)
    → ((m n : ℕ) → M m → N n → L (m + n))
    → (a b : List Text) (s t : Text) → IsRun p M a s
    → IsRun p N b t
    → IsRun p L (a ++ b) (s ++ t)
append-IsRun p M N L sum a b s t h k = (
  rw h.0 k.0,
  subst L (sym (length-append s t)) (sum (length s) (length t) h.1 k.1),
  All-append (λ c. p c ≡ true) s t h.2 k.2,
)

pub exactly-Parses : (n : ℕ) (p : ℕ → Bool) → Parses (IsRun p (λ k. k ≡ n)) (exactly n p)
unfolding exactly
exactly-Parses zero p s = (([], (refl, refl, tt), refl), tt)
exactly-Parses (suc n) p s =
    then_-Parses (IsRun p (λ k. k ≡ 1)) (IsRun p (λ k. k ≡ n)) (IsRun p (λ k. k ≡ suc n))
      (append-IsRun p (λ k. k ≡ 1) (λ k. k ≡ n) (λ k. k ≡ suc n) (λ m k h e. omega arith)) (one p)
      (exactly n p) (one-Parses p) (exactly-Parses n p) s

-- One group, a run of a class.
abbrev pub IsCapture : (ℕ → Bool) → (ℕ → Type 0) → List Text → Text → Type 0
IsCapture p N groups before =
    (t : Text) × (groups ≡ t ∷ []) × N (length t) × All (λ c. p c ≡ true) t

pub group-IsCapture :
    (p : ℕ → Bool) (N : ℕ → Type 0) (q : Pattern)
    → Parses (IsRun p N) q
    → Parses (IsCapture p N) (group q)
group-IsCapture p N =
    group-Parses (IsRun p N) (IsCapture p N) (λ a s q. (s, ap (λ gs. s ∷ gs) q.0, q.1, q.2))

pub group-HasGroups : (n : ℕ) (p : Pattern) → HasGroups n p → HasGroups (suc n) (group p)
group-HasGroups n =
    group-Parses (λ groups before. length groups ≡ n) (λ groups before. length groups ≡ suc n)
      (λ a s q. ap suc q)

-- The groups of a match in a text.
abbrev pub IsFound : (List Text → Text → Type 0) → Found → Type 0
IsFound Q found = (before : Text) × Q found.groups before

abbrev pub IsOption : (Found → Type 0) → Option Found → Type 0
IsOption P none = Unit
IsOption P (some found) = P found

first_match-IsFound :
    (Q : List Text → Text → Type 0) (start : ℕ) (s : Text) (found : List Match)
    (later : Option Found)
    → All (IsMatch Q s) found
    → IsOption (IsFound Q) later
    → IsOption (IsFound Q) (first_match start s found later)
first_match-IsFound Q start s [] later h k = k
first_match-IsFound Q start s (m ∷ found) later h k = let (before, q, split) = h.0 in (before, q)

pub search_from-IsFound :
    (Q : List Text → Text → Type 0) (p : Pattern) (start : ℕ) (s : Text)
    → Parses Q p
    → IsOption (IsFound Q) (search_from p start s)
unfolding search_from
search_from-IsFound Q p start [] h = first_match-IsFound Q start [] (p []) none (h []) tt
search_from-IsFound Q p start (c ∷ s) h =
    first_match-IsFound Q start (c ∷ s) (p (c ∷ s)) _ (h (c ∷ s))
      (search_from-IsFound Q p (suc start) s h)

pub search-IsFound :
    (Q : List Text → Text → Type 0) (p : Pattern) (s : Text)
    → Parses Q p
    → IsOption (IsFound Q) (search p s)
unfolding search
search-IsFound Q p s h = search_from-IsFound Q p 0 s h

pub find_from-IsFound :
    (Q : List Text → Text → Type 0) (fuel : ℕ) (p : Pattern) (start : ℕ) (s : Text)
    → Parses Q p
    → All (IsFound Q) (find_from fuel p start s)
unfolding find_from
find_from-IsFound Q zero p start s h = tt
find_from-IsFound Q (suc fuel) p start s h =
    elim (search_from p start s)
        as (λ o.
          IsOption (IsFound Q) o
          → All (IsFound Q) (elim o [
            | none ↦ []
            | some found ↦ found ∷ find_from fuel p found.stop found.rest
          ])) [
            | none ↦ λ k. tt
            | some found ↦ λ k. (k, find_from-IsFound Q fuel p found.stop found.rest h)
          ]
      (search_from-IsFound Q p start s h)

pub find_all-IsFound :
    (Q : List Text → Text → Type 0) (p : Pattern) (s : Text)
    → Parses Q p
    → All (IsFound Q) (find_all p s)
unfolding find_all
find_all-IsFound Q p s h = find_from-IsFound Q (length s) p 0 s h
