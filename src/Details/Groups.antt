-- ===== src/Details/Groups.antt =====
-- The groups of the matches of a date and of a clock time.
use panamacompra_collector_b.Prelude.{
  ℕ, ◌≤◌, ◌≡◌, refl, sym, Bool, true, List, [], ◌∷◌, ◌++◌, arith, eqb, length, All, Text, is_space,
}
use mathlib.Core.Path.{subst}
use panamacompra_collector_b.Unicode.{Unicode}
use panamacompra_collector_b.Naming.{is_decimal}
use panamacompra_collector_b.Regex.{Pattern, one, then_, at_most, many, group, exactly}
use panamacompra_collector_b.Regex.Parses.{
  Parses, IsRun, IsCapture, HasGroups, one-Parses, then_-Parses, at_most-Parses, exactly-Parses,
  many-Parses, maybe-Parses, append-IsRun, IsRun-HasGroups, then_-HasGroups, group-IsCapture,
  group-HasGroups,
}
use panamacompra_collector_b.Details.Window.{
  one_or_two_digits, is_date_mark, day_month_year, half_day, clock_time, dot,
}

abbrev pub IsDateGroups : Unicode → List Text → Text → Type 0
IsDateGroups u groups before =
    (day : Text) × (month : Text) × (year : Text) × (groups ≡ day ∷ month ∷ year ∷ [])
    × (length day ≤ 2)
    × (length month ≤ 2)
    × (length year ≡ 4)
    × All (λ c. is_decimal u c ≡ true) year

abbrev IsMonthGroups : Unicode → List Text → Text → Type 0
IsMonthGroups u groups before =
    (month : Text) × (year : Text) × (groups ≡ month ∷ year ∷ [])
    × (length month ≤ 2)
    × (length year ≡ 4)
    × All (λ c. is_decimal u c ≡ true) year

abbrev IsYearGroups : Unicode → List Text → Text → Type 0
IsYearGroups u groups before =
    (year : Text) × (groups ≡ year ∷ []) × (length year ≡ 4) × All (λ c. is_decimal u c ≡ true) year

-- A mark before a pattern leaves its groups alone.
skip-Parses :
    (Q : List Text → Type 0) (p : ℕ → Bool) (q : Pattern)
    → Parses (λ groups before. Q groups) q
    → Parses (λ groups before. Q groups) (then_ (one p) q)
skip-Parses Q p q =
    then_-Parses (IsRun p (λ n. n ≡ 1)) (λ groups before. Q groups) (λ groups before. Q groups)
      (λ a b s t h k. subst (λ gs. Q (gs ++ b)) (sym h.0) k) (one p) q (one-Parses p)

one-HasGroups : (p : ℕ → Bool) → HasGroups 0 (one p)
one-HasGroups p = IsRun-HasGroups (one p) p (λ n. n ≡ 1) (one-Parses p)

dot-HasGroups : HasGroups 0 dot
dot-HasGroups =
    IsRun-HasGroups dot (λ c. eqb c b'.') (λ n. n ≤ 1) (at_most-Parses 1 (λ c. eqb c b'.'))

spaces-HasGroups : HasGroups 0 (many is_space)
spaces-HasGroups = IsRun-HasGroups (many is_space) is_space (λ n. Unit {0}) (many-Parses is_space)

half_day-HasGroups : HasGroups 0 half_day
unfolding half_day
half_day-HasGroups = then_-HasGroups 0 0 _ _ (one-HasGroups _) (
    then_-HasGroups 0 0 _ _ dot-HasGroups (
      then_-HasGroups 0 0 _ _ spaces-HasGroups
        (then_-HasGroups 0 0 _ _ (one-HasGroups _) dot-HasGroups)))

module _ (u : Unicode) where
  one_or_two_digits-Parses : Parses (IsRun (is_decimal u) (λ n. n ≤ 2)) (one_or_two_digits u)
  unfolding one_or_two_digits
  one_or_two_digits-Parses =
      then_-Parses (IsRun (is_decimal u) (λ n. n ≡ 1)) (IsRun (is_decimal u) (λ n. n ≤ 1))
        (IsRun (is_decimal u) (λ n. n ≤ 2))
        (append-IsRun (is_decimal u) (λ n. n ≡ 1) (λ n. n ≤ 1) (λ n. n ≤ 2)
          (λ m n h k. omega arith))
        (one (is_decimal u)) (at_most 1 (is_decimal u)) (one-Parses (is_decimal u))
        (at_most-Parses 1 (is_decimal u))

  abbrev IsShort : List Text → Text → Type 0
  IsShort = IsCapture (is_decimal u) (λ n. n ≤ 2)

  IsShort-Parses : Parses IsShort (group (one_or_two_digits u))
  IsShort-Parses =
      group-IsCapture (is_decimal u) (λ n. n ≤ 2) (one_or_two_digits u) one_or_two_digits-Parses

  year-Parses : Parses (IsYearGroups u) (group (exactly 4 (is_decimal u)))
  year-Parses =
      group-IsCapture (is_decimal u) (λ n. n ≡ 4) (exactly 4 (is_decimal u))
        (exactly-Parses 4 (is_decimal u))

  pub day_month_year-Parses : Parses (IsDateGroups u) (day_month_year u)
  unfolding day_month_year
  day_month_year-Parses =
      then_-Parses IsShort (IsMonthGroups u) (IsDateGroups u)
        (λ a b s t h k. (h.0, k.0, k.1, rw (h.1, k.2) refl, h.2, k.3, k.4, k.5)) _ _ IsShort-Parses
        (skip-Parses (λ groups. IsMonthGroups u groups []) is_date_mark _
          (then_-Parses IsShort (IsYearGroups u) (IsMonthGroups u)
            (λ a b s t h k. (h.0, k.0, rw (h.1, k.1) refl, h.2, k.2, k.3)) _ _ IsShort-Parses
            (skip-Parses (λ groups. IsYearGroups u groups []) is_date_mark _ year-Parses)))

  one_or_two_digits-HasGroups : HasGroups 0 (one_or_two_digits u)
  one_or_two_digits-HasGroups =
      IsRun-HasGroups (one_or_two_digits u) (is_decimal u) (λ n. n ≤ 2) one_or_two_digits-Parses

  pub clock_time-HasGroups : HasGroups 3 (clock_time u)
  unfolding clock_time
  clock_time-HasGroups = then_-HasGroups 1 2 _ _ (group-HasGroups 0 _ one_or_two_digits-HasGroups) (
      then_-HasGroups 0 2 _ _ (one-HasGroups _) (
        then_-HasGroups 1 1 _ _
          (group-HasGroups 0 _
            (IsRun-HasGroups _ (is_decimal u) (λ n. n ≡ 2) (exactly-Parses 2 (is_decimal u))))
          (then_-HasGroups 0 1 _ _ (spaces-HasGroups) (
            maybe-Parses (λ groups before. length groups ≡ 1) ([] ∷ []) (group half_day) refl
              (group-HasGroups 0 half_day half_day-HasGroups)))))
