-- ===== src/Details/Fuel.antt =====
-- The searches for dates and for times come to an end: the fuel that they are given is enough.
use panamacompra_collector_b.Prelude.{ℕ, ◌≤◌, ◌≡◌, ap, [], ◌∷◌, map, arith, length, Text, is_space}
use panamacompra_collector_b.Unicode.{Unicode}
use panamacompra_collector_b.Naming.{is_decimal}
use panamacompra_collector_b.Regex.{maybe, group, find_from, find_all}
use panamacompra_collector_b.Regex.Parses.{maybe-Parses}
use panamacompra_collector_b.Regex.Fuel.{
  TakesAtLeast, then_-TakesAtLeast, group-TakesAtLeast, one-TakesAtLeast, at_most-TakesAtLeast,
  exactly-TakesAtLeast, many-TakesAtLeast, TakesAtLeast-fewer, find_from_enough,
}
use panamacompra_collector_b.Details.Window.{
  one_or_two_digits, is_date_mark, day_month_year, iso_of_groups, parse_ddmmyyyy_matches, dot,
  half_day, clock_time, clock_of_groups, parse_times_24h,
}

dot-TakesAtLeast : TakesAtLeast 0 dot
dot-TakesAtLeast = at_most-TakesAtLeast 1 _

half_day-TakesAtLeast : TakesAtLeast 0 (maybe ([] ∷ []) (group half_day))
unfolding half_day
half_day-TakesAtLeast =
    maybe-Parses (λ groups before. 0 ≤ length before) ([] ∷ []) (group half_day) (omega arith)
      (group-TakesAtLeast 0 half_day (
        TakesAtLeast-fewer 2 0 half_day (omega arith) (
          then_-TakesAtLeast 1 1 _ _ (one-TakesAtLeast _) (
            then_-TakesAtLeast 0 1 _ _ dot-TakesAtLeast (
              then_-TakesAtLeast 0 1 _ _ (many-TakesAtLeast is_space)
                (then_-TakesAtLeast 1 0 _ _ (one-TakesAtLeast _) dot-TakesAtLeast))))))

module _ (u : Unicode) where
  one_or_two_digits-TakesAtLeast : TakesAtLeast 1 (one_or_two_digits u)
  unfolding one_or_two_digits
  one_or_two_digits-TakesAtLeast =
      then_-TakesAtLeast 1 0 _ _ (one-TakesAtLeast (is_decimal u))
        (at_most-TakesAtLeast 1 (is_decimal u))

  day_month_year-TakesAtLeast : TakesAtLeast 4 (day_month_year u)
  unfolding day_month_year
  day_month_year-TakesAtLeast =
      then_-TakesAtLeast 1 3 _ _ (group-TakesAtLeast 1 _ one_or_two_digits-TakesAtLeast) (
        then_-TakesAtLeast 1 2 _ _ (one-TakesAtLeast is_date_mark) (
          then_-TakesAtLeast 1 1 _ _ (group-TakesAtLeast 1 _ one_or_two_digits-TakesAtLeast) (
            then_-TakesAtLeast 1 0 _ _ (one-TakesAtLeast is_date_mark)
              (group-TakesAtLeast 0 _ (exactly-TakesAtLeast 4 (is_decimal u))))))

  clock_time-TakesAtLeast : TakesAtLeast 2 (clock_time u)
  unfolding clock_time
  clock_time-TakesAtLeast =
      then_-TakesAtLeast 1 1 _ _ (group-TakesAtLeast 1 _ one_or_two_digits-TakesAtLeast) (
        then_-TakesAtLeast 1 0 _ _ (one-TakesAtLeast _) (
          then_-TakesAtLeast 0 0 _ _
            (group-TakesAtLeast 0 _ (exactly-TakesAtLeast 2 (is_decimal u)))
            (then_-TakesAtLeast 0 0 _ _ (many-TakesAtLeast is_space) half_day-TakesAtLeast)))

-- The searches for the dates and for the clock times of a text end: with any fuel of at least the
-- text's length, they give the dates and the times that the parsers return.
find_from-dates_and_times :
    (u : Unicode) (fuel : ℕ) (text : Text)
    → length text ≤ fuel
    → (map
          (λ found. (found, iso_of_groups u found.groups))
          (find_from fuel (day_month_year u) 0 text)
        ≡ parse_ddmmyyyy_matches u text)
      × (map (λ found. clock_of_groups u found.groups) (find_from fuel (clock_time u) 0 text)
          ≡ parse_times_24h u text)
unfolding parse_ddmmyyyy_matches parse_times_24h find_all
find_from-dates_and_times u fuel text enough = (
  ap (map (λ found. (found, iso_of_groups u found.groups))) (
      find_from_enough fuel (length text) _ 0 text
        (TakesAtLeast-fewer 4 1 _ (omega arith) (day_month_year-TakesAtLeast u)) enough
        (omega arith)),
  ap (map (λ found. clock_of_groups u found.groups)) (
      find_from_enough fuel (length text) _ 0 text
        (TakesAtLeast-fewer 2 1 _ (omega arith) (clock_time-TakesAtLeast u)) enough (omega arith)),
)
