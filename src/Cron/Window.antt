-- ===== src/Cron/Window.antt =====
-- When an expression fires: an independent reading of the fields that the tool builds.
use panamacompra_collector_b.Prelude.{
  str, ℕ, ◌-◌, ◌/◌, ◌%◌, ◌≤◌, ◌≡◌, refl, sym, inl, inr, Bool, true, false, ◌&&◌, Option, none, some,
  ◌++◌, arith, ltb, leb, eqb, if◌then◌else◌, eqb_iff, Bool-cases, some_inj, Text, codes,
}
use mathlib.Core.Path.{subst}
use panamacompra_collector_b.Unicode.{Unicode}
use panamacompra_collector_b.Cron.{
  day_field, parse_hm, not_after, minute_step, hour_range, expression_of, expression_in,
  expression_for, expression_with, build_expression,
}

-- The minute field and the hour field of cron, as far as the tool writes them.
pub data Minutes : Type 0 where
  every : ℕ → Minutes
  at_minute : ℕ → Minutes

pub data Hours : Type 0 where
  at_hour : ℕ → Hours
  between : ℕ → ℕ → Hours
  stepped : ℕ → ℕ → ℕ → Hours

abbrev pub minute_text : Minutes → Text
minute_text (every n) = codes "*/" ++ str n
minute_text (at_minute m) = str m

abbrev pub hour_text : Hours → Text
hour_text (at_hour h) = str h
hour_text (between a b) = str a ++ codes "-" ++ str b
hour_text (stepped a b s) = str a ++ codes "-" ++ str b ++ codes "/" ++ str s

-- How cron reads the fields.
abbrev pub in_minutes : Minutes → ℕ → Bool
in_minutes (every n) m = eqb (m % n) 0
in_minutes (at_minute a) m = eqb a m

abbrev pub in_hours : Hours → ℕ → Bool
in_hours (at_hour a) h = eqb a h
in_hours (between a b) h = leb a h && leb h b
in_hours (stepped a b s) h = leb a h && leb h b && eqb ((h - a) % s) 0

abbrev pub fires : Minutes → Hours → ℕ → ℕ → Bool
fires mins hours h m = in_hours hours h && in_minutes mins m

-- When a run is due, from the numbers alone: in the hours from the hour of the start to the hour of
-- the end; below an hour at the minutes that the interval divides, else at the minute of the start
-- in every so manyth hour after the first.
abbrev pub due : ℕ × ℕ → ℕ × ℕ → ℕ → ℕ → ℕ → Bool
due (start_h, start_m) (end_h, end_m) interval h m =
    leb start_h h
    && leb h end_h
    && (if ltb interval 60
        then eqb (m % interval) 0
        else eqb start_m m && eqb ((h - start_h) % (interval / 60)) 0)

-- The text is an expression with that day field which fires exactly when a run is due, and does
-- fire in the hour of the start.
abbrev pub InWindow : Text → ℕ × ℕ → ℕ × ℕ → ℕ → Text → Type 0
InWindow dow (start_h, start_m) (end_h, end_m) interval text =
    (mins : Minutes) × (hours : Hours) × (text
      ≡ expression_of (minute_text mins) (hour_text hours) dow)
    × ((h m : ℕ) → fires mins hours h m ≡ due (start_h, start_m) (end_h, end_m) interval h m)
    × (m : ℕ) × (fires mins hours start_h m ≡ true)

zero_mod : (n : ℕ) → eqb (0 % n) 0 ≡ true
zero_mod n = ground arith

same_mod : (a n : ℕ) → eqb ((a - a) % n) 0 ≡ true
same_mod a n = ground arith

one_hour : (a c h : ℕ) → a ≡ c → eqb a h ≡ (leb a h && leb h c)
one_hour a c h same = ground arith

one_hour_at :
    (a c h b m n : ℕ)
    → a ≡ c
    → (eqb a h && eqb b m) ≡ (leb a h && leb h c && (eqb b m && eqb ((h - a) % n) 0))
one_hour_at a c h b m n same = elim (Bool-cases (eqb a h)) [
  | inl e ↦ rw (sym ((eqb_iff a h).0 e), sym same, same_mod a n) (ground arith)
  | inr e ↦ ground arith
]

module _ (dow : Text) (start_h start_m end_h end_m interval : ℕ) (ends : start_h ≤ end_h) where
  abbrev Fits : Text → Type 0
  Fits text = InWindow dow (start_h, start_m) (end_h, end_m) interval text

  minutes-one_hour :
      ltb interval 60 ≡ true
      → start_h ≡ end_h
      → Fits (expression_of (minute_step interval) (str start_h) dow)
  minutes-one_hour small same = (
    every interval,
    at_hour start_h,
    refl,
    (λ h m. (rw small (ground arith))),
    0,
    rw (zero_mod interval) (ground arith),
  )

  minutes-hours :
      ltb interval 60 ≡ true
      → Fits (expression_of (minute_step interval) (hour_range start_h end_h) dow)
  minutes-hours small = (
    every interval,
    between start_h end_h,
    refl,
    (λ h m. (rw small (ground arith))),
    0,
    rw (zero_mod interval) (ground arith),
  )

  hours-stepped :
      ltb interval 60 ≡ false
      → Fits (
          expression_of
            (str start_m)
            (hour_range start_h end_h ++ codes "/" ++ str (interval / 60))
            dow)
  hours-stepped big = (
    at_minute start_m,
    stepped start_h end_h (interval / 60),
    refl,
    (λ h m. (rw big (ground arith))),
    start_m,
    rw (same_mod start_h (interval / 60)) (ground arith),
  )

  hours-one :
      ltb interval 60 ≡ false
      → start_h ≡ end_h
      → Fits (expression_of (str start_m) (str start_h) dow)
  hours-one big same = (
    at_minute start_m,
    at_hour start_h,
    refl,
    (λ h m. (rw big (one_hour_at start_h end_h h start_m m (interval / 60) same))),
    start_m,
    (ground arith),
  )

ordered :
    (end_h end_m start_h start_m : ℕ)
    → not_after (end_h, end_m) (start_h, start_m) ≡ false
    → start_h ≤ end_h
unfolding not_after
ordered end_h end_m start_h start_m e = ground arith

expression_in-InWindow :
    (dow : Text) (start_h start_m end_h end_m interval : ℕ) (text : Text)
    → start_h ≤ end_h
    → expression_in dow (start_h, start_m) (end_h, end_m) interval ≡ some text
    → InWindow dow (start_h, start_m) (end_h, end_m) interval text
unfolding expression_in
expression_in-InWindow dow a b c d interval text ends e =
    let Fits : Text → Type 0 = InWindow dow (a, b) (c, d) interval in
    elim (Bool-cases (ltb interval 60)) [
      | inl small ↦ elim (Bool-cases (eqb a c)) [
        | inl same ↦
            subst Fits (some_inj (rw (small, same) at e))
              (minutes-one_hour dow a b c d interval ends small ((eqb_iff a c).0 same))
        | inr other ↦
            subst Fits (some_inj (rw (small, other) at e))
              (minutes-hours dow a b c d interval ends small)
      ]
      | inr big ↦ elim (Bool-cases (eqb (interval % 60) 0)) [
        | inr odd ↦ absurd (cc (rw (big, odd) at e))
        | inl whole ↦ elim (Bool-cases (ltb a c)) [
          | inl before ↦
              subst Fits (some_inj (rw (big, whole, before) at e))
                (hours-stepped dow a b c d interval ends big)
          | inr same ↦
              subst Fits (some_inj (rw (big, whole, same) at e))
                (hours-one dow a b c d interval ends big (ground arith))
        ]
      ]
    ]

expression_for-InWindow :
    (dow : Text) (start end : ℕ × ℕ) (interval : ℕ) (text : Text)
    → expression_for dow start end interval ≡ some text
    → InWindow dow start end interval text
unfolding expression_for
expression_for-InWindow dow (a, b) (c, d) interval text e =
    elim (Bool-cases (not_after (c, d) (a, b))) [
      | inl early ↦ absurd (cc (rw early at e))
      | inr late ↦ elim (Bool-cases (ltb interval 1)) [
        | inl none_at_all ↦ absurd (cc (rw (late, none_at_all) at e))
        | inr positive ↦
            expression_in-InWindow dow a b c d interval text (ordered c d a b late)
              (rw (late, positive) at e)
      ]
    ]

expression_with-InWindow :
    (days : Option Text) (start end : Option (ℕ × ℕ)) (interval : ℕ) (text : Text)
    → expression_with days start end interval ≡ some text
    → (dow : Text) × (from : ℕ × ℕ) × (until : ℕ × ℕ) × (days ≡ some dow)
      × (start ≡ some from)
      × (end ≡ some until)
      × InWindow dow from until interval text
expression_with-InWindow (some dow) (some from) (some until) interval text e =
    (dow, from, until, refl, refl, refl, expression_for-InWindow dow from until interval text e)
expression_with-InWindow (some dow) (some from) none interval text e = absurd (cc e)
expression_with-InWindow (some dow) none end interval text e = absurd (cc e)
expression_with-InWindow none start end interval text e = absurd (cc e)

-- An expression that is built has the day field of its days and fires exactly in the hours from the
-- hour of the start to the hour of the end, and there, for an interval below an hour, at every
-- minute that the interval divides, else at the minute of the start in the hours that lie a whole
-- number of intervals after the first. It does fire in the hour of the start. The minute of the
-- end plays no part, and below an hour that of the start neither.
pub build_expression-InWindow :
    (u : Unicode) (days custom_days start end : Text) (interval : ℕ) (text : Text)
    → build_expression u days custom_days start end interval ≡ some text
    → (dow : Text) × (from : ℕ × ℕ) × (until : ℕ × ℕ) × (day_field u days custom_days ≡ some dow)
      × (parse_hm u start ≡ some from)
      × (parse_hm u end ≡ some until)
      × InWindow dow from until interval text
unfolding build_expression
build_expression-InWindow u days custom_days start end interval text e =
    expression_with-InWindow _ _ _ interval text e
