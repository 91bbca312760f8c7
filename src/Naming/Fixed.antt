-- ===== src/Naming/Fixed.antt =====
-- The names that safe_name leaves as they are, and the date that a leaf shows.
use panamacompra_collector_b.Prelude.{
  ℕ, zero, suc, ◌≤◌, ◌≡◌, refl, ap, ◌∙◌, Bool, true, false, not, some, List, [], ◌∷◌, ◌++◌, reverse,
  arith, length, take-append, take, drop, All, Text, codes, is_space, strip_by, strip,
}
use mathlib.Core.Path.{subst}
use panamacompra_collector_b.Unicode.{Unicode}
use panamacompra_collector_b.Regex.{
  Match, Pattern, one, then_, exactly, captured, group, search_from, search, at_place, squeeze,
}
use panamacompra_collector_b.Naming.{
  text_or, clean, is_safe, is_kept, at_ends, safe_name, is_decimal, iso_date,
  date_folder_from_finish_stamp, folder_found,
}
use panamacompra_collector_b.Naming.Strip.{All-reverse_aux, Begins, strip_by_fixed}
use panamacompra_collector_b.Naming.Safe.{AreSafe}

squeeze_fixed :
    (p : ℕ → Bool) (by : ℕ) (s : Text) → All (λ c. p c ≡ false) s → squeeze p by false s ≡ s
unfolding squeeze
squeeze_fixed p by [] h = refl
squeeze_fixed p by (c ∷ s) h = rw (h.0, squeeze) (ap (λ t. c ∷ t) (squeeze_fixed p by s h.1))

All-imp : (P Q : ℕ → Type 0) (s : Text) → ((c : ℕ) → P c → Q c) → All P s → All Q s
All-imp P Q [] f h = tt
All-imp P Q (c ∷ s) f h = (f c h.0, All-imp P Q s f h.1)

no_space : (c : ℕ) → is_safe c ≡ true → is_space c ≡ false
unfolding is_safe is_space
no_space c h = ground arith

not_dropped : (c : ℕ) → is_safe c ≡ true → not (is_kept c) ≡ false
unfolding is_kept
not_dropped c h = rw h refl

AreSafe-Begins : (s : Text) → AreSafe s → Begins is_space s
AreSafe-Begins [] h = tt
AreSafe-Begins (c ∷ s) h = no_space c h.0

take_all : (n : ℕ) (s : Text) → length s ≤ n → take n s ≡ s
take_all zero [] h = refl
take_all zero (c ∷ s) h = absurd (omega arith)
take_all (suc n) [] h = refl
take_all (suc n) (c ∷ s) h = ap (λ t. c ∷ t) (take_all n s (omega arith))

clean_fixed : (s : Text) → AreSafe s → clean s ≡ s
unfolding clean strip
clean_fixed s h =
    ap (strip_by is_space) (
      squeeze_fixed is_space b' ' s
        (All-imp (λ c. is_safe c ≡ true) (λ c. is_space c ≡ false) s no_space h))
    ∙ strip_by_fixed is_space s (AreSafe-Begins s h)
        (AreSafe-Begins (reverse s) (All-reverse_aux (λ c. is_safe c ≡ true) s [] h tt))

-- A name of safe characters, short enough and with none of . _ - at its ends, stays as it is.
pub safe_name_fixed :
    (c : ℕ) (s : Text)
    → AreSafe (c ∷ s)
    → length (c ∷ s) ≤ 160
    → at_ends c ≡ false
    → Begins at_ends (reverse (c ∷ s))
    → safe_name (c ∷ s) ≡ c ∷ s
unfolding safe_name
safe_name_fixed c s safe short first last =
    let name = c ∷ s in
    let cleaned =
      ap (λ t. squeeze is_space b'_' false (squeeze (λ x. not (is_kept x)) b'_' false t))
        (clean_fixed (c ∷ s) safe)
      ∙ ap (squeeze is_space b'_' false) (
          squeeze_fixed (λ x. not (is_kept x)) b'_' (c ∷ s)
            (All-imp (λ x. is_safe x ≡ true) (λ x. not (is_kept x) ≡ false) (c ∷ s) not_dropped
              safe))
      ∙ squeeze_fixed is_space b'_' (c ∷ s)
          (All-imp (λ x. is_safe x ≡ true) (λ x. is_space x ≡ false) (c ∷ s) no_space safe) in
    ap (λ t. text_or (take 160 (strip_by at_ends t)) (codes "unknown")) cleaned
    ∙ ap (λ t. text_or (take 160 t) (codes "unknown")) (strip_by_fixed at_ends (c ∷ s) first last)
    ∙ ap (λ t. text_or t (codes "unknown")) (take_all 160 (c ∷ s) short)

-- Patterns with one match.
then_one :
    (p q : Pattern) (s rest end : Text) (a b : List Text)
    → p s ≡ (a, rest) ∷ []
    → q rest ≡ (b, end) ∷ []
    → then_ p q s ≡ (a ++ b, end) ∷ []
unfolding then_
then_one p q s rest end a b h k = rw (h, k) refl

exactly_one :
    (p : ℕ → Bool) (s rest : Text)
    → All (λ c. p c ≡ true) s
    → exactly (length s) p (s ++ rest) ≡ ([], rest) ∷ []
unfolding exactly
exactly_one p [] rest h = refl
exactly_one p (c ∷ s) rest h =
    then_one (one p) (exactly (length s) p) (c ∷ (s ++ rest)) (s ++ rest) rest [] [] (rw h.0 refl)
      (exactly_one p s rest h.1)

group_one :
    (p : Pattern) (s rest : Text)
    → p (s ++ rest) ≡ ([], rest) ∷ []
    → group p (s ++ rest) ≡ (s ∷ [], rest) ∷ []
unfolding group
group_one p s rest h = rw h (rw (take-append s rest) refl)

search_from_first :
    (p : Pattern) (start : ℕ) (s : Text) (m : Match)
    → p s ≡ m ∷ []
    → search_from p start s ≡ some (at_place start s m)
unfolding search_from
search_from_first p start [] m h = rw h refl
search_from_first p start (c ∷ s) m h = rw h refl

search_from_later :
    (p : Pattern) (start c : ℕ) (s : Text)
    → p (c ∷ s) ≡ []
    → search_from p start (c ∷ s) ≡ search_from p (suc start) s
unfolding search_from
search_from_later p start c s h = rw h refl

-- A leaf that shows a date after its first parenthesis.
module _ (u : Unicode) (opening : is_decimal u b'(' ≡ false) where
  iso_date_one :
      (year month day tail : Text)
      → length year ≡ 4
      → length month ≡ 2
      → length day ≡ 2
      → All (λ c. is_decimal u c ≡ true) year
      → All (λ c. is_decimal u c ≡ true) month
      → All (λ c. is_decimal u c ≡ true) day
      → iso_date u (year ++ b'-' ∷ (month ++ b'-' ∷ (day ++ tail)))
        ≡ (year ∷ month ∷ day ∷ [], tail) ∷ []
  unfolding iso_date
  iso_date_one year month day tail ly lm ld y m d =
      let two = λ (t rest : Text) (l : length t ≡ 2) (h : All (λ c. is_decimal u c ≡ true) t).
        group_one (exactly 2 (is_decimal u)) t rest (
          subst (λ n. exactly n (is_decimal u) (t ++ rest) ≡ ([], rest) ∷ []) l
            (exactly_one (is_decimal u) t rest h)) in
      let four =
        group_one (exactly 4 (is_decimal u)) year (b'-' ∷ (month ++ b'-' ∷ (day ++ tail))) (
          subst
            (λ n.
              exactly n (is_decimal u) (year ++ b'-' ∷ (month ++ b'-' ∷ (day ++ tail)))
              ≡ ([], b'-' ∷ (month ++ b'-' ∷ (day ++ tail))) ∷ [])
            ly (exactly_one (is_decimal u) year (b'-' ∷ (month ++ b'-' ∷ (day ++ tail))) y)) in
      then_one _ _ _ _ tail (year ∷ []) (month ∷ day ∷ []) four (
        then_one _ _ _ _ tail [] (month ∷ day ∷ []) refl (
          then_one _ _ _ _ tail (month ∷ []) (day ∷ []) (two month (b'-' ∷ (day ++ tail)) lm m)
            (then_one _ _ _ _ tail [] (day ∷ []) refl (two day tail ld d))))

  iso_date_opening : (s : Text) → iso_date u (b'(' ∷ s) ≡ []
  unfolding iso_date then_ group exactly
  iso_date_opening s = rw (opening, captured, exactly) refl

  -- The first date of a leaf that begins with a date names the folder of the day.
  pub date_folder_lem :
      (year month day tail : Text)
      → length year ≡ 4
      → length month ≡ 2
      → length day ≡ 2
      → All (λ c. is_decimal u c ≡ true) year
      → All (λ c. is_decimal u c ≡ true) month
      → All (λ c. is_decimal u c ≡ true) day
      → date_folder_from_finish_stamp u (b'(' ∷ (year ++ b'-' ∷ (month ++ b'-' ∷ (day ++ tail))))
        ≡ drop 2 year ++ codes "-" ++ month ++ codes "-" ++ day
  unfolding date_folder_from_finish_stamp search
  date_folder_lem year month day tail ly lm ld y m d = ap folder_found (
      search_from_later (iso_date u) 0 b'(' _ (iso_date_opening _)
      ∙ search_from_first (iso_date u) 1 _ _ (iso_date_one year month day tail ly lm ld y m d))
