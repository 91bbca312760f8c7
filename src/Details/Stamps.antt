-- ===== src/Details/Stamps.antt =====
-- A finish stamp written out, and the day folder of a leaf that begins with it.
use panamacompra_collector_b.Prelude.{
  str, ℕ, zero, suc, ◌+◌, ◌/◌, ◌%◌, ◌≤◌, ◌≡◌, refl, ap, ◌∙◌, inl, inr, true, false, [], ◌∷◌, map,
  arith, ltb, Bool-cases, Text, codes,
}
use panamacompra_collector_b.Prelude.{digits_before}
use panamacompra_collector_b.Unicode.{Unicode}
use panamacompra_collector_b.Naming.{
  is_figure, is_safe, at_ends, safe_name, colon_to_hyphen, text_or, leaf_of,
  build_record_folder_leaf, is_decimal, two_digits, date_folder_from_finish_stamp,
}
use panamacompra_collector_b.Naming.Fixed.{safe_name_fixed, date_folder_lem}
use panamacompra_collector_b.Details.Instants.{HasDigits}

-- What the tables say of ASCII: the figures are decimal digits, and the parenthesis is none.
abbrev pub HasFigures : Unicode → Type 0
HasFigures u =
    HasDigits u
    × ((c : ℕ) → is_figure c ≡ true → is_decimal u c ≡ true)
    × (is_decimal u b'(' ≡ false)

one_figure : (n : ℕ) → ltb n 10 ≡ true → str n ≡ (48 + n) ∷ []
unfolding str digits_before
one_figure zero h = refl
one_figure (suc n) h = rw (h, digits_before) refl

two_figures : (n : ℕ) → ltb n 10 ≡ false → n ≤ 99 → str n ≡ (48 + n / 10) ∷ (48 + n % 10) ∷ []
unfolding str digits_before
two_figures zero e h = absurd (cc e)
two_figures (suc zero) e h = absurd (cc e)
two_figures (suc (suc k)) e h =
    let tens : ltb (suc (suc k) / 10) 10 ≡ true = ground arith in
    rw (e, digits_before) (rw (tens, digits_before) refl)

figures_of_small : (n : ℕ) → ltb n 10 ≡ true → (n / 10 ≡ 0) × (n % 10 ≡ n)
figures_of_small n h = (ground arith, ground arith)

pub two_digits_lem : (n : ℕ) → n ≤ 99 → two_digits n ≡ (48 + n / 10) ∷ (48 + n % 10) ∷ []
two_digits_lem n h = elim (Bool-cases (ltb n 10)) [
  | inl e ↦ let (tens, ones) = figures_of_small n e in rw (one_figure n e, tens, ones) refl
  | inr e ↦ rw (two_figures n e h) refl
]

pub figure_lem :
    (n : ℕ) → n ≤ 99 → (is_figure (48 + n / 10) ≡ true) × (is_figure (48 + n % 10) ≡ true)
figure_lem n h = (ground arith, ground arith)

figure_safe : (c : ℕ) → is_figure c ≡ true → is_safe c ≡ true
unfolding is_safe
figure_safe c h = ground arith

figure_inside : (c : ℕ) → is_figure c ≡ true → at_ends c ≡ false
unfolding at_ends
figure_inside c h = ground arith

figure_colon : (c : ℕ) → is_figure c ≡ true → colon_to_hyphen c ≡ c
figure_colon c h = ground arith

abbrev stamp : ℕ → ℕ → ℕ → ℕ → ℕ → ℕ → ℕ → ℕ → ℕ → ℕ → ℕ → ℕ → ℕ → Text
stamp a b c d m1 m2 d1 d2 h1 h2 mark n1 n2 =
    a ∷ b ∷ c ∷ d ∷ b'-' ∷ m1 ∷ m2 ∷ b'-' ∷ d1 ∷ d2 ∷ b'_' ∷ h1 ∷ h2 ∷ mark ∷ n1 ∷ n2 ∷ []

module _ (a b c d m1 m2 d1 d2 h1 h2 n1 n2 : ℕ) (ha : is_figure a ≡ true) (hb : is_figure b ≡ true)
    (hc : is_figure c ≡ true) (hd : is_figure d ≡ true) (hm1 : is_figure m1 ≡ true)
    (hm2 : is_figure m2 ≡ true) (hd1 : is_figure d1 ≡ true) (hd2 : is_figure d2 ≡ true)
    (hh1 : is_figure h1 ≡ true) (hh2 : is_figure h2 ≡ true) (hn1 : is_figure n1 ≡ true)
    (hn2 : is_figure n2 ≡ true) where
  stamp_colon :
      map colon_to_hyphen (stamp a b c d m1 m2 d1 d2 h1 h2 b':' n1 n2)
      ≡ stamp a b c d m1 m2 d1 d2 h1 h2 b'-' n1 n2
  stamp_colon =
      rw
        (
          figure_colon a ha,
          figure_colon b hb,
          figure_colon c hc,
          figure_colon d hd,
          figure_colon m1 hm1,
          figure_colon m2 hm2,
          figure_colon d1 hd1,
          figure_colon d2 hd2,
          figure_colon h1 hh1,
          figure_colon h2 hh2,
          figure_colon n1 hn1,
          figure_colon n2 hn2,
        )
        refl

  stamp_safe :
      safe_name (stamp a b c d m1 m2 d1 d2 h1 h2 b'-' n1 n2)
      ≡ stamp a b c d m1 m2 d1 d2 h1 h2 b'-' n1 n2
  unfolding is_safe at_ends
  stamp_safe =
      safe_name_fixed a _
        (
          figure_safe a ha,
          (
            figure_safe b hb,
            (
              figure_safe c hc,
              (
                figure_safe d hd,
                (
                  refl,
                  (
                    figure_safe m1 hm1,
                    (
                      figure_safe m2 hm2,
                      (
                        refl,
                        (
                          figure_safe d1 hd1,
                          (
                            figure_safe d2 hd2,
                            (
                              refl,
                              (
                                figure_safe h1 hh1,
                                (
                                  figure_safe h2 hh2,
                                  (refl, (figure_safe n1 hn1, (figure_safe n2 hn2, tt))),
                                ),
                              ),
                            ),
                          ),
                        ),
                      ),
                    ),
                  ),
                ),
              ),
            ),
          ),
        )
        (omega arith) (figure_inside a ha) (figure_inside n2 hn2)

  module _ (u : Unicode) (figures : HasFigures u) (numero desc : Text) where
    pub day_of_stamp :
        date_folder_from_finish_stamp u
          (build_record_folder_leaf (stamp a b c d m1 m2 d1 d2 h1 h2 b':' n1 n2) numero desc)
        ≡ c ∷ d ∷ b'-' ∷ m1 ∷ m2 ∷ b'-' ∷ d1 ∷ d2 ∷ []
    unfolding build_record_folder_leaf codes
    day_of_stamp =
        let (digits, decimals, opening) = figures in
        ap
          (λ t. date_folder_from_finish_stamp u (
            leaf_of t (safe_name (text_or numero (codes "NO-NUMERO")))
              (safe_name (text_or desc (codes "NO-DESC")))))
          (ap safe_name stamp_colon ∙ stamp_safe)
        ∙ date_folder_lem u opening (a ∷ b ∷ c ∷ d ∷ []) (m1 ∷ m2 ∷ []) (d1 ∷ d2 ∷ []) _ refl refl
            refl (decimals a ha, (decimals b hb, (decimals c hc, (decimals d hd, tt))))
            (decimals m1 hm1, (decimals m2 hm2, tt)) (decimals d1 hd1, (decimals d2 hd2, tt))
