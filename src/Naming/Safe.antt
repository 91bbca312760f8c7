-- ===== src/Naming/Safe.antt =====
-- A name is safe in a path: its characters, its length, and how it begins.
use panamacompra_collector_b.Prelude.{
  ℕ, zero, suc, ◌+◌, ◌≤◌, ◌≡◌, refl, inl, inr, Bool, true, false, not, [], ◌∷◌, ◌++◌, arith, eqb,
  Bool-cases, length, length-take_le, length-append, All-append, take, All, Text, codes, is_space,
  strip_by,
}
use panamacompra_collector_b.Regex.{squeeze}
use panamacompra_collector_b.Naming.{
  text_or, clean, is_safe, is_kept, at_ends, safe_name, leaf_of, build_record_folder_leaf,
}
use panamacompra_collector_b.Naming.Strip.{All-strip_by, Begins, strip_by-Begins}

abbrev pub AreSafe : Text → Type 0
AreSafe s = All (λ c. is_safe c ≡ true) s

-- A component of a path: it is not empty, it has at most so many characters, all of them letters,
-- figures or one of . _ ( ) -, and it does not begin with a dot.
abbrev pub IsComponent : ℕ → Text → Type 0
IsComponent limit [] = true ≡ false
IsComponent limit (c ∷ s) = (length (c ∷ s) ≤ limit) × AreSafe (c ∷ s) × (eqb c b'.' ≡ false)

squeeze-All :
    (Q R : ℕ → Type 0) (p : ℕ → Bool) (by : ℕ) (in_run : Bool) (s : Text)
    → ((c : ℕ) → p c ≡ false → Q c → R c)
    → R by
    → All Q s
    → All R (squeeze p by in_run s)
unfolding squeeze
squeeze-All Q R p by in_run [] keeps new h = tt
squeeze-All Q R p by in_run (c ∷ s) keeps new h = elim (Bool-cases (p c)) [
  | inl e ↦ elim (Bool-cases in_run) [
    | inl going ↦ rw (e, going, squeeze) (squeeze-All Q R p by true s keeps new h.1)
    | inr begins ↦ rw (e, begins, squeeze) (new, squeeze-All Q R p by true s keeps new h.1)
  ]
  | inr e ↦ rw (e, squeeze) (keeps c e h.0, squeeze-All Q R p by false s keeps new h.1)
]

Any-All : (s : Text) → All (λ c. Unit {0}) s
Any-All [] = tt
Any-All (c ∷ s) = (tt, Any-All s)

unknown-IsComponent : IsComponent 160 (codes "unknown")
unfolding codes is_safe
unknown-IsComponent =
    (omega arith, (refl, (refl, (refl, (refl, (refl, (refl, (refl, tt))))))), refl)

kept_safe : (c : ℕ) → is_space c ≡ false → is_kept c ≡ true → is_safe c ≡ true
unfolding is_kept is_space
kept_safe c e h = ground arith

opposite : (b : Bool) → not b ≡ false → b ≡ true
opposite false h = absurd (cc h)
opposite true h = refl

squeezed-AreSafe :
    (text : Text)
    → AreSafe (squeeze is_space b'_' false (squeeze (λ c. not (is_kept c)) b'_' false text))
unfolding is_safe is_kept
squeezed-AreSafe text =
    squeeze-All (λ c. is_kept c ≡ true) (λ c. is_safe c ≡ true) is_space b'_' false _ kept_safe refl
      (squeeze-All (λ c. Unit {0}) (λ c. is_kept c ≡ true) (λ c. not (is_kept c)) b'_' false text
        (λ c e h. opposite (is_kept c) e) refl (Any-All text))

All-take : (P : ℕ → Type 0) (n : ℕ) (s : Text) → All P s → All P (take n s)
All-take P zero s h = tt
All-take P (suc n) [] h = tt
All-take P (suc n) (c ∷ s) h = (h.0, All-take P n s h.1)

no_dot : (c : ℕ) → at_ends c ≡ false → eqb c b'.' ≡ false
unfolding at_ends
no_dot c h = ground arith

take-IsComponent :
    (limit : ℕ) (s : Text)
    → IsComponent (suc limit) (codes "unknown")
    → AreSafe s
    → Begins at_ends s
    → IsComponent (suc limit) (text_or (take (suc limit) s) (codes "unknown"))
take-IsComponent limit [] unknown safe begins = unknown
take-IsComponent limit (c ∷ s) unknown safe begins = (
  length-take_le (suc limit) (c ∷ s),
  (safe.0, All-take (λ x. is_safe x ≡ true) limit s safe.1),
  no_dot c begins,
)

pub safe_name-IsComponent : (text : Text) → IsComponent 160 (safe_name text)
unfolding safe_name
safe_name-IsComponent text =
    let name =
      squeeze is_space b'_' false (squeeze (λ c. not (is_kept c)) b'_' false (clean text)) in
    take-IsComponent 159 (strip_by at_ends name) unknown-IsComponent
      (All-strip_by (λ c. is_safe c ≡ true) at_ends name (squeezed-AreSafe (clean text)))
      (strip_by-Begins at_ends name)

abbrev IsPart : ℕ → Text → Type 0
IsPart n s = (length s ≤ n) × AreSafe s

IsComponent-IsPart : (n : ℕ) (s : Text) → IsComponent n s → IsPart n s
IsComponent-IsPart n [] h = absurd (cc h)
IsComponent-IsPart n (c ∷ s) h = (h.0, h.1)

append-IsPart : (m n : ℕ) (s t : Text) → IsPart m s → IsPart n t → IsPart (m + n) (s ++ t)
append-IsPart m n s t h k = (
  rw (length-append s t) (let a = h.0 in let b = k.0 in omega arith),
  All-append (λ c. is_safe c ≡ true) s t h.1 k.1,
)

closing-IsPart : IsPart 1 (codes ")")
unfolding codes is_safe
closing-IsPart = (omega arith, (refl, tt))

opening-IsPart : IsPart 1 (codes "(")
unfolding codes is_safe
opening-IsPart = (omega arith, (refl, tt))

between-IsPart : IsPart 3 (codes ")-(")
unfolding codes is_safe
between-IsPart = (omega arith, (refl, (refl, (refl, tt))))

leaf_of-IsPart :
    (stamp number label : Text)
    → IsPart 160 stamp
    → IsPart 160 number
    → IsPart 160 label
    → IsPart 488 (leaf_of stamp number label)
leaf_of-IsPart stamp number label a b c =
    append-IsPart 487 1 _ (codes ")")
      (append-IsPart 327 160 _ label
        (append-IsPart 324 3 _ (codes ")-(")
          (append-IsPart 164 160 _ number
            (append-IsPart 161 3 _ (codes ")-(")
              (append-IsPart 1 160 (codes "(") stamp opening-IsPart a) between-IsPart)
            b)
          between-IsPart)
        c)
      closing-IsPart

leaf_of-IsComponent :
    (stamp number label : Text)
    → IsPart 488 (leaf_of stamp number label)
    → IsComponent 488 (leaf_of stamp number label)
unfolding codes
leaf_of-IsComponent stamp number label h = (h.0, h.1, refl)

-- Whatever the finish stamp, the number and the description are, the leaf of the record folder is one
-- path component: it is not empty, it has at most 488 characters, all of them ASCII letters, figures
-- or one of . _ ( ) -, and it does not begin with a dot.
pub build_record_folder_leaf-IsComponent :
    (finish_stamp numero desc : Text)
    → IsComponent 488 (build_record_folder_leaf finish_stamp numero desc)
unfolding build_record_folder_leaf
build_record_folder_leaf-IsComponent finish_stamp numero desc = leaf_of-IsComponent _ _ _ (
    leaf_of-IsPart _ _ _ (IsComponent-IsPart 160 _ (safe_name-IsComponent _))
      (IsComponent-IsPart 160 _ (safe_name-IsComponent _))
      (IsComponent-IsPart 160 _ (safe_name-IsComponent _)))
