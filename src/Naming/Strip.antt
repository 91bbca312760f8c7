-- ===== src/Naming/Strip.antt =====
-- A text without the characters at its ends: what stripping keeps, and when it keeps everything.
use panamacompra_collector_b.Prelude.{
  ℕ, ◌≡◌, refl, sym, ap, ◌∙◌, inl, inr, Bool, false, List, [], ◌∷◌, ◌++◌, reverse, Bool-cases, All,
  Text, lstrip_by, strip_by,
}
use mathlib.Core.Path.{subst}
use mathlib.Core.List.{reverse_aux, reverse-append, reverse-reverse}

pub All-reverse_aux {ℓ} :
    {A : Type ℓ} (P : A → Type 0) (s acc : List A) → All P s → All P acc → All P (reverse_aux s acc)
All-reverse_aux P [] acc h k = k
All-reverse_aux P (c ∷ s) acc h k = All-reverse_aux P s (c ∷ acc) h.1 (h.0, k)

All-lstrip_by : (P : ℕ → Type 0) (p : ℕ → Bool) (s : Text) → All P s → All P (lstrip_by p s)
unfolding lstrip_by
All-lstrip_by P p [] h = tt
All-lstrip_by P p (c ∷ s) h = elim (Bool-cases (p c)) [
  | inl e ↦ rw e (All-lstrip_by P p s h.1)
  | inr e ↦ rw e h
]

pub All-strip_by : (P : ℕ → Type 0) (p : ℕ → Bool) (s : Text) → All P s → All P (strip_by p s)
unfolding strip_by
All-strip_by P p s h =
    let inner = All-lstrip_by P p s h in
    All-reverse_aux P (lstrip_by p (reverse (lstrip_by p s))) []
      (All-lstrip_by P p _ (All-reverse_aux P (lstrip_by p s) [] inner tt)) tt

-- A text that begins with no character of the class, if it is not empty.
abbrev pub Begins : (ℕ → Bool) → Text → Type 0
Begins p [] = Unit
Begins p (c ∷ s) = p c ≡ false

lstrip_by-Begins : (p : ℕ → Bool) (s : Text) → Begins p (lstrip_by p s)
unfolding lstrip_by
lstrip_by-Begins p [] = tt
lstrip_by-Begins p (c ∷ s) = elim (Bool-cases (p c)) [
  | inl e ↦ rw e (lstrip_by-Begins p s)
  | inr e ↦ rw e e
]

lstrip_by_suffix : (p : ℕ → Bool) (s : Text) → (before : Text) × (s ≡ before ++ lstrip_by p s)
unfolding lstrip_by
lstrip_by_suffix p [] = ([], refl)
lstrip_by_suffix p (c ∷ s) = elim (Bool-cases (p c)) [
  | inl e ↦ let (before, split) = lstrip_by_suffix p s in rw e (c ∷ before, ap (λ t. c ∷ t) split)
  | inr e ↦ rw e ([], refl)
]

prefix-Begins : (p : ℕ → Bool) (s rest : Text) → Begins p (s ++ rest) → Begins p s
prefix-Begins p [] rest h = tt
prefix-Begins p (c ∷ s) rest h = h

rstrip_prefix :
    (p : ℕ → Bool) (s : Text) → (rest : Text) × (s ≡ reverse (lstrip_by p (reverse s)) ++ rest)
rstrip_prefix p s =
    let (before, split) = lstrip_by_suffix p (reverse s) in
    (
      reverse before,
      sym (reverse-reverse s) ∙ ap reverse split ∙ reverse-append before (lstrip_by p (reverse s)),
    )

pub strip_by-Begins : (p : ℕ → Bool) (s : Text) → Begins p (strip_by p s)
unfolding strip_by
strip_by-Begins p s =
    let inner = lstrip_by p s in
    let (rest, split) = rstrip_prefix p inner in
    prefix-Begins p _ rest (subst (Begins p) split (lstrip_by-Begins p s))

lstrip_by_fixed : (p : ℕ → Bool) (s : Text) → Begins p s → lstrip_by p s ≡ s
unfolding lstrip_by
lstrip_by_fixed p [] h = refl
lstrip_by_fixed p (c ∷ s) h = rw h refl

-- A text with no character of the class at either end stays as it is.
pub strip_by_fixed :
    (p : ℕ → Bool) (s : Text) → Begins p s → Begins p (reverse s) → strip_by p s ≡ s
unfolding strip_by
strip_by_fixed p s h k =
    ap (λ t. reverse (lstrip_by p (reverse t))) (lstrip_by_fixed p s h)
    ∙ ap reverse (lstrip_by_fixed p (reverse s) k)
    ∙ reverse-reverse s
