-- ===== src/DetailQueue/Order.antt =====
-- The order of the queue: it is a total order, and sorting by it loses no row.
use panamacompra_collector_b.Prelude.{
  keep-All, ℕ, suc, ◌≡◌, refl, ap, ◌∙◌, inl, inr, Bool, true, false, ◌&&◌, List, [], ◌∷◌, arith,
  if◌then◌else◌, Bool-cases, keep, All,
}
use panamacompra_collector_b.Archive.{Opportunity}
use panamacompra_collector_b.DetailQueue.{precedes, order_key, comes_before, insert_row, order_rows}

precedes_total : (s t : List ℕ) → precedes s t ≡ false → precedes t s ≡ true
unfolding precedes
precedes_total [] t e = absurd (cc e)
precedes_total (a ∷ s) [] e = refl
precedes_total (a ∷ s) (b ∷ t) e = ground (arith, precedes_total s t)

precedes_trans : (r s t : List ℕ) → precedes r s ≡ true → precedes s t ≡ true → precedes r t ≡ true
unfolding precedes
precedes_trans [] s t h k = refl
precedes_trans (a ∷ r) [] t h k = absurd (cc h)
precedes_trans (a ∷ r) (b ∷ s) [] h k = absurd (cc k)
precedes_trans (a ∷ r) (b ∷ s) (c ∷ t) h k = ground (arith, precedes_trans r s t)

abbrev pub Sorted : List Opportunity → Type 0
Sorted [] = Unit
Sorted (x ∷ xs) = All (λ y. comes_before x y ≡ true) xs × Sorted xs

abbrev pub count : (Opportunity → Bool) → List Opportunity → ℕ
count p [] = 0
count p (x ∷ xs) = if p x then suc (count p xs) else count p xs

All-before :
    (x y : Opportunity) (ys : List Opportunity)
    → comes_before x y ≡ true
    → All (λ z. comes_before y z ≡ true) ys
    → All (λ z. comes_before x z ≡ true) ys
unfolding comes_before
All-before x y [] e h = tt
All-before x y (z ∷ ys) e h =
    (precedes_trans (order_key x) (order_key y) (order_key z) e h.0, All-before x y ys e h.1)

insert_row-All :
    (P : Opportunity → Type 0) (x : Opportunity) (ys : List Opportunity)
    → P x
    → All P ys
    → All P (insert_row x ys)
unfolding insert_row
insert_row-All P x [] e h = (e, tt)
insert_row-All P x (y ∷ ys) e h = elim (Bool-cases (comes_before x y)) [
  | inl before ↦ rw before (e, h)
  | inr after ↦ rw after (h.0, insert_row-All P x ys e h.1)
]

before_total : (x y : Opportunity) → comes_before x y ≡ false → comes_before y x ≡ true
unfolding comes_before
before_total x y e = precedes_total (order_key x) (order_key y) e

insert_row-Sorted : (x : Opportunity) (ys : List Opportunity) → Sorted ys → Sorted (insert_row x ys)
unfolding insert_row
insert_row-Sorted x [] h = (tt, tt)
insert_row-Sorted x (y ∷ ys) h = elim (Bool-cases (comes_before x y)) [
  | inl before ↦ rw before ((before, All-before x y ys before h.0), h)
  | inr after ↦ rw after (
    insert_row-All (λ z. comes_before y z ≡ true) x ys (before_total x y after) h.0,
    insert_row-Sorted x ys h.1,
  )
]

pub order_rows-Sorted : (xs : List Opportunity) → Sorted (order_rows xs)
unfolding order_rows
order_rows-Sorted [] = tt
order_rows-Sorted (x ∷ xs) = insert_row-Sorted x (order_rows xs) (order_rows-Sorted xs)

if_swap :
    (a b : Bool) (n : ℕ)
    → (if a then suc (if b then suc n else n) else (if b then suc n else n))
      ≡ (if b then suc (if a then suc n else n) else (if a then suc n else n))
if_swap true true n = refl
if_swap true false n = refl
if_swap false true n = refl
if_swap false false n = refl

count-insert_row :
    (p : Opportunity → Bool) (x : Opportunity) (ys : List Opportunity)
    → count p (insert_row x ys) ≡ count p (x ∷ ys)
unfolding insert_row
count-insert_row p x [] = refl
count-insert_row p x (y ∷ ys) = elim (Bool-cases (comes_before x y)) [
  | inl before ↦ rw before refl
  | inr after ↦ rw (after, count-insert_row p x ys) (if_swap (p y) (p x) (count p ys))
]

pub count-order_rows :
    (p : Opportunity → Bool) (xs : List Opportunity) → count p (order_rows xs) ≡ count p xs
unfolding order_rows
count-order_rows p [] = refl
count-order_rows p (x ∷ xs) =
    count-insert_row p x (order_rows xs)
    ∙ ap (λ n. if p x then suc n else n) (count-order_rows p xs)

pub count-keep :
    (p q : Opportunity → Bool) (xs : List Opportunity)
    → count p (keep q xs) ≡ count (λ r. p r && q r) xs
unfolding keep
count-keep p q [] = refl
count-keep p q (x ∷ xs) = ground (arith, count-keep p q xs)

pub keep-Sorted : (q : Opportunity → Bool) (xs : List Opportunity) → Sorted xs → Sorted (keep q xs)
unfolding keep
keep-Sorted q [] h = tt
keep-Sorted q (x ∷ xs) h = elim (Bool-cases (q x)) [
  | inl e ↦ rw e (keep-All (λ y. comes_before x y ≡ true) q xs h.0, keep-Sorted q xs h.1)
  | inr e ↦ rw e (keep-Sorted q xs h.1)
]
