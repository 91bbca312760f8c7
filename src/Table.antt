-- ===== src/Table.antt =====
-- An SQLite table with a text primary key, as the program uses it: SELECT … WHERE key = ?,
-- UPDATE … WHERE key = ? and INSERT of an absent key. Rows stand in insertion order.
use panamacompra_collector_b.Prelude.{
  Text, Option, none, some, List, [], ◌∷◌, ◌++◌, map, ◌≡◌, refl, ◌≢◌, inl, inr, ◌==◌, ==_iff,
  ==_refl, if◌then◌else◌, arith, Bool-cases, Option-cases,
}
use mathlib.Core.Option

module _ {ℓ} {R : Type ℓ} (key : R → Text) where
  -- SELECT * FROM t WHERE key = ?, one row
  unfoldable pub find : Text → List R → Option R
  find k [] = none
  find k (r ∷ t) = if key r == k then some r else find k t

  -- UPDATE t SET … WHERE key = ?
  unfoldable pub update : Text → (R → R) → List R → List R
  update k f [] = []
  update k f (r ∷ t) = (if key r == k then f r else r) ∷ update k f t

  -- The primary key constraint: no later row has the key of an earlier one.
  abbrev pub Unique : List R → Type ℓ
  Unique [] = Unit
  Unique (r ∷ t) = (find (key r) t ≡ none) × Unique t

  pub find-append :
      (k : Text) (t : List R) (r : R)
      → find k t ≡ none
      → find k (t ++ r ∷ []) ≡ (if key r == k then some r else none)
  unfolding find
  find-append k [] r h = refl
  find-append k (x ∷ t) r h = ground (arith, find-append k t r)

  pub find-append_some :
      (k : Text) (t : List R) (r x : R) → find k t ≡ some x → find k (t ++ r ∷ []) ≡ some x
  unfolding find
  find-append_some k [] r x h = ground arith
  find-append_some k (y ∷ t) r x h = ground (arith, find-append_some k t r x)

  -- INSERT of an absent key, seen by SELECT.
  pub find-append_new :
      (j : Text) (t : List R) (r : R)
      → find (key r) t ≡ none
      → find j (t ++ r ∷ []) ≡ (if key r == j then some r else find j t)
  find-append_new j t r h = elim (Bool-cases (key r == j)) [
    | inl e ↦
        let same = (==_iff (key r) j).0 e in rw e (ground (arith, find-append j t r (rw same at h)))
    | inr e ↦ elim (Option-cases (find j t)) [
      | inl absent ↦ ground (arith, find-append j t r absent)
      | inr (x, present) ↦ ground (arith, find-append_some j t r x present)
    ]
  ]

  pub key-find : (k : Text) (t : List R) (r : R) → find k t ≡ some r → key r ≡ k
  unfolding find
  key-find k [] r h = ground arith
  key-find k (x ∷ t) r h = ground (arith, key-find k t r, ==_iff (key x) k)

  module _ (f : R → R) (keeps : (r : R) → key (f r) ≡ key r) where
    pub find-update_self : (k : Text) (t : List R) → find k (update k f t) ≡ Option.map f (find k t)
    unfolding find update
    find-update_self k [] = refl
    find-update_self k (r ∷ t) = elim (Bool-cases (key r == k)) [
      | inl e ↦ rw (e, keeps r, e) refl
      | inr e ↦ rw (e, e) (find-update_self k t)
    ]

    pub find-update_ne : (k j : Text) (t : List R) → k ≢ j → find j (update k f t) ≡ find j t
    unfolding find update
    find-update_ne k j [] ne = refl
    find-update_ne k j (r ∷ t) ne =
        ground (arith, keeps r, ==_iff (key r) k, ==_iff (key r) j, find-update_ne k j t ne)

    pub find-update :
        (k j : Text) (t : List R)
        → find j (update k f t) ≡ (if k == j then Option.map f (find k t) else find j t)
    find-update k j t = elim (Bool-cases (k == j)) [
      | inl e ↦ rw (e, ← (==_iff k j).0 e) (find-update_self k t)
      | inr e ↦ rw e (find-update_ne k j t (λ p. cc ((==_iff k j).1 p)))
    ]

    pub find-update-none :
        (k j : Text) (t : List R) → find j t ≡ none → find j (update k f t) ≡ none
    unfolding find update
    find-update-none k j [] h = refl
    find-update-none k j (r ∷ t) h = ground (arith, keeps r, find-update-none k j t)

    pub update-Unique : (k : Text) (t : List R) → Unique t → Unique (update k f t)
    unfolding find update
    update-Unique k [] u = tt
    update-Unique k (r ∷ t) u = elim (Bool-cases (key r == k)) [
      | inl e ↦ rw (e, keeps r) (find-update-none k (key r) t u.0, update-Unique k t u.1)
      | inr e ↦ rw e (find-update-none k (key r) t u.0, update-Unique k t u.1)
    ]

  pub append-Unique : (t : List R) (r : R) → Unique t → find (key r) t ≡ none → Unique (t ++ r ∷ [])
  unfolding find
  append-Unique [] r u h = (refl, tt)
  append-Unique (x ∷ t) r u h = elim (Bool-cases (key x == key r)) [
    | inl e ↦ absurd (cc (rw e at h))
    | inr e ↦ (
      ground (arith, find-append (key x) t r u.0, ==_iff (key x) (key r), ==_iff (key r) (key x)),
      append-Unique t r u.1 (rw e at h),
    )
  ]

  -- An update that does not change the row of a key changes nothing, keys being unique.
  update_absent : (k : Text) (f : R → R) (t : List R) → find k t ≡ none → update k f t ≡ t
  unfolding find update
  update_absent k f [] h = refl
  update_absent k f (r ∷ t) h = ground (arith, update_absent k f t)

  pub update_fixed :
      (k : Text) (f : R → R) (t : List R) (r : R)
      → Unique t
      → find k t ≡ some r
      → f r ≡ r
      → update k f t ≡ t
  unfolding find update
  update_fixed k f [] r u h e = refl
  update_fixed k f (x ∷ t) r u h e =
      ground (arith, ==_iff (key x) k, update_fixed k f t r u.1, update_absent k f t)

  pub find-append_none :
      (k : Text) (s t : List R) → find k (s ++ t) ≡ none → (find k s ≡ none) × (find k t ≡ none)
  unfolding find
  find-append_none k [] t h = (refl, h)
  find-append_none k (x ∷ s) t h = ground (arith, find-append_none k s t)

  pub Unique-middle :
      (s : List R) (r : R) (t : List R)
      → Unique (s ++ r ∷ t)
      → (find (key r) s ≡ none) × (find (key r) t ≡ none)
  unfolding find
  Unique-middle [] r t u = (refl, u.0)
  Unique-middle (x ∷ s) r t u = ground (
    arith,
    Unique-middle s r t u.1,
    find-append_none (key x) s (r ∷ t),
    ==_iff (key x) (key r),
    ==_iff (key r) (key x),
  )

  update-append :
      (k : Text) (f : R → R) (s t : List R) → update k f (s ++ t) ≡ update k f s ++ update k f t
  unfolding update
  update-append k f [] t = refl
  update-append k f (x ∷ s) t = rw (update-append k f s t)

  -- An update under the key of a row changes that row alone, keys being unique.
  pub update-middle :
      (s : List R) (f : R → R) (r : R) (t : List R)
      → Unique (s ++ r ∷ t)
      → update (key r) f (s ++ r ∷ t) ≡ s ++ f r ∷ t
  unfolding update
  update-middle s f r t u =
      let (before, after) = Unique-middle s r t u in
      rw (
        update-append (key r) f s (r ∷ t),
        update_absent (key r) f s before,
        update_absent (key r) f t after,
        ==_refl (key r),
      )

  module _ (f : R → R) (keeps : (r : R) → key (f r) ≡ key r) where
    pub find-map : (k : Text) (t : List R) → find k (map f t) ≡ Option.map f (find k t)
    unfolding find
    find-map k [] = refl
    find-map k (r ∷ t) = elim (Bool-cases (key r == k)) [
      | inl e ↦ rw (keeps r, e) refl
      | inr e ↦ rw (keeps r, e) (find-map k t)
    ]

    pub map-Unique : (t : List R) → Unique t → Unique (map f t)
    map-Unique [] u = tt
    map-Unique (r ∷ t) u = (rw (keeps r, find-map (key r) t, u.0) refl, map-Unique t u.1)
