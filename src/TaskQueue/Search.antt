-- ===== src/TaskQueue/Search.antt =====
-- The searches of `tick` through the queue.
use panamacompra_collector_b.Prelude.{
  ◌≡◌, refl, ap, ◌⊎◌, inl, inr, Bool, true, false, List, [], ◌∷◌, ◌++◌, Bool-cases, All,
}
use panamacompra_collector_b.TaskQueue.{Status, Task, Split, absent, at, later, first_with}

-- No task of the list has such a status.
abbrev pub NoneWith : (Status → Bool) → List Task → Type 0
NoneWith p tasks = All (λ t. p t.status ≡ false) tasks

-- The split is at the first task with such a status.
abbrev pub IsFirst : (Status → Bool) → List Task → Split → Type 0
IsFirst p tasks absent = NoneWith p tasks
IsFirst p tasks (at before task after) =
    (tasks ≡ before ++ task ∷ after) × (p task.status ≡ true) × NoneWith p before

module _ (p : Status → Bool) where
  IsFirst-later :
      (t : Task) (tasks : List Task) (s : Split)
      → p t.status ≡ false
      → IsFirst p tasks s
      → IsFirst p (t ∷ tasks) (later t s)
  IsFirst-later t tasks absent h first = (h, first)
  IsFirst-later t tasks (at before task after) h (e, found, none_before) =
      (ap (λ x. t ∷ x) e, found, (h, none_before))

  first_with-IsFirst : (tasks : List Task) → IsFirst p tasks (first_with p tasks)
  unfolding first_with
  first_with-IsFirst [] = tt
  first_with-IsFirst (t ∷ tasks) = elim (Bool-cases (p t.status)) [
    | inl found ↦ rw found (refl, found, tt)
    | inr other ↦
        rw other (IsFirst-later t tasks (first_with p tasks) other (first_with-IsFirst tasks))
  ]

  pub first_with-absent : (tasks : List Task) → first_with p tasks ≡ absent → NoneWith p tasks
  first_with-absent tasks h = rw h at (first_with-IsFirst tasks)

  pub first_with-at :
      (tasks before : List Task) (task : Task) (after : List Task)
      → first_with p tasks ≡ at before task after
      → (tasks ≡ before ++ task ∷ after) × (p task.status ≡ true) × NoneWith p before
  first_with-at tasks before task after h = rw h at (first_with-IsFirst tasks)

  pub first_with-append :
      (before : List Task) (task : Task) (after : List Task)
      → NoneWith p before
      → p task.status ≡ true
      → first_with p (before ++ task ∷ after) ≡ at before task after
  unfolding first_with
  first_with-append [] task after none_before h = rw h refl
  first_with-append (t ∷ before) task after none_before h =
      rw (none_before.0, first_with-append before task after none_before.1 h) refl

  pub first_with-none : (tasks : List Task) → NoneWith p tasks → first_with p tasks ≡ absent
  unfolding first_with
  first_with-none [] h = refl
  first_with-none (t ∷ tasks) h = rw (h.0, first_with-none tasks h.1) refl

  pub NoneWith-append : (s t : List Task) → NoneWith p (s ++ t) → NoneWith p s × NoneWith p t
  NoneWith-append [] t h = (tt, h)
  NoneWith-append (x ∷ s) t h = let (left, right) = NoneWith-append s t h.1 in ((h.0, left), right)

-- How `tick` ends: it ran the branch of a running task, of the first queued task, or neither.
pub Split-cases :
    (s : Split)
    → (s ≡ absent)
      ⊎ ((before : List Task) × (task : Task) × (after : List Task) × (s ≡ at before task after))
Split-cases absent = inl refl
Split-cases (at before task after) = inr (before, task, after, refl)
