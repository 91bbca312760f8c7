-- ===== src/TaskQueue/Alone.antt =====
-- At most one task of the queue runs, whatever the sequence of operations.
use panamacompra_collector_b.Prelude.{
  ℕ, ◌+◌, ◌≤◌, ◌≡◌, refl, ap, inl, inr, Bool, not, Option, List, [], ◌∷◌, ◌++◌, arith,
  if◌then◌else◌, length, keep, Text, ◌==◌,
}
use panamacompra_collector_b.TaskQueue.{
  Task, World, is_running, is_queued, load_queue, save_queue, add_task, remove_task,
  check_wait_condition, start, finish, first_with, tick_running, try_start, tick_queued, tick,
}
use panamacompra_collector_b.TaskQueue.Search.{
  NoneWith, first_with-at, first_with-absent, Split-cases,
}

-- How many tasks run.
unfoldable pub running_count : List Task → ℕ
running_count tasks = length (keep (λ t. is_running t.status) tasks)

running_count-append :
    (s t : List Task) → running_count (s ++ t) ≡ running_count s + running_count t
unfolding keep running_count
running_count-append [] t = omega arith
running_count-append (x ∷ s) t = ground (arith, running_count-append s t)

running_count-NoneWith : (s : List Task) → NoneWith is_running s → running_count s ≡ 0
unfolding keep running_count
running_count-NoneWith [] h = refl
running_count-NoneWith (x ∷ s) h = rw h.0 (running_count-NoneWith s h.1)

running_count-cons :
    (t : Task) (s : List Task)
    → running_count (t ∷ s) ≡ (if is_running t.status then 1 else 0) + running_count s
unfolding keep running_count
running_count-cons t s = ground arith

-- The count of a queue with a task at a place.
running_count-at :
    (before : List Task) (t : Task) (after : List Task)
    → running_count (before ++ t ∷ after)
      ≡ running_count before + ((if is_running t.status then 1 else 0) + running_count after)
running_count-at before t after =
    omega (arith, running_count-append before (t ∷ after), running_count-cons t after)

running_count-keep :
    (p : Task → Bool) (tasks : List Task) → running_count (keep p tasks) ≤ running_count tasks
unfolding keep
running_count-keep p [] = omega arith
running_count-keep p (t ∷ tasks) = ground (
  arith,
  running_count-cons t tasks,
  running_count-cons t (keep p tasks),
  running_count-keep p tasks,
)

abbrev pub running_in : World → ℕ
running_in w = running_count (load_queue w)

module _ (now : Text) (w : World) where
  tick_running-le :
      (before : List Task) (task : Task) (after : List Task)
      → load_queue w ≡ before ++ task ∷ after
      → running_in (tick_running now w before task after).1 ≤ running_in w
  unfolding tick_running load_queue save_queue finish
  tick_running-le before task after here = ground (
    arith,
    running_count-at before task after,
    running_count-at before (finish now task) after,
    ap running_count here,
  )

  try_start-le :
      (before : List Task) (task : Task) (after : List Task) (o : Option Bool)
      → load_queue w ≡ before ++ task ∷ after
      → running_in w ≡ 0
      → running_in (try_start now w before task after o).1 ≤ 1
  unfolding try_start load_queue save_queue start
  try_start-le before task after o here free = ground (
    arith,
    running_count-at before task after,
    running_count-at before (start now task) after,
    ap running_count here,
  )

  -- A dispatcher pass never makes two tasks run.
  pub tick-le_one : running_in w ≤ 1 → running_in (tick now w).1 ≤ 1
  unfolding tick tick_queued
  tick-le_one h = elim (Split-cases (first_with is_running (load_queue w))) [
    | inr (before, task, after, e) ↦
        let (here, _, _) = first_with-at is_running (load_queue w) before task after e in
        rw (e, tick) (omega (arith, tick_running-le before task after here))
    | inl e ↦
        let free =
          running_count-NoneWith (load_queue w) (first_with-absent is_running (load_queue w) e) in
        elim (Split-cases (first_with is_queued (load_queue w))) [
          | inl e' ↦ rw (e, tick, e') h
          | inr (before, task, after, e') ↦
              let (here, _, _) = first_with-at is_queued (load_queue w) before task after e' in
              rw (e, tick, e')
                (try_start-le before task after (check_wait_condition w.db task) here free)
        ]
  ]

-- An operation on the queue, at a time and with a fresh id.
pub data Step (w : World) : World → Type 0 where
  ticks : (now : Text) → Step w (tick now w).1
  adds : (id now : Text) (task : Task) → Step w (add_task w id now task).0
  removes : (id : Text) → Step w (remove_task w id).1
  -- Other programs write the archive and the settings while the queue stands still.
  outside : (w' : World) → w'.queue ≡ w.queue → Step w w'

pub data Reach (w : World) : World → Type 0 where
  here : Reach w w
  next : {v v' : World} → Reach w v → Step v v' → Reach w v'

Step-le_one : {w w' : World} → Step w w' → running_in w ≤ 1 → running_in w' ≤ 1
unfolding add_task remove_task load_queue save_queue
Step-le_one {w} (ticks now) h = tick-le_one now w h
Step-le_one {w} (adds id now task) h = ground (
  arith,
  running_count-at (load_queue w) (add_task w id now task).1 [],
  running_count-NoneWith [] tt,
)
Step-le_one {w} (removes id) h =
    ground (arith, running_count-keep (λ t. not (t.id == id)) (load_queue w))
Step-le_one (outside w' same) h = rw same h

-- Starting from a queue in which at most one task runs, at most one runs after any sequence of
-- passes, additions, removals and changes that other programs make to the archive.
pub Reach-le_one : {w w' : World} → Reach w w' → running_in w ≤ 1 → running_in w' ≤ 1
Reach-le_one here h = h
Reach-le_one (next r s) h = Step-le_one s (Reach-le_one r h)
