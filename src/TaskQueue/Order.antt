-- ===== src/TaskQueue/Order.antt =====
-- What one dispatcher pass does to the queue: at most one task moves, one step along
-- queued → running → done, and only the head of the queue is ever started.
use panamacompra_collector_b.Prelude.{
  ◌≡◌, refl, ◌≢◌, inl, inr, Bool, true, false, Option, none, some, List, [], ◌∷◌, ◌++◌, arith, Text,
}
use panamacompra_collector_b.TaskQueue.{
  Status, queued, running, Task, World, activated, is_running, is_queued, load_queue, save_queue,
  check_wait_condition, prepare, start, finish, first_with, tick_running, try_start, tick_queued,
  tick,
}
use panamacompra_collector_b.TaskQueue.Search.{
  NoneWith, first_with-at, first_with-absent, Split-cases,
}

-- One step of a task in its life.
pub data Progress (now : Text) : Task → Task → Type 0 where
  kept : (t : Task) → Progress now t t
  started : (t : Task) → t.status ≡ queued → Progress now t (start now t)
  finished : (t : Task) → t.status ≡ running → Progress now t (finish now t)

-- The same tasks in the same order, each at most one step further.
abbrev pub Advances : Text → List Task → List Task → Type 0
Advances now [] [] = Unit
Advances now [] (t' ∷ ts') = ⊥
Advances now (t ∷ ts) [] = ⊥
Advances now (t ∷ ts) (t' ∷ ts') = Progress now t t' × Advances now ts ts'

pub load_queue-save_queue :
    (tasks : List Task) (w : World) → load_queue (save_queue tasks w) ≡ tasks
unfolding load_queue save_queue
load_queue-save_queue tasks w = refl

is_queued→queued : (s : Status) → is_queued s ≡ true → s ≡ queued
is_queued→queued s h = ground arith

-- The task that a pass starts: the first queued one, while none runs, its condition being met.
pub record IsHead (w : World) (before : List Task) (task : Task) (after : List Task) : Type 0 where
  pub placed : load_queue w ≡ before ++ task ∷ after
  pub waits : task.status ≡ queued
  pub first : NoneWith is_queued before
  pub alone : NoneWith is_running (load_queue w)
  pub ready : check_wait_condition w.db task ≡ some true

module _ (now : Text) (w : World) where
  -- What a pass that reports a start did.
  abbrev pub Started : Text → World → Type 0
  Started label w' =
      (before : List Task) × (task : Task) × (after : List Task) × IsHead w before task after
      × (label ≡ task.label)
      × (w' ≡ save_queue (before ++ start now task ∷ after) (prepare task w))

  try_start-Started :
      (label : Text) (before : List Task) (task : Task) (after : List Task) (o : Option Bool)
      → load_queue w ≡ before ++ task ∷ after
      → task.status ≡ queued
      → NoneWith is_queued before
      → NoneWith is_running (load_queue w)
      → check_wait_condition w.db task ≡ o
      → (try_start now w before task after o).0 ≡ activated label
      → Started label (try_start now w before task after o).1
  unfolding try_start
  try_start-Started label before task after none here waits first alone e h = absurd (cc h)
  try_start-Started label before task after (some false) here waits first alone e h = absurd (cc h)
  try_start-Started label before task after (some true) here waits first alone e h = (
    before,
    task,
    after,
    record { placed = here; waits = waits; first = first; alone = alone; ready = e },
    cc,
    refl,
  )

  tick_running-ne-activated :
      (label : Text) (before : List Task) (task : Task) (after : List Task)
      → (tick_running now w before task after).0 ≢ activated label
  unfolding tick_running
  tick_running-ne-activated label before task after h = ground arith

  -- Strict FIFO: a pass that reports a start had no running task, started the first queued task
  -- of the queue and no other, found its wait condition met, and made the effects of its
  -- activation.
  pub tick-Started :
      (label : Text) → (tick now w).0 ≡ activated label → Started label (tick now w).1
  unfolding tick tick_queued
  tick-Started label h = elim (Split-cases (first_with is_running (load_queue w))) [
    | inr (before, task, after, e) ↦
        absurd (tick_running-ne-activated label before task after (rw (e, tick) at h))
    | inl e ↦ elim (Split-cases (first_with is_queued (load_queue w))) [
      | inl e' ↦ absurd (cc (rw (e, tick, e') at h))
      | inr (before, task, after, e') ↦
          let (here, waits, first) = first_with-at is_queued (load_queue w) before task after e' in
          rw (e, tick, e')
            (try_start-Started label before task after (check_wait_condition w.db task) here
              (is_queued→queued task.status waits) first
              (first_with-absent is_running (load_queue w) e) refl (rw (e, tick, e') at h))
    ]
  ]
