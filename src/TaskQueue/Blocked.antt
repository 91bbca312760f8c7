-- ===== src/TaskQueue/Blocked.antt =====
-- When the head of the queue can never start, and that a started range is not taken for complete.
use panamacompra_collector_b.Prelude.{
  append_nil, append_assoc, All, [], Bool, ◌≡◌, refl, sym, ap, ◌∙◌, ◌⊎◌, inl, inr, true, false,
  none, some, List, ◌∷◌, ◌++◌, arith, Bool-cases, Option-cases, Text, codes, ◌==◌, ==_refl,
}
use mathlib.Core.Path.{subst}
use panamacompra_collector_b.Table
use panamacompra_collector_b.Archive.{Db}
use panamacompra_collector_b.Crawl.{
  crawl_key, no_fields, set_fields, get_closed_crawl_state, get_closed_crawl_state_lem,
  update_closed_crawl_state, find-update_closed_crawl_state,
}
use panamacompra_collector_b.TaskQueue.{
  Status, queued, Task, World, Report, still_running, activated, waiting, wait_check_failed,
  malformed, is_running, is_queued, load_queue, save_queue, within, check_wait_condition,
  check_completion, prepare, start, tick_running, try_start, tick_queued, tick, negative, add_task,
}
use panamacompra_collector_b.TaskQueue.Search.{
  first_with-none, NoneWith, first_with-append, NoneWith-append,
}
use panamacompra_collector_b.TaskQueue.Order.{load_queue-save_queue, tick-Started}

-- A task that no archive makes ready: its wait condition is none that the code knows, or its
-- threshold is no number or below zero.
abbrev pub NeverReady : Task → Type 0
NeverReady task =
    ((task.wait_condition == codes "closed_pending_below") ≡ false)
    ⊎ (task.threshold ≡ some malformed)
    ⊎ (task.threshold ≡ some negative)

-- The report of a pass that starts nothing.
abbrev pub Holds : Task → Report → Type 0
Holds task report = (report ≡ waiting task.label) ⊎ (report ≡ wait_check_failed task.label)

NeverReady-check :
    (db : Db) (task : Task)
    → NeverReady task
    → (check_wait_condition db task ≡ some false) ⊎ (check_wait_condition db task ≡ none)
unfolding check_wait_condition within
NeverReady-check db task (inl unknown) = inl (rw unknown refl)
NeverReady-check db task (inr bad) = ground arith

-- What happens to the queue after: a pass of the scheduler, on an archive and settings that other
-- programs may have changed, or a task that the user adds.
pub data Later : Type 0 where
  pass : (now : Text) (db : Db) (settings : List (Text × Text)) → Later
  joins : (id now : Text) (given : Task) → Later

abbrev pub arrive : Db → List (Text × Text) → World → World
arrive db settings w = record w { db = db; settings = settings }

-- The reports of the passes, and the world after them.
unfoldable pub outlook : List Later → World → List Report × World
outlook [] w = ([], w)
outlook (pass now db settings ∷ events) w =
    let (report, w') = tick now (arrive db settings w) in
    let (reports, last) = outlook events w' in (report ∷ reports, last)
outlook (joins id now given ∷ events) w = outlook events (add_task w id now given).0

tick-NeverReady :
    (now : Text) (w : World) (before : List Task) (task : Task) (after : List Task)
    → NoneWith is_running (load_queue w)
    → load_queue w ≡ before ++ task ∷ after
    → NoneWith is_queued before
    → task.status ≡ queued
    → NeverReady task
    → Holds task (tick now w).0 × ((tick now w).1 ≡ w)
unfolding tick tick_queued try_start
tick-NeverReady now w before task after free here first waits never =
    rw (first_with-none is_running (load_queue w) free, tick)
      (rw (here, first_with-append is_queued before task after first (rw waits refl))
        (elim (NeverReady-check w.db task never) [
          | inl e ↦ rw e (inl refl, refl)
          | inr e ↦ rw e (inr refl, refl)
        ]))

NoneWith-snoc :
    (p : Status → Bool) (s : List Task) (t : Task)
    → NoneWith p s
    → p t.status ≡ false
    → NoneWith p (s ++ t ∷ [])
NoneWith-snoc p [] t h e = (e, tt)
NoneWith-snoc p (x ∷ s) t h e = (h.0, NoneWith-snoc p s t h.1 e)

-- The task is still where it was, with the tasks that were added behind it.
abbrev pub StillThere : List Task → Task → List Task → World → Type 0
StillThere before task after w =
    (more : List Task) × (load_queue w ≡ before ++ task ∷ (after ++ more))

module _ (before : List Task) (task : Task) where
  outlook-tick :
      (events : List Later) (w w' : World) (report : Report) (after : List Task)
      → Holds task report × (w' ≡ w)
      → All (Holds task) (outlook events w).0 × StillThere before task after (outlook events w).1
      → All (Holds task) (report ∷ (outlook events w').0)
        × StillThere before task after (outlook events w').1
  outlook-tick events w w' report after held rest = rw held.1 (((held.0, rest.0), rest.1))

  -- Nothing runs, and the first queued task has a wait condition that the code does not know, or a
  -- threshold that is no number or below zero. Then every later pass reports that task as waiting
  -- or as failed in its check and starts nothing, however often the scheduler passes, whatever
  -- archive and settings it finds then and whatever tasks are added in between: the task keeps its
  -- place, with all the others.
  pub outlook-NeverReady :
      (events : List Later) (w : World) (after : List Task)
      → NoneWith is_running (before ++ task ∷ after)
      → load_queue w ≡ before ++ task ∷ after
      → NoneWith is_queued before
      → task.status ≡ queued
      → NeverReady task
      → All (Holds task) (outlook events w).0 × StillThere before task after (outlook events w).1
  unfolding outlook load_queue save_queue add_task
  outlook-NeverReady [] w after free here first waits never =
      (tt, ([], here ∙ ap (λ x. before ++ task ∷ x) (sym (append_nil after))))
  outlook-NeverReady (pass now db settings ∷ events) w after free here first waits never =
      let w' = arrive db settings w in
      let held = tick-NeverReady now w' before task after (rw here free) here first waits never in
      outlook-tick events w' (tick now w').1 (tick now w').0 after held
        (outlook-NeverReady events w' after free here first waits never)
  outlook-NeverReady (joins id now given ∷ events) w after free here first waits never =
      let w' = (add_task w id now given).0 in
      let t = (add_task w id now given).1 in
      let there = ap (λ x. x ++ t ∷ []) here ∙ append_assoc before (task ∷ after) (t ∷ []) in
      let rest =
        outlook-NeverReady events w' (after ++ t ∷ [])
          (subst (NoneWith is_running) (append_assoc before (task ∷ after) (t ∷ []))
            (NoneWith-snoc is_running (before ++ task ∷ after) t free refl))
          there first waits never in
      (
        rest.0,
        (
          t ∷ rest.1.0,
          rest.1.1 ∙ ap (λ x. before ++ task ∷ x) (append_assoc after (t ∷ []) rest.1.0),
        ),
      )

-- The cursor that `activate_task` has reset is not complete.
reset_cursor :
    (db : Db)
    → (get_closed_crawl_state
        (update_closed_crawl_state db
          (codes "Closed")
          (record no_fields { page = some 1; complete = some false }))
        (codes "Closed")).0.backfill_complete
      ≡ false
unfolding set_fields
reset_cursor db =
    let fields = record no_fields { page = some 1; complete = some false } in
    let found = find-update_closed_crawl_state db (codes "Closed") (codes "Closed") fields in
    rw
      (
        get_closed_crawl_state_lem (update_closed_crawl_state db (codes "Closed") fields)
            (codes "Closed"),
        found,
        ==_refl (codes "Closed"),
      )
      (elim (Option-cases (Table.find crawl_key (codes "Closed") db.crawl)) [
        | inl none_yet ↦ rw none_yet refl
        | inr (state, present) ↦ rw present refl
      ])

label-start :
    (now : Text) (task : Task) → still_running (start now task).label ≡ still_running task.label
unfolding start
label-start now task = refl

is_running-start : (now : Text) (task : Task) → is_running (start now task).status ≡ true
unfolding start
is_running-start now task = refl

check_completion-prepare :
    (now : Text) (task : Task) (w : World)
    → (check_completion (prepare task w).db (start now task)).0 ≡ false
unfolding check_completion prepare start
check_completion-prepare now task w =
    elim (Bool-cases (task.kind == codes "closed_backfill_range")) [
      | inl range ↦ rw range (reset_cursor w.db)
      | inr other ↦ rw other refl
    ]

module _ (now again : Text) (w : World) where
  -- The next pass over the queue that a start has saved.
  module _ (before : List Task) (task : Task) (after : List Task) where
    abbrev saved : World
    saved = save_queue (before ++ start now task ∷ after) (prepare task w)

    tick_running-saved :
        (tick_running again saved before (start now task) after).0 ≡ still_running task.label
    unfolding tick_running save_queue
    tick_running-saved = rw (check_completion-prepare now task w) (label-start now task)

    tick-saved : NoneWith is_running before → (tick again saved).0 ≡ still_running task.label
    unfolding tick
    tick-saved free =
        rw
          (
            load_queue-save_queue (before ++ start now task ∷ after) (prepare task w),
            tick,
            first_with-append is_running before (start now task) after free
                (is_running-start now task),
          )
          tick_running-saved

  -- The pass after a start finds the started task running and not complete: a range is never
  -- taken for done by the completion mark of the range before it.
  pub tick-tick :
      (label : Text)
      → (tick now w).0 ≡ activated label
      → (tick again (tick now w).1).0 ≡ still_running label
  tick-tick label h =
      let (before, task, after, head, named, made) = tick-Started now w label h in
      let free =
        (NoneWith-append is_running before (task ∷ after) (rw head.placed at head.alone)).0 in
      ap (λ (x : World). (tick again x).0) made
      ∙ (tick-saved before task after free ∙ ap still_running (sym named))
