-- ===== src/TaskQueue.antt =====
pub mod Alone
pub mod Search
pub mod Order
pub mod Blocked
mod Tests
-- src/50_tools/145-task-queue.py: the queue of operations that wait for a condition of the
-- archive. The queue file, the settings file and the database are one `World`; the clock and the
-- random id of a new task are arguments. `load_queue` of a missing or damaged file is `none`.
use panamacompra_collector_b.Prelude.{
  ℕ, ◌+◌, Bool, true, false, not, ◌&&◌, ◌||◌, Option, none, some, List, [], ◌∷◌, ◌++◌, leb, eqb,
  if◌then◌else◌, length, keep, Text, codes, ◌==◌,
}
use panamacompra_collector_b.Archive.{Opportunity, Db}
use panamacompra_collector_b.Crawl.{no_fields, get_closed_crawl_state, update_closed_crawl_state}

pub data Status : Type 0 where
  queued running done cancelled : Status

-- `int(wait_params.get("threshold", 0))`: a number, one below zero, or a ValueError.
pub data Threshold : Type 0 where
  at_most : ℕ → Threshold
  negative malformed : Threshold

pub record Task : Type 0 where
  pub id : Text
  pub label : Text
  pub kind : Text
  pub start_date : Option Text
  pub end_date : Option Text
  pub wait_condition : Text
  pub threshold : Option Threshold
  pub status : Status
  pub created_at : Text
  pub started_at : Option Text
  pub finished_at : Option Text

pub record World : Type 0 where
  pub db : Db
  pub queue : Option (List Task)
  pub settings : List (Text × Text)

-- What `tick` returns, with the label of the task that it is about.
pub data Report : Type 0 where
  completed still_running activated waiting wait_check_failed : Text → Report
  idle : Report

abbrev pub is_running : Status → Bool
is_running running = true
is_running _ = false

abbrev pub is_queued : Status → Bool
is_queued queued = true
is_queued _ = false

unfoldable pub load_queue : World → List Task
load_queue w = elim w.queue [ some tasks ↦ tasks | none ↦ [] ]

unfoldable pub save_queue : List Task → World → World
save_queue tasks w = record w { queue = some tasks }

-- `given` holds the arguments of the call: the label, the kind, the params and the wait condition.
unfoldable pub add_task : World → Text → Text → Task → World × Task
unfolding load_queue save_queue
add_task w id now given =
    let task = record given {
      id = id;
      status = queued;
      created_at = now;
      started_at = none;
      finished_at = none;
    } in
    (save_queue (load_queue w ++ task ∷ []) w, task)

unfoldable pub remove_task : World → Text → Bool × World
unfolding load_queue save_queue keep
remove_task w task_id =
    let tasks = load_queue w in
    let remaining = keep (λ t. not (t.id == task_id)) tasks in
    if eqb (length remaining) (length tasks) then (false, w) else (true, save_queue remaining w)

-- The dictionary that `_apply_monitor_setting` reads from the file, assigns to and writes back.
unfoldable pub apply_monitor_setting : Text → Text → List (Text × Text) → List (Text × Text)
apply_monitor_setting key value [] = (key, value) ∷ []
apply_monitor_setting key value ((k, v) ∷ settings) =
    if k == key then (key, value) ∷ settings else (k, v) ∷ apply_monitor_setting key value settings

abbrev pub column_is : Option Text → Text → Bool
column_is none text = false
column_is (some value) text = value == text

-- SELECT COUNT(*) … WHERE grupo IN ('Closed', 'Cancelled') AND detail_status = 'pending'
unfoldable pub is_pending : Opportunity → Bool
is_pending r =
    (column_is r.grupo (codes "Closed") || column_is r.grupo (codes "Cancelled"))
    && column_is r.detail_status (codes "pending")

unfoldable pub pending_count : Db → ℕ
pending_count db = length (keep is_pending db.opportunities)

-- `none` is the ValueError of `int`.
unfoldable pub within : ℕ → Option Threshold → Option Bool
within count none = some (leb count 0)
within count (some (at_most n)) = some (leb count n)
within count (some negative) = some false
within count (some malformed) = none

unfoldable pub check_wait_condition : Db → Task → Option Bool
check_wait_condition db task =
    if task.wait_condition == codes "closed_pending_below"
    then within (pending_count db) task.threshold
    else some false

abbrev pub or_default : Option Text → Text
or_default none = []
or_default (some value) = value

-- The effects of `activate_task` on the settings and the cursor, for the supported kind.
unfoldable pub prepare : Task → World → World
prepare task w =
    if task.kind == codes "closed_backfill_range"
    then record w {
      settings =
          apply_monitor_setting (codes "PC_CLOSED_BACKFILL_END_DATE") (or_default task.end_date) (
            apply_monitor_setting (codes "PC_CLOSED_BACKFILL_START_DATE")
              (or_default task.start_date) w.settings);
      db =
          update_closed_crawl_state w.db (codes "Closed")
            (record no_fields { page = some 1; complete = some false });
    }
    else w

unfoldable pub start : Text → Task → Task
start now task = record task { status = running; started_at = some now }

unfoldable pub finish : Text → Task → Task
finish now task = record task { status = done; finished_at = some now }

unfoldable pub check_completion : Db → Task → Bool × Db
check_completion db task =
    if task.kind == codes "closed_backfill_range"
    then (let (state, db') = get_closed_crawl_state db (codes "Closed") in
        (state.backfill_complete, db'))
    else (false, db)

-- `running[0]`, with the tasks before and after it.
pub data Split : Type 0 where
  absent : Split
  at : (before : List Task) (task : Task) (after : List Task) → Split

abbrev pub later : Task → Split → Split
later t absent = absent
later t (at before task after) = at (t ∷ before) task after

unfoldable pub first_with : (Status → Bool) → List Task → Split
first_with p [] = absent
first_with p (t ∷ tasks) = if p t.status then at [] t tasks else later t (first_with p tasks)

-- The branch for a task that runs.
unfoldable pub tick_running : Text → World → List Task → Task → List Task → Report × World
tick_running now w before task after =
    let (complete, db') = check_completion w.db task in
    let w' = record w { db = db' } in
    if complete
    then (completed task.label, save_queue (before ++ finish now task ∷ after) w')
    else (still_running task.label, w')

-- The branch for the first queued task, given what its wait condition says.
unfoldable pub try_start :
    Text → World → List Task → Task → List Task → Option Bool → Report × World
try_start now w before task after none = (wait_check_failed task.label, w)
try_start now w before task after (some false) = (waiting task.label, w)
try_start now w before task after (some true) =
    (activated task.label, save_queue (before ++ start now task ∷ after) (prepare task w))

unfoldable pub tick_queued : Text → World → List Task → Task → List Task → Report × World
tick_queued now w before task after =
    try_start now w before task after (check_wait_condition w.db task)

unfoldable pub tick : Text → World → Report × World
tick now w = elim (first_with is_running (load_queue w)) [
  | at before task after ↦ tick_running now w before task after
  | absent ↦ elim (first_with is_queued (load_queue w)) [
    | at before task after ↦ tick_queued now w before task after
    | absent ↦ (idle, w)
  ]
]
