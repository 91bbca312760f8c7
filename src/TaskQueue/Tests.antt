-- ===== src/TaskQueue/Tests.antt =====
-- Runs of the task queue, and its theorems at those inputs.
use panamacompra_collector_b.Prelude.{
  All, ◌≤◌, String, ◌≡◌, refl, inl, false, none, some, List, [], ◌∷◌, ◌++◌, arith, keep, codes,
  ◌==◌,
}
use panamacompra_collector_b.Table
use panamacompra_collector_b.Samples.{archive}
use panamacompra_collector_b.Crawl.{get_closed_crawl_state, set_fields, update_closed_crawl_state}
use panamacompra_collector_b.TaskQueue.{
  Status, queued, done, Task, World, activated, at_most, load_queue, save_queue, add_task,
  remove_task, apply_monitor_setting, is_pending, pending_count, within, check_wait_condition,
  prepare, start, finish, check_completion, first_with, tick_running, try_start, tick_queued, tick,
}
use panamacompra_collector_b.TaskQueue.Order.{Started, tick-Started}
use panamacompra_collector_b.TaskQueue.Alone.{
  running_count, running_in, here, next, ticks, adds, Reach-le_one,
}
use panamacompra_collector_b.TaskQueue.Blocked.{
  NeverReady, Holds, Later, pass, joins, outlook, StillThere, outlook-NeverReady,
}

program : Unit {0}
unfolding codes ◌==◌ keep load_queue save_queue add_task remove_task apply_monitor_setting
    is_pending pending_count within check_wait_condition prepare start finish check_completion
    first_with tick_running try_start tick_queued tick Table.find Table.update
    get_closed_crawl_state set_fields update_closed_crawl_state running_count
program = tt

abbrev task : String → String → Status → Task
task label wait_condition status = record {
  id = codes label;
  label = codes label;
  kind = codes "closed_backfill_range";
  start_date = some (codes "2025-01-01");
  end_date = some (codes "2025-12-31");
  wait_condition = codes wait_condition;
  threshold = some (at_most 0);
  status = status;
  created_at = codes "t0";
  started_at = none;
  finished_at = none;
}

abbrev world : List Task → World
world tasks = record { db = archive; queue = some tasks; settings = [] }

abbrev two : World
two = world (
    task "old" "closed_pending_below" done
    ∷ task "a" "closed_pending_below" queued
    ∷ task "b" "closed_pending_below" queued
    ∷ [])

abbrev stuck : World
stuck = world (task "a" "closed_pending" queued ∷ task "b" "closed_pending_below" queued ∷ [])

starts : (tick (codes "t1") two).0 ≡ activated (codes "a")
unfolding program
starts = refl

sets_dates :
    (tick (codes "t1") two).1.settings
    ≡ (codes "PC_CLOSED_BACKFILL_START_DATE", codes "2025-01-01")
      ∷ (codes "PC_CLOSED_BACKFILL_END_DATE", codes "2025-12-31")
      ∷ []
unfolding program
sets_dates = refl

removes_nothing : (remove_task two (codes "c")).0 ≡ false
unfolding program
removes_nothing = refl

tick-Started_example : Started (codes "t1") two (codes "a") (tick (codes "t1") two).1
tick-Started_example = tick-Started (codes "t1") two (codes "a") starts

two_alone : running_in two ≤ 1
unfolding program
two_alone = omega arith

Reach-le_one_example :
    running_in
      (tick
        (codes "t2")
        (add_task (tick (codes "t1") two).1 (codes "c") (codes "t1") (task "c" "" queued)).0).1
    ≤ 1
Reach-le_one_example =
    Reach-le_one
      (next
        (next (next here (ticks (codes "t1"))) (adds (codes "c") (codes "t1") (task "c" "" queued)))
        (ticks (codes "t2")))
      two_alone

misspelt : NeverReady (task "a" "closed_pending" queued)
unfolding program
misspelt = inl refl

stuck_queue :
    load_queue stuck
    ≡ [] ++ task "a" "closed_pending" queued ∷ task "b" "closed_pending_below" queued ∷ []
unfolding program
stuck_queue = refl

-- A pass, a task that is added, and a pass on an archive that has nothing pending.
abbrev events : List Later
events =
    pass (codes "t1") stuck.db []
    ∷ joins (codes "c") (codes "t2") (task "c" "closed_pending_below" queued)
    ∷ pass (codes "t3") (record archive { opportunities = [] }) []
    ∷ []

outlook-NeverReady_example :
    All (Holds (task "a" "closed_pending" queued)) (outlook events stuck).0
    × StillThere []
        (task "a" "closed_pending" queued)
        (task "b" "closed_pending_below" queued ∷ [])
        (outlook events stuck).1
outlook-NeverReady_example =
    outlook-NeverReady [] (task "a" "closed_pending" queued) events stuck
      (task "b" "closed_pending_below" queued ∷ []) (refl, (refl, tt)) stuck_queue tt refl misspelt
