-- ===== src/Scheduler.antt =====
-- tasks/scheduler.py: when a deployed workflow with a schedule is run. Times are microseconds.
pub mod Runs
mod Tests
use powabase_ai.Prelude.{
  ℕ, ◌+◌, ◌-◌, ◌*◌, Bool, true, false, not, ◌&&◌, Option, none, some, List, [], ◌∷◌, map, String,
  leb, ltb, ◌=s◌, if◌then◌else◌,
}

-- A start or an end as the schedule gives it: missing or empty, a text that does not parse, a time
-- without an offset, or a time with one.
pub data When : Type 0 where
  absent invalid naive : When
  at_time : ℕ → When

-- schedule_config, by the keys that are read; the interval is in seconds
pub record Schedule : Type 0 where
  pub enabled : Bool
  pub max_runs : Option ℕ
  pub start_at : When
  pub end_at : When
  pub sched_type : Option String
  pub interval_seconds : Option ℕ
  pub cron : Option String

-- A row of workflows, with the failed rows that the scheduler adds to workflow_executions, by
-- their times.
pub record Workflow : Type 0 where
  pub deployed : Bool
  pub schedule : Option Schedule
  pub schedule_run_count : ℕ
  pub last_scheduled_at : Option ℕ
  pub failed_runs : List ℕ

-- What `_execute_scheduled_workflow` does: returns, aborts with BadRequest, and then the INSERT of
-- the failed row succeeds or not, or raises anything else.
pub data Execution : Type 0 where
  returned : Execution
  bad_request : Bool → Execution
  crashed : Execution

pub data Outcome : Type 0 where
  -- not run, and nothing written
  left : Outcome
  -- `_disable_schedule`
  disabled : Outcome
  executed : Outcome
  -- an exception, logged by the loop over the rows
  raised : Outcome

-- What a bound of the window makes of the time.
pub data Bound : Type 0 where
  inside outside unreadable incomparable : Bound

abbrev pub start_bound : ℕ → When → Bound
start_bound now absent = inside
start_bound now invalid = unreadable
start_bound now naive = incomparable
start_bound now (at_time start) = if ltb now start then outside else inside

abbrev pub end_bound : ℕ → When → Bound
end_bound now absent = inside
end_bound now invalid = unreadable
end_bound now naive = incomparable
end_bound now (at_time end) = if ltb end now then outside else inside

abbrev pub or_default {ℓ} : {A : Type ℓ} → Option A → A → A
or_default none d = d
or_default (some a) d = a

-- `max_runs is not None and run_count >= max_runs`
abbrev pub used_up : Option ℕ → ℕ → Bool
used_up none count = false
used_up (some max) count = leb max count

abbrev pub second : ℕ
second = 1000000

-- `none` for a cron expression that croniter refuses
abbrev pub interval_due : ℕ → Schedule → Option ℕ → Option Bool
interval_due now s none = some true
interval_due now s (some last) = some (leb (last + or_default s.interval_seconds 300 * second) now)

abbrev pub turned_off : Option Schedule → Option Schedule
turned_off none = none
turned_off (some s) = some (record s { enabled = false })

-- `next_fire` is croniter's next time after one, none for ValueError or KeyError
module _ (next_fire : String → ℕ → Option ℕ) where
  abbrev pub fires_by : ℕ → Option ℕ → Option Bool
  fires_by now none = none
  fires_by now (some fire) = some (leb fire now)

  abbrev pub cron_due : ℕ → Schedule → Option ℕ → Option Bool
  cron_due now s none = some true
  cron_due now s (some last) = fires_by now (next_fire (or_default s.cron "0 * * * *") last)

  unfoldable pub due : ℕ → Schedule → Option ℕ → Option Bool
  due now s last =
      if or_default s.sched_type "interval" =s "interval"
      then interval_due now s last
      else if or_default s.sched_type "interval" =s "cron"
      then cron_due now s last
      else some false

  -- _disable_schedule
  unfoldable pub disable_schedule : Workflow → Workflow
  disable_schedule w = record w { schedule = turned_off w.schedule }

  -- the last UPDATE
  unfoldable pub update_tracking : ℕ → Workflow → Workflow
  update_tracking now w = record w {
    schedule_run_count = w.schedule_run_count + 1;
    last_scheduled_at = some now;
  }

  unfoldable pub execute : ℕ → Execution → Workflow → Outcome × Workflow
  unfolding update_tracking
  execute now returned w = (executed, update_tracking now w)
  execute now (bad_request true) w =
      (executed, update_tracking now (record w { failed_runs = now ∷ w.failed_runs }))
  execute now (bad_request false) w = (executed, update_tracking now w)
  execute now crashed w = (raised, w)

  abbrev pub if_due : ℕ → Execution → Workflow → Option Bool → Outcome × Workflow
  if_due now e w (some true) = execute now e w
  if_due now e w _ = (left, w)

  abbrev pub in_bound : Bound → Workflow → Outcome × Workflow → Outcome × Workflow
  in_bound inside w rest = rest
  in_bound outside w rest = (left, w)
  in_bound unreadable w rest = (disabled, disable_schedule w)
  in_bound incomparable w rest = (raised, w)

  -- _maybe_execute_scheduled
  unfoldable pub maybe_execute_scheduled : ℕ → Execution → Schedule → Workflow → Outcome × Workflow
  unfolding due
  maybe_execute_scheduled now e s w =
      if used_up s.max_runs w.schedule_run_count
      then (left, w)
      else in_bound (start_bound now s.start_at) w
          (in_bound (end_bound now s.end_at) w (if_due now e w (due now s w.last_scheduled_at)))

  -- _process_scheduled_workflows for one row: its WHERE, and the row's turn in the loop
  unfoldable pub scheduled_row : ℕ → Execution → Workflow → Option Schedule → Outcome × Workflow
  unfolding maybe_execute_scheduled
  scheduled_row now e w none = (left, w)
  scheduled_row now e w (some s) =
      if w.deployed && s.enabled then maybe_execute_scheduled now e s w else (left, w)

  unfoldable pub process_row : ℕ → Execution → Workflow → Outcome × Workflow
  unfolding scheduled_row
  process_row now e w = scheduled_row now e w w.schedule

  abbrev pub noting : ℕ → Outcome → List ℕ → List ℕ
  noting now executed rest = now ∷ rest
  noting now _ rest = rest

  -- one row through the ticks of the scheduler, each with its time and with what a run at it would
  -- do; the times of the runs that are counted
  unfoldable pub counted_runs : List (ℕ × Execution) → Workflow → List ℕ
  unfolding process_row
  counted_runs [] w = []
  counted_runs ((now, e) ∷ ticks) w =
      let (outcome, w') = process_row now e w in
      let rest = counted_runs ticks w' in noting now outcome rest
