-- ===== src/Scheduler/Tests.antt =====
-- A schedule of every ten minutes that may run twice, from minute 5 on.
use powabase_ai.Prelude.{ℕ, ◌*◌, ◌≡◌, refl, true, Option, none, some, List, [], ◌∷◌, String}
use powabase_ai.Scheduler.{
  When, at_time, absent, naive, Schedule, Workflow, Execution, returned, bad_request, crashed,
  second, counted_runs, process_row, scheduled_row, maybe_execute_scheduled, due, execute,
  update_tracking,
}
use powabase_ai.Scheduler.Runs.{Spaced, counted_runs-Spaced, counted_runs-naive}

abbrev minute : ℕ
minute = 60 * second

abbrev every_ten : When → Schedule
every_ten start = record {
  enabled = true;
  max_runs = some 2;
  start_at = start;
  end_at = absent;
  sched_type = none;
  interval_seconds = some 600;
  cron = none;
}

abbrev fresh : When → Workflow
fresh start = record {
  deployed = true;
  schedule = some (every_ten start);
  schedule_run_count = 0;
  last_scheduled_at = none;
  failed_runs = [];
}

-- croniter is not asked
abbrev never : String → ℕ → Option ℕ
never expression last = none

abbrev ticks : List (ℕ × Execution)
ticks =
    (1 * minute, returned)
    ∷ (6 * minute, bad_request true)
    ∷ (7 * minute, returned)
    ∷ (17 * minute, crashed)
    ∷ (18 * minute, returned)
    ∷ (40 * minute, returned)
    ∷ []

runs_at : counted_runs never ticks (fresh (at_time (5 * minute))) ≡ 6 * minute ∷ 18 * minute ∷ []
unfolding counted_runs process_row scheduled_row maybe_execute_scheduled due execute update_tracking
runs_at = refl

counted_runs-Spaced_example :
    Spaced never (600 * second) 0 (counted_runs never ticks (fresh (at_time (5 * minute))))
counted_runs-Spaced_example =
    counted_runs-Spaced never ticks (every_ten (at_time (5 * minute)))
      (fresh (at_time (5 * minute))) refl refl

counted_runs-naive_example :
    (counted_runs never ticks (fresh naive) ≡ [])
    × ((now : ℕ) (e : Execution) → (process_row never now e (fresh naive)).1 ≡ fresh naive)
counted_runs-naive_example =
    counted_runs-naive never ticks (every_ten naive) (fresh naive) refl refl
