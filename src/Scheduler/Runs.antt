-- ===== src/Scheduler/Runs.antt =====
-- How often, how densely and when the runs of a schedule are.
use powabase_ai.Prelude.{
  ℕ, ◌+◌, ◌*◌, ◌≤◌, ◌<◌, ◌≡◌, refl, ap, ◌∙◌, subst, sym, Bool, true, false, ◌&&◌, Option, none,
  some, List, [], ◌∷◌, String, arith, ◌=s◌, if◌then◌else◌, length, All,
}
use powabase_ai.Scheduler.{
  Schedule, Workflow, Execution, Outcome, Bound, inside, executed, returned, bad_request, crashed,
  naive, start_bound, end_bound, or_default, used_up, second, due, update_tracking,
  disable_schedule, maybe_execute_scheduled, process_row, counted_runs, left, raised, disabled,
  in_bound, if_due, execute, scheduled_row, noting, turned_off, outside, unreadable, incomparable,
}

-- The window as the run's time sees it.
abbrev pub InWindow : Schedule → ℕ → Type 0
InWindow s now = (start_bound now s.start_at ≡ inside) × (end_bound now s.end_at ≡ inside)

-- What a counted run found, and what it leaves.
pub record Counted (next_fire : String → ℕ → Option ℕ) (now : ℕ) (s : Schedule) (w w' : Workflow)
    : Type 0 where
  pub before_limit : used_up s.max_runs w.schedule_run_count ≡ false
  pub in_window : InWindow s now
  pub was_due : due next_fire now s w.last_scheduled_at ≡ some true
  pub enabled : s.enabled ≡ true
  pub schedule_kept : w'.schedule ≡ w.schedule
  pub count : w'.schedule_run_count ≡ w.schedule_run_count + 1
  pub last : w'.last_scheduled_at ≡ some now

module _ (next_fire : String → ℕ → Option ℕ) where
  -- What a turn of a row leaves, by its outcome.
  abbrev Turn : ℕ → Schedule → Workflow → Outcome × Workflow → Type 0
  Turn now s w (executed, w') = Counted next_fire now s w w'
  Turn now s w (left, w') = w' ≡ w
  Turn now s w (raised, w') = w' ≡ w
  Turn now s w (disabled, w') = w' ≡ disable_schedule next_fire w

  module _ (now : ℕ) (e : Execution) (s : Schedule) (w : Workflow) (h : w.schedule ≡ some s) where
    if-Turn :
        (c : Bool) (y : Outcome × Workflow)
        → (c ≡ false → Turn now s w y)
        → Turn now s w (if c then (left, w) else y)
    if-Turn true y hy = refl
    if-Turn false y hy = hy refl

    unless-Turn :
        (c : Bool) (y : Outcome × Workflow)
        → (c ≡ true → Turn now s w y)
        → Turn now s w (if c then y else (left, w))
    unless-Turn true y hy = hy refl
    unless-Turn false y hy = refl

    in_bound-Turn :
        (b : Bound) (y : Outcome × Workflow)
        → (b ≡ inside → Turn now s w y)
        → Turn now s w (in_bound next_fire b w y)
    in_bound-Turn inside y hy = hy refl
    in_bound-Turn outside y hy = refl
    in_bound-Turn unreadable y hy = refl
    in_bound-Turn incomparable y hy = refl

    if_due-Turn :
        (d : Option Bool)
        → (d ≡ some true → Turn now s w (execute next_fire now e w))
        → Turn now s w (if_due next_fire now e w d)
    if_due-Turn none hy = refl
    if_due-Turn (some false) hy = refl
    if_due-Turn (some true) hy = hy refl

    module _ (free : used_up s.max_runs w.schedule_run_count ≡ false) (window : InWindow s now)
        (ready : due next_fire now s w.last_scheduled_at ≡ some true) (on : s.enabled ≡ true) where
      Counted-update_tracking :
          (failures : List ℕ)
          → Counted next_fire now s w
              (update_tracking next_fire now (record w { failed_runs = failures }))
      unfolding update_tracking
      Counted-update_tracking failures = record {
        before_limit = free;
        in_window = window;
        was_due = ready;
        enabled = on;
        schedule_kept = refl;
        count = refl;
        last = refl;
      }

      execute-Turn : (run : Execution) → Turn now s w (execute next_fire now run w)
      unfolding execute
      execute-Turn returned = Counted-update_tracking w.failed_runs
      execute-Turn (bad_request true) = Counted-update_tracking (now ∷ w.failed_runs)
      execute-Turn (bad_request false) = Counted-update_tracking w.failed_runs
      execute-Turn crashed = refl

    process_row-Turn : Turn now s w (process_row next_fire now e w)
    unfolding process_row scheduled_row maybe_execute_scheduled
    process_row-Turn =
        subst (λ o. Turn now s w (scheduled_row next_fire now e w o)) (sym h)
          (unless-Turn (w.deployed && s.enabled) _ (λ on.
            if-Turn (used_up s.max_runs w.schedule_run_count) _ (λ free.
              in_bound-Turn (start_bound now s.start_at) _ (λ started.
                in_bound-Turn (end_bound now s.end_at) _ (λ open_still.
                  if_due-Turn (due next_fire now s w.last_scheduled_at) (λ ready.
                    execute-Turn free (started, open_still) ready (ground (arith, on)) e))))))

  disabled_row :
      (now : ℕ) (e : Execution) (s : Schedule) (w : Workflow)
      → w.schedule ≡ some s
      → s.enabled ≡ false
      → process_row next_fire now e w ≡ (left, w)
  unfolding process_row scheduled_row
  disabled_row now e s w h off =
      subst (λ o. scheduled_row next_fire now e w o ≡ (left, w)) (sym h) (ground (arith, off))

  -- a disabled schedule stays as it is and runs no more
  counted_runs-disabled :
      (ticks : List (ℕ × Execution)) (s : Schedule) (w : Workflow)
      → w.schedule ≡ some s
      → s.enabled ≡ false
      → counted_runs next_fire ticks w ≡ []
  unfolding counted_runs
  counted_runs-disabled [] s w h off = refl
  counted_runs-disabled ((now, e) ∷ ticks) s w h off =
      ap (λ (p : Outcome × Workflow). noting next_fire now p.0 (counted_runs next_fire ticks p.1))
        (disabled_row now e s w h off)
      ∙ counted_runs-disabled ticks s w h off

  module _ (s : Schedule) (P : Workflow → List ℕ → Type 0) (nil : (w : Workflow) → P w [])
      (step : (now : ℕ) (w w' : Workflow) (rest : List ℕ)
        → Counted next_fire now s w w'
        → P w' rest
        → P w (now ∷ rest)) where
    after_turn :
        (now : ℕ) (ticks : List (ℕ × Execution)) (w : Workflow)
        → w.schedule ≡ some s
        → ((v : Workflow) → v.schedule ≡ some s → P v (counted_runs next_fire ticks v))
        → (p : Outcome × Workflow) → Turn now s w p
        → P w (noting next_fire now p.0 (counted_runs next_fire ticks p.1))
    unfolding disable_schedule
    after_turn now ticks w h rec (executed, w') c = step now w w' _ c (rec w' (c.schedule_kept ∙ h))
    after_turn now ticks w h rec (left, w') same =
        subst (λ v. P w (counted_runs next_fire ticks v)) (sym same) (rec w h)
    after_turn now ticks w h rec (raised, w') same =
        subst (λ v. P w (counted_runs next_fire ticks v)) (sym same) (rec w h)
    after_turn now ticks w h rec (disabled, w') off =
        subst (P w)
          (sym (
            counted_runs-disabled ticks (record s { enabled = false }) w'
              (ap (λ (v : Workflow). v.schedule) off ∙ ap turned_off h) refl))
          (nil w)

    runs_induction :
        (ticks : List (ℕ × Execution)) (w : Workflow)
        → w.schedule ≡ some s
        → P w (counted_runs next_fire ticks w)
    unfolding counted_runs
    runs_induction [] w h = nil w
    runs_induction ((now, e) ∷ ticks) w h =
        after_turn now ticks w h (runs_induction ticks) (process_row next_fire now e w)
          (process_row-Turn now e s w h)

  -- Runs from `t` on that are a gap or more apart.
  abbrev pub Spaced : ℕ → ℕ → List ℕ → Type 0
  Spaced gap t [] = Unit
  Spaced gap t (now ∷ rest) = (t ≤ now) × Spaced gap (now + gap) rest

  -- the first time at which an interval schedule is due
  abbrev pub due_from : ℕ → Option ℕ → ℕ
  due_from gap none = 0
  due_from gap (some last) = last + gap

  interval_due_from :
      (now : ℕ) (s : Schedule) (last : Option ℕ)
      → (or_default s.sched_type "interval" =s "interval") ≡ true
      → due next_fire now s last ≡ some true
      → due_from (or_default s.interval_seconds 300 * second) last ≤ now
  unfolding due
  interval_due_from now s none kind d = omega arith
  interval_due_from now s (some last) kind d = ground (arith, kind, d)

  module _ (ticks : List (ℕ × Execution)) (s : Schedule) (w : Workflow)
      (h : w.schedule ≡ some s) where
    limit_left :
        (max : ℕ)
        → s.max_runs ≡ some max
        → (v : Workflow) → used_up s.max_runs v.schedule_run_count ≡ false
        → v.schedule_run_count < max
    limit_left max limit v free = ground (arith, limit, free)

    -- Through any ticks and whatever becomes of each run, the runs of a schedule that are counted
    -- (all but those that end in an unexpected exception) are in its window, from `start_at` to
    -- `end_at`, and no more than `max_runs` with those counted before. The schedule has a
    -- `max_runs` that the count does not exceed at the start.
    counted_runs-le :
        (max : ℕ)
        → s.max_runs ≡ some max
        → w.schedule_run_count ≤ max
        → (length (counted_runs next_fire ticks w) + w.schedule_run_count ≤ max)
          × All (InWindow s) (counted_runs next_fire ticks w)
    counted_runs-le max limit b =
        let (bound, inside_window) =
          runs_induction s
            (λ v runs.
              (v.schedule_run_count ≤ max → length runs + v.schedule_run_count ≤ max)
              × All (InWindow s) runs)
            (λ v. (λ start. omega (arith, start), tt))
            (λ now v v' rest c r. (
              λ start. omega (
                arith,
                c.count,
                limit_left max limit v c.before_limit,
                r.0 (omega (arith, c.count, limit_left max limit v c.before_limit)),
              ),
              (c.in_window, r.1),
            ))
            ticks w h in
        (bound b, inside_window)

    -- With an interval schedule, any two runs that are counted are at least the interval apart, the
    -- first also from the last run before, also when a run is aborted because its model is not
    -- available and when writing its failed row fails too.
    pub counted_runs-Spaced :
        (or_default s.sched_type "interval" =s "interval") ≡ true
        → let gap = or_default s.interval_seconds 300 * second in
          Spaced gap (due_from gap w.last_scheduled_at) (counted_runs next_fire ticks w)
    counted_runs-Spaced kind =
        let gap = or_default s.interval_seconds 300 * second in
        runs_induction s (λ v runs. Spaced gap (due_from gap v.last_scheduled_at) runs) (λ v. tt)
          (λ now v v' rest c r. (
            interval_due_from now s v.last_scheduled_at kind c.was_due,
            subst (λ l. Spaced gap (due_from gap l) rest) c.last r,
          ))
          ticks w h

    -- A schedule whose start has no offset from UTC never runs, and no tick changes its row, so it
    -- is not disabled either.
    pub counted_runs-naive :
        s.start_at ≡ naive
        → (counted_runs next_fire ticks w ≡ [])
          × ((now : ℕ) (e : Execution) → (process_row next_fire now e w).1 ≡ w)
    unfolding process_row scheduled_row maybe_execute_scheduled
    counted_runs-naive start = (
      runs_induction s (λ v runs. runs ≡ []) (λ v. refl)
          (λ now v v' rest c r. ground (arith, start, c.in_window.0)) ticks w h,
      λ now e.
          subst (λ o. (scheduled_row next_fire now e w o).1 ≡ w) (sym h) (ground (arith, start)),
    )
