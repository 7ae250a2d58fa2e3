-- ===== src/VectorIndex/Task/Budget.antt =====
-- How often the task of tasks/indexing.py that reconciles a knowledge base is delivered.
use powabase_ai.Prelude.{
  ℕ, ◌+◌, ◌-◌, ◌≤◌, ◌≡◌, ◌≢◌, refl, Bool, true, false, List, [], ◌∷◌, String, arith, ◌⊎◌,
  if◌then◌else◌, leb,
}
use powabase_ai.VectorIndex.Ensure.{
  Outcome, outcome, outcome_waits_for_the_table, outcome_needs_another_attempt,
}
use powabase_ai.VectorIndex.Task.{
  Message, counted_retries, Marks, World, Cause, error, wait_exhausted, Answer, retrying, failed,
  Env, is_alive_in, come_back, wait_for_the_table, is_other, current_waiter, mark_pending,
  clear_pending, on_busy, on_unrepaired, on_exception, run, ensure_task,
}

-- at most six retries that are counted, and 288 waits
abbrev pub InBudget : Message → Type 0
InBudget m = (m.table_waits ≤ m.retries) × ((m.retries ≤ m.table_waits + 6) × (m.table_waits ≤ 288))

-- the retries that may follow
abbrev pub left : Message → ℕ
left m = (6 - counted_retries m) + (288 - m.table_waits)

module _ (id : String) (env : Env) (m : Message) (within : InBudget m) where
  -- a retry uses up one of those that are left
  abbrev UsesOne : Answer → Type 0
  UsesOne a = (next : Message) → a ≡ retrying next → InBudget next × (left next + 1 ≡ left m)

-- What becomes of a delivery: it runs, or its worker is killed, whatever it has done to the keys, and
-- the broker delivers the same message again.
pub data Delivery : Type 0 where
  runs : (env : Env) → Delivery
  is_lost : (effect : World → World) → Delivery

abbrev one_more : ℕ × World → ℕ × World
one_more (count, end) = (count + 1, end)

-- what a delivery leads to, with the deliveries of its retry
abbrev follow : Answer → (Message → ℕ × World) → World → ℕ × World
follow (retrying next) later w = one_more (later next)
follow _ later w = (1, w)

-- The deliveries of a task until one ends it, each with what others do before it.
unfoldable pub deliveries : String → List ((World → World) × Delivery) → Message → World → ℕ × World
deliveries id [] m w = (0, w)
deliveries id ((others, runs env) ∷ later) m w =
    let (a, w') = ensure_task id env m (others w) in
    follow a (λ next. deliveries id later next w') w'
deliveries id ((others, is_lost effect) ∷ later) m w =
    one_more (deliveries id later m (effect (others w)))

-- how often a delivery is lost with its worker
abbrev pub losses : List ((World → World) × Delivery) → ℕ
losses [] = 0
losses ((others, runs env) ∷ later) = losses later
losses ((others, is_lost effect) ∷ later) = losses later + 1

module _ (id : String) (env : Env) (m : Message) (within : InBudget m)
    (takes : env.broker_takes ≡ true) where
  abbrev outcome_of_pass : Outcome
  outcome_of_pass = outcome env.pass.report

  -- what explains a failure
  abbrev pub IsDue : Cause → Type 0
  IsDue error = (env.pass.raised ≡ true) × ((env.is_transient ≡ false) ⊎ (counted_retries m ≡ 6))
  IsDue wait_exhausted =
      (env.pass.raised ≡ false)
      × ((outcome_waits_for_the_table (outcome env.pass.report) ≡ true)
          × (((is_alive_in id env m (outcome env.pass.report) ≡ true) × (m.table_waits ≡ 288))
              ⊎ ((is_alive_in id env m (outcome env.pass.report) ≡ false)
                  × (counted_retries m ≡ 6))))

  -- a failure has one of the causes
  abbrev FailsFor : Answer → Type 0
  FailsFor a = (cause : Cause) → a ≡ failed cause → IsDue cause

  FailsFor-if :
      (b : Bool) (x y : Answer × World)
      → (b ≡ true → FailsFor x.0)
      → (b ≡ false → FailsFor y.0)
      → FailsFor (if b then x else y).0
  FailsFor-if true x y hx hy = hx refl
  FailsFor-if false x y hx hy = hy refl

  come_back-goes_on :
      (cause : Cause) → leb 6 (counted_retries m) ≡ false → come_back id env m ≢ failed cause
  come_back-goes_on cause more h = absurd (ground (arith, within, takes, more, h))

  wait_for_the_table-IsDue :
      (cause : Cause)
      → wait_for_the_table id env m ≡ failed cause
      → (cause ≡ wait_exhausted) × (m.table_waits ≡ 288)
  wait_for_the_table-IsDue cause h = ground (arith, within, takes, h)

  on_exception-FailsFor : env.pass.raised ≡ true → FailsFor (on_exception id env m)
  on_exception-FailsFor raised error h = (raised, ground (arith, within, takes, h))
  on_exception-FailsFor raised wait_exhausted h = absurd (ground (arith, within, takes, h))

  on_busy-FailsFor :
      env.pass.raised ≡ false
      → outcome_waits_for_the_table outcome_of_pass ≡ true
      → (marks : Marks) → FailsFor (on_busy id env m outcome_of_pass marks).0
  unfolding on_busy
  on_busy-FailsFor quiet busy marks error h =
      absurd (ground (arith, h, come_back-goes_on error, wait_for_the_table-IsDue error))
  on_busy-FailsFor quiet busy marks wait_exhausted h = (
    quiet,
    (
      busy,
      ground (
        arith,
        within,
        h,
        come_back-goes_on wait_exhausted,
        wait_for_the_table-IsDue wait_exhausted,
      ),
    ),
  )

  on_unrepaired-FailsFor : (o : Outcome) → FailsFor (on_unrepaired id env m o)
  on_unrepaired-FailsFor o cause h = absurd (ground (arith, h, come_back-goes_on cause))

  run-FailsFor : (w : World) → FailsFor (run id env m w).0
  unfolding run
  run-FailsFor w = FailsFor-if env.pass.raised _ _ on_exception-FailsFor (λ quiet.
      FailsFor-if (outcome_waits_for_the_table outcome_of_pass) _ _
        (λ busy. on_busy-FailsFor quiet busy (env.during w.marks))
        (λ free.
          FailsFor-if (outcome_needs_another_attempt outcome_of_pass) _ _
            (λ again. on_unrepaired-FailsFor outcome_of_pass)
            (λ over cause h. absurd (ground (arith, h)))))

  -- With a broker that takes every message, Celery's ceiling never ends a task within its budget. A
  -- task that fails raises an exception that left the reconcile, which is no transient one or met
  -- the seventh counted attempt, or gives up on a busy table: after 288 waits for a running build,
  -- or at the seventh counted attempt where none is seen to run.
  pub ensure_task-failed :
      (w : World) (cause : Cause) → (ensure_task id env m w).0 ≡ failed cause → IsDue cause
  unfolding ensure_task
  ensure_task-failed w =
      let marked = env.before_look (mark_pending id env (env.before_mark w.marks)) in
      FailsFor-if (is_other id (current_waiter id env w.marks)) _ _
        (λ waits.
          FailsFor-if (is_other id (current_waiter id env marked)) _ _
            (λ still cause h. absurd (ground (arith, h)))
            (λ gone.
              run-FailsFor (record w { marks = clear_pending id env (env.before_clear marked) })))
        (λ own. run-FailsFor w)
