-- ===== src/VectorIndex/Task.antt =====
-- tasks/indexing.py: the task ensure_per_kb_vector_index, which runs a reconcile, waits for the table
-- and comes back. Between two commands to Redis others may change its keys; a key that expires is
-- such a change. Redis and the broker may fail. Log lines and countdowns are left out.
mod Budget
mod Handover
mod Tests
use powabase_ai.Prelude.{
  ℕ, ◌+◌, ◌-◌, Bool, true, false, not, ◌&&◌, Option, none, some, List, [], ◌∷◌, String, ◌=s◌, ltb,
  leb, if◌then◌else◌,
}
use powabase_ai.VectorIndex.Reconcile.{Pass}
use powabase_ai.VectorIndex.Ensure.{
  Outcome, outcome, outcome_waits_for_the_table, outcome_needs_another_attempt,
}

-- PG_BM25_TASK_MAX_RETRIES
abbrev pub max_retries : ℕ
max_retries = 6

-- PER_KB_TABLE_MAX_WAITS
abbrev pub max_waits : ℕ
max_waits = 288

-- A message of the task: Celery's count of its retries, and the waits among them.
pub record Message : Type 0 where
  pub retries : ℕ
  pub table_waits : ℕ

-- _counted_retries
abbrev pub counted_retries : Message → ℕ
counted_retries m = m.retries - m.table_waits

-- The keys of a knowledge base in Redis: the waiter, and whether a dispatch is pending.
pub record Marks : Type 0 where
  pub waiter : Option String
  pub pending : Bool

-- The keys, and how often the task was sent for dispatches that a waiter superseded.
pub record World : Type 0 where
  pub marks : Marks
  pub sent_again : ℕ

-- What a task fails with: an exception that it raises again, or PerKbVectorIndexTableWaitExhausted.
pub data Cause : Type 0 where
  error wait_exhausted : Cause

pub data Answer : Type 0 where
  returned : (o : Outcome) → Answer
  superseded : Answer
  failed : (cause : Cause) → Answer
  retrying : (m : Message) → Answer

-- What a delivery meets: whether Redis answers, what others do to its keys, how the reconcile ends,
-- and whether the broker takes a message.
pub record Env : Type 0 where
  pub redis_answers : Bool
  pub before_mark : Marks → Marks
  pub before_look : Marks → Marks
  pub before_clear : Marks → Marks
  pub during : Marks → Marks
  pub after_set : Marks → Marks
  pub after_get : Marks → Marks
  pub before_pending : Marks → Marks
  pub before_release : Marks → Marks
  pub pass : Pass
  -- is_transient_db_error of the exception that left the reconcile
  pub is_transient : Bool
  pub broker_takes : Bool

-- `waiter and waiter != task_id`
abbrev pub is_other : String → Option String → Bool
is_other id none = false
is_other id (some t) = not (t =s id)

module _ (id : String) (env : Env) where
  -- _current_waiter
  abbrev pub current_waiter : Marks → Option String
  current_waiter m = if env.redis_answers then m.waiter else none

  -- _mark_pending
  abbrev pub mark_pending : Marks → Marks
  mark_pending m = if env.redis_answers then record m { pending = true } else m

  -- _clear_pending
  abbrev pub clear_pending : Marks → Marks
  clear_pending m = if env.redis_answers then record m { pending = false } else m

  -- the second SET of _claim_waiter
  abbrev pub claim_free : Marks → String × Marks
  claim_free m = elim m.waiter [ none ↦ (id, record m { waiter = some id }) | some t ↦ (id, m) ]

  -- the GET of _claim_waiter, and what follows it
  abbrev pub claim_taken : Marks → String × Marks
  claim_taken m = elim m.waiter [ none ↦ claim_free (env.after_get m) | some t ↦ (t, m) ]

  -- _claim_waiter
  unfoldable pub claim_waiter : Marks → String × Marks
  claim_waiter m =
      if env.redis_answers
      then elim m.waiter [
        | none ↦ (id, record m { waiter = some id })
        | some t ↦ claim_taken (env.after_set m)
      ]
      else (id, m)

  -- _release_waiter, with the dispatch of what the task superseded
  unfoldable pub release_waiter : World → World
  release_waiter w =
      if env.redis_answers && elim w.marks.waiter [ none ↦ false | some t ↦ t =s id ]
      then record {
        marks = record { waiter = none; pending = false };
        sent_again = if w.marks.pending && env.broker_takes then w.sent_again + 1 else w.sent_again;
      }
      else w

  module _ (m : Message) where
    -- _reschedule: Celery refuses a retry that its ceiling does not allow
    abbrev pub reschedule : ℕ → Message → Answer
    reschedule ceiling next =
        if leb (m.retries + 1) ceiling && env.broker_takes then retrying next else failed error

    -- a retry that is counted
    abbrev pub come_back : Answer
    come_back = reschedule (max_retries + m.table_waits) (record m { retries = m.retries + 1 })

    -- _wait_for_the_table
    abbrev pub wait_for_the_table : Answer
    wait_for_the_table =
        if leb max_waits m.table_waits
        then failed wait_exhausted
        else reschedule (max_retries + m.table_waits + 1)
            (record { retries = m.retries + 1; table_waits = m.table_waits + 1 })

    abbrev pub is_alive_in : Outcome → Bool
    is_alive_in o = elim o.build_alive [ none ↦ false | some alive ↦ alive ]

    -- the waiter's answer to a busy table
    abbrev pub busy_answer : Outcome → Answer
    busy_answer o =
        if is_alive_in o
        then wait_for_the_table
        else if leb max_retries (counted_retries m)
        then failed wait_exhausted
        else come_back

    -- `if outcome_waits_for_the_table(outcome)`
    unfoldable pub on_busy : Outcome → Marks → Answer × Marks
    unfolding claim_waiter
    on_busy o marks =
        let (waiter, marks') = claim_waiter marks in
        if waiter =s id
        then (busy_answer o, marks')
        else (superseded, mark_pending (env.before_pending marks'))

    -- `if outcome_needs_another_attempt(outcome)`
    abbrev pub on_unrepaired : Outcome → Answer
    on_unrepaired o = if leb max_retries (counted_retries m) then returned o else come_back

    abbrev pub on_exception : Answer
    on_exception =
        if not env.is_transient
        then failed error
        else if leb max_retries (counted_retries m)
        then failed error
        else come_back

    -- `waiting["kept"]`: a retry that waits for the table
    abbrev pub is_retrying : Answer → Bool
    is_retrying (retrying next) = true
    is_retrying _ = false

    -- `finally`
    abbrev pub finally : Bool → Answer → World → Answer × World
    finally kept a w =
        let w' = record w { marks = env.before_release w.marks } in
        (a, if kept then w' else release_waiter w')

    -- _ensure_per_kb_vector_index, inside the `try` of the task
    unfoldable pub run : World → Answer × World
    unfolding on_busy
    run w =
        let marks = env.during w.marks in
        let o = outcome env.pass.report in
        let (a, marks') = on_busy o marks in
        if env.pass.raised
        then finally false on_exception (record w { marks = marks })
        else if outcome_waits_for_the_table o
        then finally (is_retrying a) a (record w { marks = marks' })
        else if outcome_needs_another_attempt o
        then finally false (on_unrepaired o) (record w { marks = marks })
        else finally false (returned o) (record w { marks = marks })

    -- ensure_per_kb_vector_index, as a task
    unfoldable pub ensure_task : World → Answer × World
    unfolding run
    ensure_task w =
        let marked = env.before_look (mark_pending (env.before_mark w.marks)) in
        if is_other id (current_waiter w.marks)
        then if is_other id (current_waiter marked)
          then (superseded, record w { marks = marked })
          else run (record w { marks = clear_pending (env.before_clear marked) })
        else run w
