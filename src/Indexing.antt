-- ===== src/Indexing.antt =====
-- tasks/indexing.py and tasks/watchdog.py: who may run the indexing of a source, and how often. The
-- table is a function of the id, with the columns that the protocol reads and writes.
pub mod Watchdog
pub mod Claims
pub mod Budget
pub mod Recovery
pub mod Dispatch
mod Tests
use powabase_ai.Prelude.{
  ℕ, ◌+◌, Bool, true, false, ◌&&◌, Option, none, some, String, ltb, ◌==◌, ◌=s◌, if◌then◌else◌,
}

pub data Status : Type 0 where
  pending indexing indexed failed cancelled : Status

-- error_message: the two that count the attempts, and any other text
pub data Message : Type 0 where
  not_complete_after : ℕ → Message
  failed_after : ℕ → String → Message
  plain : String → Message

pub record IndexedSource : Type 0 where
  pub index_status : Status
  pub celery_task_id : Option String
  pub attempts : ℕ
  pub error_message : Option Message
  pub last_dispatched_at : Option ℕ

abbrev pub Table : Type 0
Table = String → Option IndexedSource

abbrev pub is_pending : Status → Bool
is_pending pending = true
is_pending _ = false

abbrev pub is_indexing : Status → Bool
is_indexing indexing = true
is_indexing _ = false

abbrev pub is_cancelled : Status → Bool
is_cancelled cancelled = true
is_cancelled _ = false

-- `celery_task_id = :task_id`, where NULL equals nothing
abbrev pub owns : String → IndexedSource → Bool
owns task r = elim r.celery_task_id [ none ↦ false | some owner ↦ owner =s task ]

abbrev pub put : Table → String → Option IndexedSource → Table
put t id row k = if id =s k then row else t k

abbrev pub matching : (IndexedSource → Bool) → Option IndexedSource → Option IndexedSource
matching p none = none
matching p (some r) = if p r then some r else none

abbrev pub written :
    String
    → (IndexedSource → IndexedSource)
    → Table
    → Option IndexedSource
    → Option IndexedSource × Table
written id f t none = (none, t)
written id f t (some r) = (some (f r), put t id (some (f r)))

-- UPDATE ... WHERE id = :id AND p, with the row that RETURNING gives
unfoldable pub update_row :
    String
    → (IndexedSource → Bool)
    → (IndexedSource → IndexedSource)
    → Table
    → Option IndexedSource × Table
update_row id p f t = written id f t (matching p (t id))

abbrev pub rowcount : Option IndexedSource → ℕ
rowcount none = 0
rowcount (some _) = 1

abbrev pub attempts_of : Option IndexedSource → Option ℕ
attempts_of none = none
attempts_of (some r) = some r.attempts

-- the SET of _claim_indexed_source
abbrev pub claimed : ℕ → String → IndexedSource → IndexedSource
claimed now task r = record {
  index_status = indexing;
  celery_task_id = some task;
  attempts = r.attempts + 1;
  error_message = r.error_message;
  last_dispatched_at = some now;
}

-- _claim_indexed_source
unfoldable pub claim_indexed_source : ℕ → String → String → Table → Option ℕ × Table
unfolding update_row
claim_indexed_source now id task t =
    let (row, t') = update_row id (λ r. is_pending r.index_status) (claimed now task) t in
    (attempts_of row, t')

-- _fenced_mark_indexed, with the rollback of a caller that matched no row
unfoldable pub fenced_mark_indexed : String → String → Table → ℕ × Table
unfolding update_row
fenced_mark_indexed id task t =
    let (row, t') =
      update_row id (owns task) (λ r. record r { index_status = indexed; error_message = none })
        t in
    (rowcount row, t')

-- _fenced_mark_failed
unfoldable pub fenced_mark_failed : String → String → Message → Table → ℕ × Table
unfolding update_row
fenced_mark_failed id task message t =
    let (row, t') =
      update_row id (owns task)
        (λ r. record r { index_status = failed; error_message = some message }) t in
    (rowcount row, t')

-- _mark_indexed_source_failed, which is not fenced
unfoldable pub mark_indexed_source_failed : String → Message → Table → Table
unfolding update_row
mark_indexed_source_failed id message t =
    (update_row id (λ r. true)
      (λ r. record r { index_status = failed; error_message = some message }) t).1

-- the attempts that _handle_storage_error reads
abbrev pub attempts_or : ℕ → Option IndexedSource → ℕ
attempts_or max none = max
attempts_or max (some r) = r.attempts

-- _handle_storage_error: whether it dispatches the row again, and the table
unfoldable pub handle_storage_error : ℕ → String → String → String → Table → Bool × Table
unfolding update_row fenced_mark_failed
handle_storage_error max id task cause t =
    let attempts = attempts_or max (t id) in
    let (row, t') =
      update_row id (owns task)
        (λ r. record r { index_status = pending; celery_task_id = none; error_message = none }) t in
    if ltb attempts max
    then (elim row [ none ↦ false | some _ ↦ true ], t')
    else (false, (fenced_mark_failed id task (failed_after attempts cause) t).1)

-- What `_run_index_body` does after the claim: it gets to its fenced write, or raises.
pub data Body : Type 0 where
  finished : Body
  soft_time_limit : Body
  -- StorageError, or an exception that _handle_storage_error is called for, with the cause
  storage_error : String → Body
  raised : String → Body

-- What index_source answers.
pub data Answer : Type 0 where
  refused_early skipped superseded done timed_out cancelled_answer error : Answer
  -- retrying_or_failed, with whether the row was dispatched again
  retrying_or_failed : Bool → Answer

abbrev pub status_is_cancelled : Option IndexedSource → Bool
status_is_cancelled none = false
status_is_cancelled (some r) = is_cancelled r.index_status

-- the end of _run_index_body after its fenced write
abbrev pub indexed_answer : ℕ × Table → Answer × Table
indexed_answer (matched, t) = (if matched == 0 then superseded else done, t)

unfoldable pub end_of_body : ℕ → String → String → Body → Table → Answer × Table
unfolding fenced_mark_indexed fenced_mark_failed handle_storage_error
end_of_body max id task finished t = indexed_answer (fenced_mark_indexed id task t)
end_of_body max id task soft_time_limit t =
    if status_is_cancelled (t id)
    then (cancelled_answer, t)
    else (timed_out, (fenced_mark_failed id task (plain "Indexing timed out") t).1)
end_of_body max id task (storage_error cause) t =
    let (again, t') = handle_storage_error max id task cause t in (retrying_or_failed again, t')
end_of_body max id task (raised trace) t = (error, (fenced_mark_failed id task (plain trace) t).1)

-- after the claim; `during` is what others do while the body runs
abbrev pub run_claimed :
    ℕ → String → String → (Table → Table) → Body → Option ℕ × Table → Answer × Table
run_claimed max id task during body (none, t) = (skipped, t)
run_claimed max id task during body (some _, t) = end_of_body max id task body (during t)

-- index_source of a row's id; `refusal` is what the checks of the knowledge base and the source
-- give, if they fail.
unfoldable pub index_source :
    ℕ → ℕ → String → String → Option Message → (Table → Table) → Body → Table → Answer × Table
unfolding claim_indexed_source mark_indexed_source_failed
index_source max now id task refusal during body t = elim refusal [
  | some message ↦ (refused_early, mark_indexed_source_failed id message t)
  | none ↦
      if status_is_cancelled (t id)
      then (cancelled_answer, t)
      else run_claimed max id task during body (claim_indexed_source now id task t)
]
