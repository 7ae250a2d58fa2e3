-- ===== src/Extraction/Ownership.antt =====
-- How the body of a task of tasks/extraction.py ends when it has lost its source by then.
use powabase_ai.Prelude.{
  ◌+◌, ◌≡◌, refl, Bool, true, false, ◌&&◌, Option, none, some, String, arith, ltb, if◌then◌else◌,
}
use powabase_ai.Gate.Waiting.{Dispatch}
use powabase_ai.Extraction.{
  Table, Source, Status, Message, ErrorCode, Dispatched, Result, may_write, owns, stays_live,
  matching, update_row, update_source_status, source_is_owned_by, update_source_extraction_result,
  outcome_of, failed, pending, failed_after, attempt_failed, transient, timeout, timed_out,
  raised_message,
}
use powabase_ai.Extraction.Task.{
  Server, World, Env, Answer, error, timed_out_answer, Body, produced, soft_time_limit,
  extraction_superseded, worker_killed, storage_error, raised, max_retries, cancelled_in,
  unless_superseded, retry, on_storage_error, on_soft_time_limit, on_exception, store_result,
  end_of_body,
}

module _ (id task : String) where
  update_row-missed :
      (p : Source → Bool) (f : Source → Source) (t : Table)
      → matching p (t id) ≡ false
      → update_row id p f t ≡ (false, t)
  unfolding update_row
  update_row-missed p f t h = rw (h) refl

  update_source_status-lost :
      (status : Status) (message : Message) (code : Option ErrorCode) (t : Table)
      → source_is_owned_by id task t ≡ false
      → update_source_status id status message task code t ≡ (false, t)
  unfolding update_source_status source_is_owned_by
  update_source_status-lost status message code t h = update_row-missed (may_write task) _ t h

  not_owner :
      (row : Option Source)
      → matching (may_write task) row ≡ false
      → matching (λ r. stays_live r.extraction_status && owns task r.celery_task_id) row ≡ false
  not_owner none h = refl
  not_owner (some r) h = ground (arith, h)

  update_source_extraction_result-lost :
      (status : Status) (message : Option Message) (t : Table)
      → source_is_owned_by id task t ≡ false
      → update_source_extraction_result id status message task t ≡ (false, t)
  unfolding update_source_extraction_result source_is_owned_by
  update_source_extraction_result-lost status message t h =
      update_row-missed (λ r. stays_live r.extraction_status && owns task r.celery_task_id) _ t
        (not_owner (t id) h)

  module _ (server : Server) (args : Dispatched) (env : Env server) (msg : Dispatch)
      (w : World server) (lost : source_is_owned_by id task w.sources ≡ false) where
    abbrev Unchanged : Answer × World server → Type 0
    Unchanged (a, v) = v ≡ w

    Unchanged-if :
        (c : Bool) (x y : Answer × World server)
        → Unchanged x
        → Unchanged y
        → Unchanged (if c then x else y)
    Unchanged-if true x y hx hy = hx
    Unchanged-if false x y hx hy = hy

    unless-Unchanged :
        (x : Bool × Table) (a : Answer)
        → x ≡ (false, w.sources)
        → Unchanged (unless_superseded server id task args env x w a)
    unless-Unchanged x a h = rw (h) refl

    retry-Unchanged :
        (x : Bool × Table)
        → x ≡ (false, w.sources)
        → Unchanged (retry server id task args env msg x w)
    retry-Unchanged x h = rw (h) refl

    on_storage_error-Unchanged :
        (cause : String) → Unchanged (on_storage_error server id task args env msg cause w)
    unfolding on_storage_error
    on_storage_error-Unchanged cause =
        Unchanged-if (ltb msg.retries max_retries) _ _
          (retry-Unchanged
            (update_source_status id pending (attempt_failed (msg.retries + 1) cause) task none
              w.sources)
            (update_source_status-lost pending _ none w.sources lost))
          (unless-Unchanged
            (update_source_status id failed (failed_after (max_retries + 1) cause) task
              (some transient) w.sources)
            error (update_source_status-lost failed _ (some transient) w.sources lost))

    store_result-Unchanged : (res : Result) → Unchanged (store_result server id task args env res w)
    unfolding store_result
    store_result-Unchanged res =
        Unchanged-if (cancelled_in server id task args env w.sources) _ _ refl (
          rw
            (update_source_extraction_result-lost (outcome_of res).0 (outcome_of res).1 w.sources
              lost)
            refl)

    -- If the source has been cancelled or given to another task when the body of a task ends, then
    -- its end, whichever it is, writes no row, charges nothing and does not send the task again.
    pub end_of_body-lost : (body : Body) → (end_of_body server id task args env msg body w).1 ≡ w
    unfolding end_of_body on_soft_time_limit on_exception
    end_of_body-lost (produced res) = store_result-Unchanged res
    end_of_body-lost soft_time_limit =
        Unchanged-if (cancelled_in server id task args env w.sources) _ _ refl (
          unless-Unchanged (update_source_status id failed timed_out task (some timeout) w.sources)
            timed_out_answer
            (update_source_status-lost failed timed_out (some timeout) w.sources lost))
    end_of_body-lost extraction_superseded = refl
    end_of_body-lost worker_killed = refl
    end_of_body-lost (storage_error cause) = on_storage_error-Unchanged cause
    end_of_body-lost (raised text) =
        unless-Unchanged (update_source_status id failed (raised_message text) task none w.sources)
          error (update_source_status-lost failed (raised_message text) none w.sources lost)
