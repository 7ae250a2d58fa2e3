-- ===== src/Extraction/Task.antt =====
-- `extract_source` of tasks/extraction.py: one delivery of an extraction task, over the table of
-- sources and the gate's keys in Redis.
mod State
mod Ends
pub use State.*
unfoldable pub use Ends.*
use powabase_ai.Prelude.{
  ℕ, ◌+◌, ◌*◌, Bool, true, false, not, ◌&&◌, Option, none, some, List, [], ◌∷◌, ◌++◌, String, ltb,
  ◌=s◌, if◌then◌else◌,
}
use powabase_ai.Redis.{SortedSets}
use powabase_ai.Redis.Ranked.{RankedSets}
use powabase_ai.Redis.Ranged.{RangedSets}
use powabase_ai.Redis.Keys.{StringKeys}
use powabase_ai.Gate.Slots
use powabase_ai.Gate.Slots.{
  second, Link, Slots, slot, ungated, refused, try_acquire, is_live, release,
}
use powabase_ai.Gate.Attempts.{
  AttemptRecord, PreviousAttempt, plausible_cause, record_ttl, Attempts, begin, end, previous,
}
use powabase_ai.Gate.Waiting.{Dispatch, WaitRecord, Waiting, touch, clear}
use powabase_ai.Extraction.{
  Table, Source, Marker, pending, failed, timed_out, interrupted_times, attempt_failed,
  failed_after, raised_message, permanent, timeout, transient, is_cancelled, is_extracted,
  is_extracting, owns, claim_source, update_source_status, record_extraction_interruption,
  update_source_extraction_result, Result, outcome_of, Dispatched, Charge, charge_of,
}

module _ (server : Server) where
  open server use {slot_sets, ranked, attempt_keys, ranged, wait_keys, mark_keys}

  module _ (id task : String) (args : Dispatched) (env : Env server) where
    -- _count_interruption, of the row as it was read
    unfoldable pub count_interruption :
        Option Marker → Option PreviousAttempt → World server → Bool × World server
    count_interruption m prev w =
        let counts = count_one (counts_of task m) prev in
        let t = record_extraction_interruption id (marker_of task counts) w.sources in
        if is_spent counts prev
        then (
          true,
          with_sources server
              (update_source_status id failed (interrupted_times (named_count counts prev)) task
                (some permanent) t).1
              w,
        )
        else (false, with_sources server t w)

    -- the claim is made, the attempt recorded and the extraction called
    unfoldable pub started : Option ℕ → Option String → World server → World server
    started size token w = call server (running_extraction task) (record w {
      sources = (claim_source id task w.sources).1;
      attempts =
          begin ranked attempt_keys env.beginning (record_ttl env.time_limit * second)
            env.started_at env.incarnation task size token w.attempts;
    })

    -- from the claim on, with the slot's token
    unfoldable pub claim_and_run :
        Dispatch → Option ℕ → Option String → World server → Answer × World server
    unfolding end_of_body started
    claim_and_run msg size token w =
        if (claim_source id task w.sources).0
        then finally server id task args env true token
            (end_of_body server id task args env msg env.body (env.during (started size token w)))
        else finally server id task args env false token
            (superseded, with_sources server (claim_source id task w.sources).1 w)

    -- from the slot on
    abbrev pub run_counted :
        Dispatch → Option ℕ → Option String → Bool × World server → Answer × World server
    run_counted msg size token (spent, w) =
        if spent
        then finally server id task args env true token (interrupted, w)
        else claim_and_run msg size token w

    unfoldable pub run_with_slot :
        Dispatch
        → Option ℕ
        → Option String
        → Bool
        → Option Marker
        → Option PreviousAttempt
        → World server
        → Answer × World server
    unfolding count_interruption claim_and_run
    run_with_slot msg size token redelivered m prev w =
        run_counted msg size token (if redelivered then count_interruption m prev w else (false, w))

    abbrev pub is_large_file : Option ℕ → Bool
    is_large_file none = true
    is_large_file (some n) = ltb env.threshold n

    -- the slot that `try_acquire` gives, if it gives one
    abbrev pub with_attempt :
        Dispatch
        → Option ℕ
        → Bool
        → Option Marker
        → Option PreviousAttempt
        → Slots.Attempt
        → World server
        → Answer × World server
    with_attempt msg size redelivered m prev refused w =
        requeued server id task args env size msg.retries w
    with_attempt msg size redelivered m prev a w =
        run_with_slot msg size (token_of server id task args env a) redelivered m prev w

    unfoldable pub take_slot :
        Dispatch
        → Option ℕ
        → Bool
        → Option Marker
        → Option PreviousAttempt
        → World server
        → Answer × World server
    unfolding run_with_slot
    take_slot msg size redelivered m prev w =
        let (a, s) =
          try_acquire slot_sets env.acquiring env.started_at env.max_holders env.token w.slots in
        if is_large_file size
        then with_attempt msg size redelivered m prev a (record w { slots = s })
        else run_with_slot msg size none redelivered m prev w

    abbrev pub still_running : Option PreviousAttempt → World server → Bool
    still_running none w = false
    still_running (some p) w = is_live_attempt server env.asking env.started_at p w.slots

    abbrev pub previous_of : Bool → World server → Option PreviousAttempt
    previous_of redelivered w =
        if redelivered
        then previous ranked attempt_keys env.reading env.started_at task w.attempts
        else none

    unfoldable pub with_size : Dispatch → Option ℕ → Source → World server → Answer × World server
    unfolding take_slot
    with_size msg size r w =
        let redelivered = is_extracting r.extraction_status && owns task r.celery_task_id in
        let prev = previous_of redelivered w in
        if still_running prev w
        then requeued server id task args env size msg.retries w
        else take_slot msg size redelivered r.marker prev w

    -- the size that the message has, or the storage's
    abbrev pub look_up : Dispatch → Source → World server → Lookup → Answer × World server
    look_up msg r w (reported size) = with_size msg size r w
    look_up msg r w (lookup_storage_error cause) =
        on_storage_error server id task args env msg cause w
    look_up msg r w (lookup_raised text) = on_exception server id task args env text w

    abbrev pub with_given_size : Dispatch → Source → World server → Option ℕ → Answer × World server
    with_given_size msg r w (some n) = with_size msg (some n) r w
    with_given_size msg r w none = look_up msg r w env.size_lookup

    -- after get_storage, which may raise
    abbrev pub with_storage :
        Dispatch → Source → World server → Option String → Answer × World server
    with_storage msg r w (some text) = on_exception server id task args env text w
    with_storage msg r w none = with_given_size msg r w msg.source_size

    -- `owner and owner != task_id`
    abbrev pub is_of_another : Option String → Bool
    is_of_another none = false
    is_of_another (some owner) = not (owner =s "") && not (owner =s task)

    -- the checks of the row as it was read
    unfoldable pub checked : Dispatch → Option Source → World server → Answer × World server
    unfolding with_size on_storage_error on_exception
    checked msg none w = (not_found, w)
    checked msg (some r) w =
        if is_cancelled r.extraction_status
        then (cancelled_answer, w)
        else if is_extracted r.extraction_status
        then (already_extracted, w)
        else if is_of_another r.celery_task_id
        then (superseded, w)
        else with_storage msg r (env.meanwhile w) env.no_storage

    -- extract_source
    unfoldable pub extract_source : Dispatch → World server → Answer × World server
    unfolding checked
    extract_source msg w =
        let w' = record w {
          waiting = clear ranged wait_keys mark_keys env.clearing env.cleared_at task w.waiting;
        } in
        checked msg (w.sources id) w'
