-- ===== src/Extraction/Task/Ends.antt =====
-- The ends of a delivery of `extract_source` in tasks/extraction.py: its exception handlers, the
-- storing of a result, and `finally`.
use powabase_ai.Prelude.{
  ℕ, ◌+◌, ◌*◌, Bool, true, false, Option, none, some, String, ltb, if◌then◌else◌,
}
use powabase_ai.Gate.Slots
use powabase_ai.Gate.Slots.{
  second, Link, Slots, slot, ungated, refused, try_acquire, is_live, release,
}
use powabase_ai.Gate.Attempts.{record_ttl, end}
use powabase_ai.Gate.Waiting.{Dispatch, touch}
use powabase_ai.Extraction.{
  Table, pending, failed, timed_out, attempt_failed, failed_after, raised_message, timeout,
  transient, is_cancelled, update_source_status, update_source_extraction_result, Result,
  outcome_of, Dispatched, Charge, charge_of,
}
use powabase_ai.Extraction.Task.State.{
  max_retries, Server, Body, Answer, has_died, World, Env, call, with_sources, sending, charging,
  produced, soft_time_limit, extraction_superseded, worker_killed, storage_error, raised,
  cancelled_answer, superseded, deferred, timed_out_answer, retrying, error, success, died,
}

module _ (server : Server) where
  open server use {slot_sets, ranked, attempt_keys, ranged, wait_keys, mark_keys}

  module _ (id task : String) (args : Dispatched) (env : Env server) where
    -- _mark_waiting
    abbrev pub mark_waiting : Option ℕ → ℕ → World server → World server
    mark_waiting size retries w = record w {
      waiting =
          touch ranged wait_keys mark_keys env.touching (record_ttl env.time_limit * second)
            env.touched_at task id (record { source_size = size; retries = retries }) w.waiting;
    }

    -- _requeue, after _mark_waiting
    abbrev pub requeued : Option ℕ → ℕ → World server → Answer × World server
    requeued size retries w = (
      deferred,
      call server (sending task (record { source_size = size; retries = retries }))
          (mark_waiting size retries w),
    )

    -- an update that loses the row answers as superseded
    abbrev pub unless_superseded : Bool × Table → World server → Answer → Answer × World server
    unless_superseded (wrote, t) w a = (if wrote then a else superseded, with_sources server t w)

    abbrev pub cancelled_in : Table → Bool
    cancelled_in t = elim (t id) [ none ↦ false | some r ↦ is_cancelled r.extraction_status ]

    -- `except SoftTimeLimitExceeded`
    unfoldable pub on_soft_time_limit : World server → Answer × World server
    on_soft_time_limit w =
        if cancelled_in w.sources
        then (cancelled_answer, w)
        else unless_superseded
            (update_source_status id failed timed_out task (some timeout) w.sources) w
            timed_out_answer

    abbrev pub retry : Dispatch → Bool × Table → World server → Answer × World server
    retry msg (wrote, t) w =
        if wrote
        then (
          retrying,
          call server
              (sending task (record { source_size = msg.source_size; retries = msg.retries + 1 }))
              (mark_waiting msg.source_size msg.retries (with_sources server t w)),
        )
        else (superseded, with_sources server t w)

    -- `except StorageError`
    unfoldable pub on_storage_error : Dispatch → String → World server → Answer × World server
    on_storage_error msg cause w =
        if ltb msg.retries max_retries
        then retry msg
            (update_source_status id pending (attempt_failed (msg.retries + 1) cause) task none
              w.sources)
            w
        else unless_superseded
            (update_source_status id failed (failed_after (max_retries + 1) cause) task
              (some transient) w.sources)
            w error

    -- `except Exception`
    unfoldable pub on_exception : String → World server → Answer × World server
    on_exception text w =
        unless_superseded (update_source_status id failed (raised_message text) task none w.sources)
          w error

    abbrev pub charge : Option Charge → World server → World server
    charge none w = w
    charge (some c) w = call server (charging c) w

    -- after `run_extraction` returns
    unfoldable pub store_result : Result → World server → Answer × World server
    unfolding charge_of
    store_result res w =
        let (status, message) = outcome_of res in
        let (wrote, t) = update_source_extraction_result id status message task w.sources in
        if cancelled_in w.sources
        then (cancelled_answer, w)
        else if wrote
        then (success, charge (charge_of id args res) (with_sources server t w))
        else (superseded, with_sources server t w)

    -- the end of the body, whatever it is, up to `finally`
    unfoldable pub end_of_body : Dispatch → Body → World server → Answer × World server
    unfolding store_result on_soft_time_limit on_storage_error on_exception
    end_of_body msg (produced res) w = store_result res w
    end_of_body msg soft_time_limit w = on_soft_time_limit w
    end_of_body msg extraction_superseded w = (superseded, w)
    end_of_body msg worker_killed w = (died, w)
    end_of_body msg (storage_error cause) w = on_storage_error msg cause w
    end_of_body msg (raised text) w = on_exception text w

    -- the token of a slot, which one that was given without asking the gate does not have
    abbrev pub token_of : Slots.Attempt → Option String
    token_of (slot token) = some token
    token_of ungated = none
    token_of refused = none

    abbrev pub release_slot : Option String → World server → World server
    release_slot none w = w
    release_slot (some token) w = record w {
      slots = release slot_sets env.releasing env.ended_at token w.slots;
    }

    abbrev pub end_attempt : Bool → World server → World server
    end_attempt false w = w
    end_attempt true w = record w {
      attempts = end ranked attempt_keys env.ending env.ended_at env.incarnation task w.attempts;
    }

    -- `finally`, which a killed worker does not reach
    abbrev pub finally : Bool → Option String → Answer × World server → Answer × World server
    finally forget token (a, w) =
        if has_died a then (a, w) else (a, release_slot token (end_attempt forget w))
