-- ===== src/Extraction/Waits.antt =====
-- A delivery of tasks/extraction.py that is to be sent again leaves what the sweep needs.
mod Ends
pub use Ends.*
use powabase_ai.Prelude.{
  ℕ, ◌+◌, ◌*◌, ◌<◌, ◌≡◌, refl, ◌∙◌, Bool, true, false, Option, none, some, List, [], ◌∷◌, ◌++◌,
  String, =s_refl, arith, ltb, if◌then◌else◌,
}
use powabase_ai.Gate.Slots
use powabase_ai.Gate.Slots.{Link, up, down, cut, second}
use powabase_ai.Gate.Attempts.{PreviousAttempt, record_ttl}
use powabase_ai.Gate.Waiting.{Dispatch, WaitRecord, clear, touch, index_at}
use powabase_ai.Extraction.{
  Table, Source, Marker, Dispatched, is_cancelled, is_extracted, outcome_of, failed, failed_after,
  transient, timeout, timed_out, raised_message, claim_source, update_source_status,
  update_source_extraction_result, pending, attempt_failed,
}
use powabase_ai.Extraction.Credit.{is_running}
use powabase_ai.Extraction.Task.{
  Server, World, Env, Body, produced, soft_time_limit, extraction_superseded, worker_killed,
  storage_error, raised, max_retries, Answer, previous_of, still_running, not_found,
  cancelled_answer, already_extracted, interrupted, success, timed_out_answer, is_large_file,
  release_slot, end_attempt, deferred, retrying, died, superseded, error, Call, sending, Lookup,
  reported, lookup_storage_error, lookup_raised, with_sources, unless_superseded, retry, requeued,
  cancelled_in, on_storage_error, on_soft_time_limit, on_exception, store_result, end_of_body,
  finally, has_died, started, claim_and_run, count_interruption, run_counted, run_with_slot,
  with_attempt, take_slot, with_size, look_up, with_given_size, with_storage, is_of_another,
  checked, extract_source, mark_waiting,
}

module _ (server : Server) (id task : String) (args : Dispatched) (env : Env server)
    (msg : Dispatch) where
  module _ (is_up : env.touching ≡ up) where
    claim_and_run-Keeps :
        (size : Option ℕ) (token : Option String) (w : World server)
        → Keeps server id task args env msg (claim_and_run server id task args env msg size token w)
    unfolding claim_and_run
    claim_and_run-Keeps size token w =
        let w' = env.during (started server id task args env size token w) in
        let w'' = with_sources server (claim_source id task w.sources).1 w in
        Keeps-if server id task args env msg (claim_source id task w.sources).0 _ _
          (λ _.
            finally-Keeps server id task args env msg true token
              (end_of_body server id task args env msg env.body w')
              (end_of_body-Keeps server id task args env msg is_up env.body w'))
          (λ _.
            finally-Keeps server id task args env msg false token (superseded, w'')
              (over server id task args env msg superseded w'' refl))

    run_counted-Keeps :
        (size : Option ℕ) (token : Option String) (x : Bool × World server)
        → Keeps server id task args env msg (run_counted server id task args env msg size token x)
    run_counted-Keeps size token (true, w) =
        finally-Keeps server id task args env msg true token (interrupted, w)
          (over server id task args env msg interrupted w refl)
    run_counted-Keeps size token (false, w) = claim_and_run-Keeps size token w

    run_with_slot-Keeps :
        (size : Option ℕ) (token : Option String) (redelivered : Bool) (m : Option Marker)
        (prev : Option PreviousAttempt) (w : World server)
        → Keeps server id task args env msg
            (run_with_slot server id task args env msg size token redelivered m prev w)
    unfolding run_with_slot
    run_with_slot-Keeps size token redelivered m prev w =
        run_counted-Keeps size token
          (if redelivered then count_interruption server id task args env m prev w else (false, w))

    with_attempt-Keeps :
        (size : Option ℕ) (redelivered : Bool) (m : Option Marker) (prev : Option PreviousAttempt)
        (a : Slots.Attempt) (w : World server)
        → Keeps server id task args env msg
            (with_attempt server id task args env msg size redelivered m prev a w)
    with_attempt-Keeps size redelivered m prev Slots.refused w =
        requeued-Keeps server id task args env msg is_up size w
    with_attempt-Keeps size redelivered m prev (Slots.slot token) w =
        run_with_slot-Keeps size (some token) redelivered m prev w
    with_attempt-Keeps size redelivered m prev Slots.ungated w =
        run_with_slot-Keeps size none redelivered m prev w

    with_size-Keeps :
        (size : Option ℕ) (r : Source) (w : World server)
        → Keeps server id task args env msg (with_size server id task args env msg size r w)
    unfolding with_size take_slot
    with_size-Keeps size r w =
        let prev = previous_of server id task args env (is_running task r) w in
        let (a, s) =
          Slots.try_acquire server.slot_sets env.acquiring env.started_at env.max_holders env.token
            w.slots in
        Keeps-if server id task args env msg (still_running server id task args env prev w) _ _
          (λ _. requeued-Keeps server id task args env msg is_up size w)
          (λ _.
            Keeps-if server id task args env msg (is_large_file server id task args env size) _ _
              (λ _.
                with_attempt-Keeps size (is_running task r) r.marker prev a
                  (record w { slots = s }))
              (λ _. run_with_slot-Keeps size none (is_running task r) r.marker prev w))

    look_up-Keeps :
        (r : Source) (w : World server) (l : Lookup)
        → Keeps server id task args env msg (look_up server id task args env msg r w l)
    look_up-Keeps r w (reported size) = with_size-Keeps size r w
    look_up-Keeps r w (lookup_storage_error cause) =
        on_storage_error-Keeps server id task args env msg is_up cause w
    look_up-Keeps r w (lookup_raised text) =
        on_exception-Keeps server id task args env msg is_up text w

    with_given_size-Keeps :
        (r : Source) (w : World server) (size : Option ℕ)
        → Keeps server id task args env msg (with_given_size server id task args env msg r w size)
    with_given_size-Keeps r w (some n) = with_size-Keeps (some n) r w
    with_given_size-Keeps r w none = look_up-Keeps r w env.size_lookup

    with_storage-Keeps :
        (r : Source) (w : World server) (raises : Option String)
        → Keeps server id task args env msg (with_storage server id task args env msg r w raises)
    with_storage-Keeps r w (some text) = on_exception-Keeps server id task args env msg is_up text w
    with_storage-Keeps r w none = with_given_size-Keeps r w msg.source_size

    checked-Keeps :
        (row : Option Source) (w : World server)
        → Keeps server id task args env msg (checked server id task args env msg row w)
    unfolding checked
    checked-Keeps none w = over server id task args env msg not_found w refl
    checked-Keeps (some r) w =
        Keeps-if server id task args env msg (is_cancelled r.extraction_status) _ _
          (λ _. over server id task args env msg cancelled_answer w refl)
          (λ _.
            Keeps-if server id task args env msg (is_extracted r.extraction_status) _ _
              (λ _. over server id task args env msg already_extracted w refl)
              (λ _.
                Keeps-if server id task args env msg
                  (is_of_another server id task args env r.celery_task_id) _ _
                  (λ _. over server id task args env msg superseded w refl)
                  (λ _. with_storage-Keeps r (env.meanwhile w) env.no_storage)))

    pub extract_source-Waits :
        (w : World server)
        → is_sent_again (extract_source server id task args env msg w).0 ≡ true
        → Waits server id task args env msg (extract_source server id task args env msg w).1
    unfolding extract_source
    extract_source-Waits w = checked-Keeps (w.sources id) (record w {
      waiting =
          clear server.ranged server.wait_keys server.mark_keys env.clearing env.cleared_at task
            w.waiting;
    })
