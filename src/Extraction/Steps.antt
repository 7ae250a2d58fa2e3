-- ===== src/Extraction/Steps.antt =====
-- One delivery of tasks/extraction.py uses up what the source row and its retries allow.
mod Ends
pub use Ends.*
use powabase_ai.Prelude.{
  ℕ, suc, ◌+◌, ◌≤◌, ◌≡◌, refl, ◌∙◌, Bool, true, false, Option, none, some, List, [], ◌∷◌, ◌++◌,
  String, arith, ltb, if◌then◌else◌, ◌⊎◌, inl, inr, Bool-cases,
}
use powabase_ai.Gate.Attempts.{PreviousAttempt}
use powabase_ai.Gate.Waiting.{Dispatch, clear}
use powabase_ai.Gate.Slots
use powabase_ai.Extraction.{
  Table, Source, failed, transient, timeout, timed_out, permanent, interrupted_times,
  raised_message, attempt_failed, failed_after, source_is_owned_by, claim_source,
  update_source_status, record_extraction_interruption, update_source_extraction_result, Result,
  Dispatched, Charge, charge_of, is_cancelled, is_extracted, outcome_of,
}
use powabase_ai.Extraction.Task.{
  max_retries, Server, Call, running_extraction, sending, charging, scheduling_sweep, Body,
  produced, soft_time_limit, extraction_superseded, worker_killed, storage_error, raised, Answer,
  with_sources, error, timed_out_answer, retry, charge, unless_superseded, cancelled_in, has_died,
  interrupted, superseded, counts_of, count_one, is_spent, marker_of, World, Lookup, reported,
  lookup_storage_error, lookup_raised, look_up, with_given_size, is_of_another, is_large_file,
  still_running, previous_of, with_attempt, with_storage, requeued, run_counted, named_count,
  started, Env, on_soft_time_limit, on_storage_error, on_exception, store_result, end_of_body,
  finally, count_interruption, claim_and_run, run_with_slot, take_slot, with_size, checked,
  extract_source,
}
use powabase_ai.Extraction.Credit.{
  is_running, credit, left, ends, rest, startable, SameOrLost, pending_credit, claimed_credit,
  fresh_row, interrupted_row, interruption_row, lost_row,
}

module _ (id task : String) where
  module _ (server : Server) (args : Dispatched) (env : Env server) (msg : Dispatch) where
    allowance-started :
        (size : Option ℕ) (token : Option String) (w : World server)
        → (claim_source id task w.sources).0 ≡ true
        → allowance id task server args env msg (started server id task args env size token w)
          ≤ runs_in w.calls + (startable id task (w.sources id) + left msg)
    unfolding started
    allowance-started size token w claimed = omega (
      arith,
      runs_in-append w.calls (running_extraction task ∷ []),
      claimed_credit id task w.sources claimed,
    )

    module _ (during_elsewhere : Elsewhere id task server env.during) where
      claim_and_run-Within :
          (b : ℕ) (size : Option ℕ) (token : Option String) (w : World server)
          → runs_in w.calls + (startable id task (w.sources id) + left msg) ≤ b
          → Within id task server args env msg b
              (claim_and_run server id task args env msg size token w)
      unfolding claim_and_run
      claim_and_run-Within b size token w h =
          let w' = started server id task args env size token w in
          Within-if id task server args env msg b (claim_source id task w.sources).0 _ _
            (λ claimed.
              finally-Within id task server args env msg b true token
                (end_of_body server id task args env msg env.body (env.during w'))
                (Within-le id task server args env msg
                  (allowance id task server args env msg (env.during w')) b
                  (end_of_body server id task args env msg env.body (env.during w'))
                  (omega (
                    arith,
                    h,
                    allowance-started size token w claimed,
                    others_allowance id task server args env msg env.during w' during_elsewhere,
                  ))
                  (end_of_body-Within id task server args env msg env.body (env.during w'))))
            (λ refused.
              finally-Within id task server args env msg b false token
                (superseded, with_sources server (claim_source id task w.sources).1 w)
                (omega arith))

      counted-Within :
          (size : Option ℕ) (token : Option String) (prev : Option PreviousAttempt) (r : Source)
          (w : World server)
          → SameOrLost id task r (w.sources id)
          → is_running task r ≡ true
          → Within id task server args env msg (allowance id task server args env msg w) (
              run_counted server id task args env msg size token
                (count_interruption server id task args env r.marker prev w))
      unfolding count_interruption
      counted-Within size token prev r w same running =
          let counts = count_one (counts_of task r.marker) prev in
          let t = record_extraction_interruption id (marker_of task counts) w.sources in
          elim (Bool-cases (is_spent counts prev)) [
            | inl spent ↦ rw (spent) (
                finally-Within id task server args env msg (allowance id task server args env msg w)
                  true token
                  (
                    interrupted,
                    with_sources server
                        (update_source_status id failed
                          (interrupted_times (named_count counts prev)) task (some permanent) t).1
                        w,
                  )
                  (omega arith))
            | inr more ↦ rw (more) (
                claim_and_run-Within (allowance id task server args env msg w) size token
                  (with_sources server t w)
                  (rw (interruption_row id task (marker_of task counts) w.sources) (
                    omega
                      (arith, interrupted_row id task r (w.sources id) prev same running more))))
          ]

      run_with_slot-Within :
          (size : Option ℕ) (token : Option String) (prev : Option PreviousAttempt) (r : Source)
          (w : World server)
          → SameOrLost id task r (w.sources id)
          → Within id task server args env msg (allowance id task server args env msg w) (
              run_with_slot server id task args env msg size token
                (is_running task r)
                r.marker
                prev
                w)
      unfolding run_with_slot
      run_with_slot-Within size token prev r w same = elim (Bool-cases (is_running task r)) [
        | inl running ↦ rw (running) (counted-Within size token prev r w same running)
        | inr fresh ↦ rw (fresh) (
            claim_and_run-Within (allowance id task server args env msg w) size token w
              (omega (arith, fresh_row id task r (w.sources id) same fresh)))
      ]

      requeued-Within :
          (size : Option ℕ) (w : World server)
          → Within id task server args env msg
              (allowance id task server args env msg w)
              (requeued server id task args env size msg.retries w)
      requeued-Within size w = omega (
        arith,
        runs_in-append w.calls
            (sending task (record { source_size = size; retries = msg.retries }) ∷ []),
      )

      with_attempt-Within :
          (size : Option ℕ) (prev : Option PreviousAttempt) (r : Source) (a : Slots.Attempt)
          (w : World server)
          → SameOrLost id task r (w.sources id)
          → Within id task server args env msg
              (allowance id task server args env msg w)
              (with_attempt server id task args env msg size (is_running task r) r.marker prev a w)
      with_attempt-Within size prev r Slots.refused w same = requeued-Within size w
      with_attempt-Within size prev r (Slots.slot token) w same =
          run_with_slot-Within size (some token) prev r w same
      with_attempt-Within size prev r Slots.ungated w same =
          run_with_slot-Within size none prev r w same

      with_size-Within :
          (size : Option ℕ) (r : Source) (w : World server)
          → SameOrLost id task r (w.sources id)
          → Within id task server args env msg
              (allowance id task server args env msg w)
              (with_size server id task args env msg size r w)
      unfolding with_size take_slot
      with_size-Within size r w same =
          let prev = previous_of server id task args env (is_running task r) w in
          let (a, s) =
            Slots.try_acquire server.slot_sets env.acquiring env.started_at env.max_holders
              env.token w.slots in
          Within-if id task server args env msg (allowance id task server args env msg w)
            (still_running server id task args env prev w) _ _ (λ _. requeued-Within size w)
            (λ _.
              Within-if id task server args env msg (allowance id task server args env msg w)
                (is_large_file server id task args env size) _ _
                (λ _. with_attempt-Within size prev r a (record w { slots = s }) same)
                (λ _. run_with_slot-Within size none prev r w same))

      look_up-Within :
          (r : Source) (w : World server) (l : Lookup)
          → SameOrLost id task r (w.sources id)
          → Within id task server args env msg
              (allowance id task server args env msg w)
              (look_up server id task args env msg r w l)
      unfolding on_exception
      look_up-Within r w (reported size) same = with_size-Within size r w same
      look_up-Within r w (lookup_storage_error cause) same =
          on_storage_error-Within id task server args env msg cause w
      look_up-Within r w (lookup_raised text) same =
          unless-Within id task server args env msg (allowance id task server args env msg w)
            (update_source_status id failed (raised_message text) task none w.sources) w error refl
            (omega arith)

      with_given_size-Within :
          (r : Source) (w : World server) (size : Option ℕ)
          → SameOrLost id task r (w.sources id)
          → Within id task server args env msg
              (allowance id task server args env msg w)
              (with_given_size server id task args env msg r w size)
      with_given_size-Within r w (some n) same = with_size-Within (some n) r w same
      with_given_size-Within r w none same = look_up-Within r w env.size_lookup same

      with_storage-Within :
          (r : Source) (w : World server) (raises : Option String)
          → SameOrLost id task r (w.sources id)
          → Within id task server args env msg
              (allowance id task server args env msg w)
              (with_storage server id task args env msg r w raises)
      unfolding on_exception
      with_storage-Within r w (some text) same =
          unless-Within id task server args env msg (allowance id task server args env msg w)
            (update_source_status id failed (raised_message text) task none w.sources) w error refl
            (omega arith)
      with_storage-Within r w none same = with_given_size-Within r w msg.source_size same

      module _ (meanwhile_elsewhere : Elsewhere id task server env.meanwhile) where
        same_or_lost :
            (r : Source) (w : World server)
            → w.sources id ≡ some r
            → SameOrLost id task r ((env.meanwhile w).sources id)
        unfolding source_is_owned_by
        same_or_lost r w e = elim (meanwhile_elsewhere w).0 [
          | inl same ↦ inl (same ∙ e)
          | inr lost ↦ inr lost
        ]

        checked-Within :
            (row : Option Source) (w : World server)
            → w.sources id ≡ row
            → Within id task server args env msg
                (allowance id task server args env msg w)
                (checked server id task args env msg row w)
        unfolding checked
        checked-Within none w e = omega arith
        checked-Within (some r) w e =
            Within-if id task server args env msg (allowance id task server args env msg w)
              (is_cancelled r.extraction_status) _ _ (λ _. omega arith)
              (λ _.
                Within-if id task server args env msg (allowance id task server args env msg w)
                  (is_extracted r.extraction_status) _ _ (λ _. omega arith)
                  (λ _.
                    Within-if id task server args env msg (allowance id task server args env msg w)
                      (is_of_another server id task args env r.celery_task_id) _ _
                      (λ _. omega arith)
                      (λ _.
                        Within-le id task server args env msg
                          (allowance id task server args env msg (env.meanwhile w))
                          (allowance id task server args env msg w)
                          (with_storage server id task args env msg r (env.meanwhile w)
                            env.no_storage)
                          (others_allowance id task server args env msg env.meanwhile w
                            meanwhile_elsewhere)
                          (with_storage-Within r (env.meanwhile w) env.no_storage
                            (same_or_lost r w e)))))

        pub extract_source-Within :
            (w : World server)
            → Within id task server args env msg
                (allowance id task server args env msg w)
                (extract_source server id task args env msg w)
        unfolding extract_source
        extract_source-Within w =
            checked-Within (w.sources id)
              (record w {
                waiting =
                    clear server.ranged server.wait_keys server.mark_keys env.clearing
                      env.cleared_at task w.waiting;
              })
              refl
