-- ===== src/Extraction/Waits/Ends.antt =====
-- The ends of a run of tasks/extraction.py that are sent again leave what the sweep needs.
use powabase_ai.Prelude.{
  ℕ, ◌+◌, ◌*◌, ◌<◌, ◌≡◌, refl, ◌∙◌, Bool, true, false, Option, none, some, List, [], ◌∷◌, ◌++◌,
  String, =s_refl, arith, ltb, if◌then◌else◌,
}
use powabase_ai.Gate.Slots.{up, second}
use powabase_ai.Gate.Attempts.{record_ttl}
use powabase_ai.Gate.Waiting.{Dispatch, WaitRecord, touch, index_at}
use powabase_ai.Extraction.{
  Table, Dispatched, outcome_of, failed, failed_after, transient, timeout, timed_out,
  raised_message, update_source_status, update_source_extraction_result, pending, attempt_failed,
}
use powabase_ai.Extraction.Task.{
  Server, World, Env, Body, produced, soft_time_limit, extraction_superseded, worker_killed,
  storage_error, raised, max_retries, Answer, cancelled_answer, success, timed_out_answer,
  release_slot, end_attempt, deferred, retrying, died, superseded, error, Call, sending,
  with_sources, unless_superseded, retry, requeued, cancelled_in, on_storage_error,
  on_soft_time_limit, on_exception, store_result, end_of_body, finally, has_died, mark_waiting,
}

abbrev pub is_sent_again : Answer → Bool
is_sent_again deferred = true
is_sent_again retrying = true
is_sent_again _ = false

module _ (server : Server) (id task : String) (args : Dispatched) (env : Env server)
    (msg : Dispatch) where
  -- the wait that `env` records, and the message that is sent
  pub record Waits (w : World server) : Type 0 where
    pub message : Dispatch
    pub earlier : List Call
    pub sent : w.calls ≡ earlier ++ sending task message ∷ []
    pub wait : WaitRecord
    pub of_source : wait.source_id ≡ id
    pub same_retries : wait.dispatch.retries ≡ msg.retries
    pub recorded :
        (t : ℕ)
        → t < env.touched_at + record_ttl env.time_limit * second
        → server.wait_keys.get w.waiting.records t task ≡ some wait
    pub indexed :
        (t : ℕ)
        → t < env.touched_at + record_ttl env.time_limit * second
        → server.ranged.sets.zscore
            (index_at server.ranged server.wait_keys server.mark_keys t w.waiting)
            task
          ≡ some env.touched_at

  touched :
      (size : Option ℕ) (message : Dispatch) (w w' : World server)
      → env.touching ≡ up
      → w'.waiting ≡ (mark_waiting server id task args env size msg.retries w).waiting
      → w'.calls ≡ w.calls ++ sending task message ∷ []
      → Waits w'
  unfolding touch
  touched size message w w' is_up same sent = record {
    message = message;
    earlier = w.calls;
    sent = sent;
    wait = record {
      source_id = id;
      dispatch = record { source_size = size; retries = msg.retries };
    };
    of_source = refl;
    same_retries = refl;
    recorded = λ t h. rw (same, is_up, server.wait_keys.get-set, =s_refl task) (ground (arith, h));
    indexed = λ t h.
        rw (same, is_up)
          (ground (
            arith,
            h,
            server.ranged.sets.zscore-zadd
                (index_at server.ranged server.wait_keys server.mark_keys env.touched_at w.waiting)
                env.touched_at task task,
            =s_refl task,
          ));
  }

  -- what is proved of each place where a delivery ends
  abbrev pub Keeps : Answer × World server → Type 0
  Keeps (a, w) = is_sent_again a ≡ true → Waits w

  pub Keeps-if :
      (c : Bool) (x y : Answer × World server)
      → (c ≡ true → Keeps x)
      → (c ≡ false → Keeps y)
      → Keeps (if c then x else y)
  Keeps-if true x y hx hy = hx refl
  Keeps-if false x y hx hy = hy refl

  pub over : (a : Answer) (w : World server) → is_sent_again a ≡ false → Keeps (a, w)
  over a w h k = absurd (ground (arith, h, k))

  Waits-alike : (w v : World server) → v.calls ≡ w.calls → v.waiting ≡ w.waiting → Waits w → Waits v
  Waits-alike w v calls waiting h = record {
    message = h.message;
    earlier = h.earlier;
    sent = calls ∙ h.sent;
    wait = h.wait;
    of_source = h.of_source;
    same_retries = h.same_retries;
    recorded = rw (waiting) h.recorded;
    indexed = rw (waiting) h.indexed;
  }

  cleaned :
      (forget : Bool) (token : Option String) (w : World server)
      → let v =
          release_slot server id task args env token
            (end_attempt server id task args env forget w) in
        (v.calls ≡ w.calls) × (v.waiting ≡ w.waiting)
  cleaned true none w = (refl, refl)
  cleaned true (some token) w = (refl, refl)
  cleaned false none w = (refl, refl)
  cleaned false (some token) w = (refl, refl)

  pub finally-Keeps :
      (forget : Bool) (token : Option String) (x : Answer × World server)
      → Keeps x
      → Keeps (finally server id task args env forget token x)
  finally-Keeps forget token (a, w) h =
      Keeps-if (has_died a) (a, w)
        (
          a,
          release_slot server id task args env token (end_attempt server id task args env forget w),
        )
        (λ _. h)
        (λ _ k. Waits-alike w _ (cleaned forget token w).0 (cleaned forget token w).1 (h k))

  unless-Keeps :
      (x : Bool × Table) (w : World server) (a : Answer)
      → is_sent_again a ≡ false
      → Keeps (unless_superseded server id task args env x w a)
  unless-Keeps (true, t) w a h = over a (with_sources server t w) h
  unless-Keeps (false, t) w a h = over superseded (with_sources server t w) refl

  module _ (is_up : env.touching ≡ up) where
    retry-Keeps :
        (x : Bool × Table) (w : World server) → Keeps (retry server id task args env msg x w)
    retry-Keeps (true, t) w k =
        touched msg.source_size
          (record { source_size = msg.source_size; retries = msg.retries + 1 })
          (with_sources server t w) _ is_up refl refl
    retry-Keeps (false, t) w k = over superseded (with_sources server t w) refl k

    pub requeued-Keeps :
        (size : Option ℕ) (w : World server)
        → Keeps (requeued server id task args env size msg.retries w)
    requeued-Keeps size w k =
        touched size (record { source_size = size; retries = msg.retries }) w _ is_up refl refl

    pub on_storage_error-Keeps :
        (cause : String) (w : World server)
        → Keeps (on_storage_error server id task args env msg cause w)
    unfolding on_storage_error
    on_storage_error-Keeps cause w =
        Keeps-if (ltb msg.retries max_retries) _ _
          (λ _.
            retry-Keeps
              (update_source_status id pending (attempt_failed (msg.retries + 1) cause) task none
                w.sources)
              w)
          (λ _.
            unless-Keeps
              (update_source_status id failed (failed_after (max_retries + 1) cause) task
                (some transient) w.sources)
              w error refl)

    pub on_exception-Keeps :
        (text : String) (w : World server) → Keeps (on_exception server id task args env text w)
    unfolding on_exception
    on_exception-Keeps text w =
        unless-Keeps (update_source_status id failed (raised_message text) task none w.sources) w
          error refl

    pub end_of_body-Keeps :
        (body : Body) (w : World server) → Keeps (end_of_body server id task args env msg body w)
    unfolding end_of_body on_soft_time_limit store_result
    end_of_body-Keeps (produced res) w =
        Keeps-if (cancelled_in server id task args env w.sources) _ _
          (λ _. over cancelled_answer w refl)
          (λ _.
            Keeps-if
              (update_source_extraction_result id (outcome_of res).0 (outcome_of res).1 task
                w.sources).0
              _ _ (λ _. over success _ refl) (λ _. over superseded _ refl))
    end_of_body-Keeps soft_time_limit w =
        Keeps-if (cancelled_in server id task args env w.sources) _ _
          (λ _. over cancelled_answer w refl)
          (λ _.
            unless-Keeps (update_source_status id failed timed_out task (some timeout) w.sources) w
              timed_out_answer refl)
    end_of_body-Keeps extraction_superseded w = over superseded w refl
    end_of_body-Keeps worker_killed w = over died w refl
    end_of_body-Keeps (storage_error cause) w = on_storage_error-Keeps cause w
    end_of_body-Keeps (raised text) w = on_exception-Keeps text w
