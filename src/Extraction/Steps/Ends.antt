-- ===== src/Extraction/Steps/Ends.antt =====
-- The ends of a run of tasks/extraction.py use up no more than what the source row and the retries
-- allow.
use powabase_ai.Prelude.{
  ℕ, suc, ◌+◌, ◌≤◌, ◌≡◌, refl, Bool, true, false, Option, none, some, List, [], ◌∷◌, ◌++◌, String,
  arith, ltb, if◌then◌else◌, ◌⊎◌, inl, inr,
}
use powabase_ai.Gate.Waiting.{Dispatch}
use powabase_ai.Extraction.{
  Table, failed, transient, timeout, timed_out, raised_message, attempt_failed, failed_after,
  source_is_owned_by, update_source_status, update_source_extraction_result, Result, Dispatched,
  Charge, charge_of, outcome_of,
}
use powabase_ai.Extraction.Task.{
  max_retries, Server, Call, running_extraction, sending, charging, scheduling_sweep, Body,
  produced, soft_time_limit, extraction_superseded, worker_killed, storage_error, raised, Answer,
  with_sources, error, timed_out_answer, retry, charge, unless_superseded, cancelled_in, has_died,
  World, Env, on_soft_time_limit, on_storage_error, on_exception, store_result, end_of_body,
  finally,
}
use powabase_ai.Extraction.Credit.{credit, left, ends, rest, pending_credit, lost_row}

-- the runs in a list of calls
abbrev pub runs_in : List Call → ℕ
runs_in [] = 0
runs_in (running_extraction task ∷ calls) = suc (runs_in calls)
runs_in (sending task msg ∷ calls) = runs_in calls
runs_in (charging c ∷ calls) = runs_in calls
runs_in (scheduling_sweep ∷ calls) = runs_in calls

pub runs_in-append : (xs ys : List Call) → runs_in (xs ++ ys) ≡ runs_in xs + runs_in ys
runs_in-append [] ys = omega arith
runs_in-append (running_extraction task ∷ xs) ys = omega (arith, runs_in-append xs ys)
runs_in-append (sending task msg ∷ xs) ys = runs_in-append xs ys
runs_in-append (charging c ∷ xs) ys = runs_in-append xs ys
runs_in-append (scheduling_sweep ∷ xs) ys = runs_in-append xs ys

module _ (id task : String) where
  -- What others may do meanwhile: they leave the row as it is, or take it from the task.
  abbrev pub Elsewhere : (server : Server) → (World server → World server) → Type 0
  Elsewhere server f =
      (w : World server)
      → (((f w).sources id ≡ w.sources id) ⊎ (source_is_owned_by id task (f w).sources ≡ false))
        × ((f w).calls ≡ w.calls)

  module _ (server : Server) (args : Dispatched) (env : Env server) (msg : Dispatch) where
    abbrev pub Within : ℕ → Answer × World server → Type 0
    Within b (a, w) = runs_in w.calls + rest a msg (credit task (w.sources id)) ≤ b

    -- what the calls and the row allow before a step
    abbrev pub allowance : World server → ℕ
    allowance w = runs_in w.calls + (credit task (w.sources id) + left msg)

    pub Within-if :
        (b : ℕ) (c : Bool) (x y : Answer × World server)
        → (c ≡ true → Within b x)
        → (c ≡ false → Within b y)
        → Within b (if c then x else y)
    Within-if b true x y hx hy = hx refl
    Within-if b false x y hx hy = hy refl

    pub ended-Within :
        (b : ℕ) (a : Answer) (w : World server)
        → ends a ≡ true
        → runs_in w.calls ≤ b
        → Within b (a, w)
    ended-Within b a w e h = rw (e) (omega arith)

    pub unless-Within :
        (b : ℕ) (x : Bool × Table) (w : World server) (a : Answer)
        → ends a ≡ true
        → runs_in w.calls ≤ b
        → Within b (unless_superseded server id task args env x w a)
    unless-Within b (true, t) w a e h = rw (e) (omega arith)
    unless-Within b (false, t) w a e h = omega arith

    retry-Within :
        (b c : ℕ) (x : Bool × Table) (w : World server)
        → ltb msg.retries max_retries ≡ true
        → credit task (x.1 id) ≤ suc c
        → runs_in w.calls + (c + left msg) ≤ b
        → Within b (retry server id task args env msg x w)
    retry-Within b c (true, t) w again k h = ground (
      arith,
      runs_in-append w.calls
          (sending task (record { source_size = msg.source_size; retries = msg.retries + 1 }) ∷ []),
    )
    retry-Within b c (false, t) w again k h = omega arith

    pub on_storage_error-Within :
        (cause : String) (w : World server)
        → Within (allowance w) (on_storage_error server id task args env msg cause w)
    unfolding on_storage_error
    on_storage_error-Within cause w =
        Within-if (allowance w) (ltb msg.retries max_retries) _ _
          (λ again.
            retry-Within (allowance w) (credit task (w.sources id)) _ w again
              (pending_credit id task (attempt_failed (msg.retries + 1) cause) w.sources)
              (omega arith))
          (λ spent.
            unless-Within (allowance w)
              (update_source_status id failed (failed_after (max_retries + 1) cause) task
                (some transient) w.sources)
              w error refl (omega arith))

    on_soft_time_limit-Within :
        (w : World server) → Within (allowance w) (on_soft_time_limit server id task args env w)
    unfolding on_soft_time_limit
    on_soft_time_limit-Within w =
        Within-if (allowance w) (cancelled_in server id task args env w.sources) _ _
          (λ _. omega arith)
          (λ _.
            unless-Within (allowance w)
              (update_source_status id failed timed_out task (some timeout) w.sources) w
              timed_out_answer refl (omega arith))

    charge-runs :
        (c : Option Charge) (w : World server)
        → runs_in (charge server id task args env c w).calls ≡ runs_in w.calls
    charge-runs none w = refl
    charge-runs (some c) w = omega (arith, runs_in-append w.calls (charging c ∷ []))

    store_result-Within :
        (res : Result) (w : World server)
        → Within (allowance w) (store_result server id task args env res w)
    unfolding store_result
    store_result-Within res w =
        Within-if (allowance w) (cancelled_in server id task args env w.sources) _ _
          (λ _. omega arith)
          (λ _.
            Within-if (allowance w)
              (update_source_extraction_result id (outcome_of res).0 (outcome_of res).1 task
                w.sources).0
              _ _
              (λ _. omega (
                arith,
                charge-runs (charge_of id args res) (
                    with_sources server
                      (update_source_extraction_result id (outcome_of res).0 (outcome_of res).1 task
                        w.sources).1
                      w),
              ))
              (λ _. omega arith))

    pub end_of_body-Within :
        (body : Body) (w : World server)
        → Within (allowance w) (end_of_body server id task args env msg body w)
    unfolding end_of_body on_exception
    end_of_body-Within (produced res) w = store_result-Within res w
    end_of_body-Within soft_time_limit w = on_soft_time_limit-Within w
    end_of_body-Within extraction_superseded w = omega arith
    end_of_body-Within worker_killed w = omega arith
    end_of_body-Within (storage_error cause) w = on_storage_error-Within cause w
    end_of_body-Within (raised text) w =
        unless-Within (allowance w)
          (update_source_status id failed (raised_message text) task none w.sources) w error refl
          (omega arith)

    pub finally-Within :
        (b : ℕ) (forget : Bool) (token : Option String) (x : Answer × World server)
        → Within b x
        → Within b (finally server id task args env forget token x)
    finally-Within b forget token (a, w) h =
        Within-if b (has_died a) _ _ (λ _. h) (λ _. ground (arith, h))

    pub others_credit :
        (f : World server → World server) (w : World server)
        → Elsewhere server f
        → credit task ((f w).sources id) ≤ credit task (w.sources id)
    unfolding source_is_owned_by
    others_credit f w h = elim (h w).0 [
      | inl same ↦ rw (same) (omega arith)
      | inr lost ↦ rw (lost_row id task _ lost) (omega arith)
    ]

    pub others_allowance :
        (f : World server → World server) (w : World server)
        → Elsewhere server f
        → allowance (f w) ≤ allowance w
    others_allowance f w h = rw ((h w).1) (omega (arith, others_credit f w h))

    pub Within-le : (a b : ℕ) (x : Answer × World server) → a ≤ b → Within a x → Within b x
    Within-le a b x le h = omega arith
