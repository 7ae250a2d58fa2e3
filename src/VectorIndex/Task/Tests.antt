-- ===== src/VectorIndex/Task/Tests.antt =====
-- A waiter that another dispatch relied on, whose reconcile fails for good or which gives up.
use powabase_ai.Prelude.{◌≡◌, refl, true, false, none, some, List, [], ◌∷◌, arith, ◌⊎◌, inr}
use powabase_ai.VectorIndex.Reconcile.{raise}
use powabase_ai.VectorIndex.Ensure.{no_report, outcome}
use powabase_ai.VectorIndex.Task.{
  Message, counted_retries, Marks, World, error, Env, claim_waiter, on_busy, ensure_task, run,
}
use powabase_ai.VectorIndex.Task.Budget.{Delivery, runs, is_lost, deliveries, ensure_task-failed}
use powabase_ai.VectorIndex.Task.Handover.{ensure_task-hands_over}

abbrev first_message : Message
first_message = record { retries = 0; table_waits = 0 }

abbrev superseding : Marks → Marks
superseding marks = record { waiter = some "a"; pending = true }

abbrev failing : Env
failing = record {
  redis_answers = true;
  before_mark = λ marks. marks;
  before_look = λ marks. marks;
  before_clear = λ marks. marks;
  during = superseding;
  after_set = λ marks. marks;
  after_get = λ marks. marks;
  before_pending = λ marks. marks;
  before_release = λ marks. marks;
  pass = raise no_report (record { index = λ d. none; issued = [] });
  is_transient = false;
  broker_takes = true;
}

abbrev waiting : World
waiting = record { marks = record { waiter = some "a"; pending = false }; sent_again = 0 }

-- a worker that is killed, and the delivery of the same message after it
abbrev killed_once : List ((World → World) × Delivery)
killed_once = (λ w. w, is_lost (λ w. w)) ∷ (λ w. w, runs failing) ∷ []

two_deliveries : (deliveries "a" killed_once first_message waiting).0 ≡ 2
unfolding deliveries ensure_task run outcome
two_deliveries = refl

ensure_task-failed_example : (true ≡ true) × ((false ≡ false) ⊎ (counted_retries first_message ≡ 6))
unfolding ensure_task run
ensure_task-failed_example =
    ensure_task-failed "a" failing first_message (omega arith, (omega arith, omega arith)) refl
      waiting error refl

-- a waiter that finds the table busy and has used up its retries
abbrev giving_up : Env
giving_up = record failing {
  pass = record {
    raised = false;
    report = record no_report { table_busy = 1536 ∷ [] };
    catalog = record { index = λ d. none; issued = [] };
  };
}

abbrev last_message : Message
last_message = record { retries = 294; table_waits = 288 }

ensure_task-hands_over_example :
    (ensure_task "a" giving_up last_message waiting).1
    ≡ record { marks = record { waiter = none; pending = false }; sent_again = 1 }
unfolding ensure_task run outcome on_busy claim_waiter
ensure_task-hands_over_example =
    ensure_task-hands_over "a" giving_up last_message refl refl (λ marks mine. (refl, refl))
      (λ marks owing. owing) (λ marks owing. owing) waiting refl (inr (inr refl))
