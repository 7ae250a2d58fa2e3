-- ===== src/VectorIndex/Ensure.antt =====
-- services/pg_vector_index.py: the loop of ensure_per_kb_vector_index and the outcome it returns.
pub mod Finished
use powabase_ai.Prelude.{
  ℕ, Bool, true, false, Option, none, some, List, [], ◌∷◌, ◌++◌, map, if◌then◌else◌, any,
}
use powabase_ai.VectorIndex.{Reading, States, dims_in_play}
use powabase_ai.VectorIndex.Catalog.{Catalog}
use powabase_ai.VectorIndex.Reconcile.{Holder, Met, Report, Pass, next, reconcile_dims}

abbrev pub no_report : Report
no_report = record {
  built = [];
  dropped = [];
  repaired = [];
  rebuilt = [];
  stale_kept = [];
  blocked = [];
  doomed = [];
  unsettled = [];
  above_limit = [];
  table_busy = [];
  rebuild_deferred = [];
  reschedule = none;
  cap_reached = none;
  table_holders = [];
  evidence_error = none;
}

-- `for dims in dims_in_play`. Before the lock of a dimension is taken, others act on the catalog.
unfoldable pub reconcile :
    Reading → (ℕ → Met) → (ℕ → Catalog → Catalog) → List ℕ → Report → Catalog → Pass
reconcile r met others [] p db = next p db
reconcile r met others (d ∷ ds) p db =
    let x = reconcile_dims r d (met d) p (others d db) in
    let later = reconcile r met others ds x.report x.catalog in if x.raised then x else later

-- ensure_per_kb_vector_index, of the candidate dimensions and the surveyed states
unfoldable pub ensure :
    Reading → (ℕ → Met) → (ℕ → Catalog → Catalog) → List ℕ → States → Catalog → Pass
unfolding reconcile dims_in_play
ensure r met others candidates existing db =
    reconcile r met others (dims_in_play (candidates ++ map (λ e. e.0) existing)) no_report db

pub data Status : Type 0 where
  ready skipped building table_busy : Status

pub data Reason : Type 0 where
  dims_above_hnsw_limit index_cap_reached definition_rebuild_not_settling build_repeatedly_failed :
      Reason
  invalid_index_build_in_progress build_lock_held table_ddl_in_progress : Reason
  table_held_without_a_build table_holders_unreadable table_lock_held : Reason

-- The entries of the outcome that are not lists of the report.
pub record Outcome : Type 0 where
  pub status : Status
  pub reason : Option Reason
  pub index : Option ℕ
  pub index_count : Option ℕ
  pub reschedule : Bool
  pub build_alive : Option Bool

abbrev pub is_some : {A : Type 0} → Option A → Bool
is_some none = false
is_some (some a) = true

abbrev pub is_empty : {A : Type 0} → List A → Bool
is_empty [] = true
is_empty (a ∷ rest) = false

abbrev pub first : List ℕ → Option ℕ
first [] = none
first (d ∷ ds) = some d

abbrev pub skipped_for : Reason → Outcome → Outcome
skipped_for why o = record o { status = skipped; reason = some why }

abbrev pub with_above_limit : Report → Outcome → Outcome
with_above_limit p o = if is_empty p.above_limit then o else skipped_for dims_above_hnsw_limit o

abbrev pub with_cap : Report → Outcome → Outcome
with_cap p o =
    if is_some p.cap_reached
    then record (skipped_for index_cap_reached o) { index_count = p.cap_reached }
    else o

abbrev pub with_unsettled : Report → Outcome → Outcome
with_unsettled p o =
    if is_empty p.unsettled then o else skipped_for definition_rebuild_not_settling o

abbrev pub with_doomed : Report → Outcome → Outcome
with_doomed p o = if is_empty p.doomed then o else skipped_for build_repeatedly_failed o

abbrev pub with_blocked : Report → Outcome → Outcome
with_blocked p o = if is_empty p.blocked then o else record o {
  status = building;
  index = if is_some p.reschedule then p.reschedule else first p.blocked;
  reason = some (if is_some p.reschedule then invalid_index_build_in_progress else build_lock_held);
  reschedule = is_some p.reschedule;
}

abbrev pub is_alive : List Holder → Bool
is_alive hs = any (λ h. h.is_running) hs

abbrev pub busy_reason : Report → Reason
busy_reason p =
    if is_alive p.table_holders
    then table_ddl_in_progress
    else if is_empty p.table_holders
    then if is_some p.evidence_error then table_holders_unreadable else table_lock_held
    else table_held_without_a_build

abbrev pub with_busy : Report → Outcome → Outcome
with_busy p o = if is_empty p.table_busy then o else record o {
  status = table_busy;
  reason = some (busy_reason p);
  index = first p.table_busy;
  build_alive = some (is_alive p.table_holders);
}

-- the outcome of a reconcile that no exception left and that had a dimension in play
unfoldable pub outcome : Report → Outcome
outcome p = with_busy p (
    with_blocked p (
      with_doomed p (
        with_unsettled p (
          with_cap p (
            with_above_limit p (record {
              status = ready;
              reason = none;
              index = none;
              index_count = none;
              reschedule = false;
              build_alive = none;
            }))))))

-- outcome_waits_for_the_table
abbrev pub outcome_waits_for_the_table : Outcome → Bool
outcome_waits_for_the_table o = elim o.status [
  | ready ↦ false
  | skipped ↦ false
  | building ↦ false
  | table_busy ↦ true
]

-- outcome_needs_another_attempt
abbrev pub outcome_needs_another_attempt : Outcome → Bool
outcome_needs_another_attempt o = o.reschedule
