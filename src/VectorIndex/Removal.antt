-- ===== src/VectorIndex/Removal.antt =====
-- The indexes of a deleted knowledge base: drop_per_kb_vector_indexes of services/pg_vector_index.py
-- and the task drop_per_kb_vector_index of tasks/indexing.py.
mod Gone
mod Tests
use powabase_ai.Prelude.{
  ℕ, ◌+◌, Bool, true, false, not, Option, none, some, List, [], ◌∷◌, ◌++◌, map, String, leb,
  if◌then◌else◌,
}
use powabase_ai.VectorIndex.{States, dims_in_play}
use powabase_ai.VectorIndex.Catalog.{Catalog, done, refused, left_invalid, drop_index}
use powabase_ai.VectorIndex.Reconcile.{Holder, Met, held, table_is_busy, lock_was_taken}
use powabase_ai.VectorIndex.Ensure.{is_empty, is_alive}
use powabase_ai.VectorIndex.Task.{
  max_retries, Message, counted_retries, Env, Answer, retrying, failed, error, come_back,
  wait_for_the_table,
}

-- The dropped dimensions, or the exception that leaves: PerKbVectorIndexBuildInProgress,
-- PerKbVectorIndexTableBusy, a transient one, or PerKbVectorIndexDropFailed.
pub data Removal : Type 0 where
  removed : (dropped : List ℕ) → Removal
  build_in_progress : Removal
  table_is_owned : (holders : List Holder) → Removal
  transient_error : Removal
  drop_failed : (dropped not_dropped : List ℕ) → Removal

abbrev pub removal_of : List ℕ → List ℕ → Removal
removal_of dropped not_dropped =
    if is_empty not_dropped then removed dropped else drop_failed dropped not_dropped

-- the loop over the dimensions; a hold that is refused otherwise is an exception that is not
-- transient
unfoldable pub drop_each : (ℕ → Met) → List ℕ → List ℕ → List ℕ → Catalog → Removal × Catalog
drop_each met [] dropped not_dropped db = (removal_of dropped not_dropped, db)
drop_each met (d ∷ ds) dropped not_dropped db =
    let db' = drop_index d (met d).drop_ends db in
    let next = drop_each met ds (dropped ++ (d ∷ [])) not_dropped db' in
    let past = drop_each met ds dropped (not_dropped ++ (d ∷ [])) db' in
    let unheld = drop_each met ds dropped (not_dropped ++ (d ∷ [])) db in
    if (met d).lock_is_free
    then elim (met d).before_drop [
      | held ↦ elim (met d).drop_ends [
        | done ↦ next
        | refused transient ↦ if transient then (transient_error, db') else past
        | left_invalid transient ↦ if transient then (transient_error, db') else past
      ]
      | table_is_busy holders evidence_error ↦ (table_is_owned holders, db)
      | lock_was_taken ↦ unheld
    ]
    else (build_in_progress, db)

-- drop_per_kb_vector_indexes, of the indexes that are found
unfoldable pub drop_per_kb_vector_indexes : (ℕ → Met) → States → Catalog → Removal × Catalog
unfolding drop_each dims_in_play
drop_per_kb_vector_indexes met existing db =
    drop_each met (dims_in_play (map (λ e. e.0) existing)) [] [] db

pub data DropAnswer : Type 0 where
  returned : (dropped : List ℕ) → DropAnswer
  ended : (a : Answer) → DropAnswer

-- what is retried and counted
abbrev pub retried : String → Env → Message → Answer
retried id env m = if leb max_retries (counted_retries m) then failed error else come_back id env m

-- the task drop_per_kb_vector_index, of what the removal ends with
unfoldable pub drop_task : String → Env → Message → Removal → DropAnswer
drop_task id env m (removed dropped) = returned dropped
drop_task id env m build_in_progress = ended (retried id env m)
drop_task id env m transient_error = ended (retried id env m)
drop_task id env m (drop_failed dropped not_dropped) = ended (failed error)
drop_task id env m (table_is_owned holders) =
    ended (if is_alive holders then wait_for_the_table id env m else retried id env m)
