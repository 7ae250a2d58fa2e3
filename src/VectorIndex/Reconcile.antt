-- ===== src/VectorIndex/Reconcile.antt =====
-- services/pg_vector_index.py: ensure_per_kb_vector_index, one dimension after the other.
-- The locks, the other builds and how a statement ends are given for each dimension; its log lines
-- and its progress hook change nothing. The lists of the source hold a name where these hold the
-- dimension that the name is made of.
pub mod Agreement
pub mod Frame
mod Waiting
mod Tests
mod Bound
pub mod Settled
use powabase_ai.Prelude.{
  ℕ, ◌+◌, Bool, true, false, not, ◌&&◌, ◌||◌, Option, none, some, List, [], ◌∷◌, ◌++◌, String, ltb,
  leb, ◌==◌, if◌then◌else◌, any,
}
use powabase_ai.VectorIndex.{
  Comment, Index, Reading, bounded_row_count, may_be_wide, max_per_kb_indexes, or_else,
  build_is_given_up, definition_has_drifted, definition_rebuild_is_given_up,
}
use powabase_ai.VectorIndex.Catalog.{
  Catalog, Ending, done, refused, left_invalid, no_comment, created, execute_create, drop_index,
  write_index_comment, record_the_definition_built, settle_a_definition_rebuild,
  count_a_failed_build, count_a_failed_repair_drop, count_a_definition_rebuild,
}

-- a backend that holds a lock on the table: `kind` is "running"
pub record Holder : Type 0 where
  pub pid : ℕ
  pub is_running : Bool

-- What _TableGate.hold answers: the gate, PerKbVectorIndexTableBusy with the evidence, or
-- PerKbVectorIndexBuildInProgress.
pub data Hold : Type 0 where
  held : Hold
  table_is_busy : (holders : List Holder) (evidence_error : Option String) → Hold
  lock_was_taken : Hold

-- What a reconcile meets at one dimension. The gate is asked for before a drop and before a build.
pub record Met : Type 0 where
  -- _try_lock
  pub lock_is_free : Bool
  -- _build_in_progress
  pub build_in_progress : Bool
  -- per_kb_index_count
  pub index_count : ℕ
  pub before_drop : Hold
  pub before_build : Hold
  pub drop_ends : Ending
  pub create_ends : Ending
  -- whether the rebuild count lands, and the comment that is written last
  pub count_lands : Bool
  pub comment_lands : Bool

-- the variables of the reconcile that its outcome is made of
pub record Report : Type 0 where
  pub built : List ℕ
  pub dropped : List ℕ
  pub repaired : List ℕ
  pub rebuilt : List ℕ
  pub stale_kept : List ℕ
  pub blocked : List ℕ
  pub doomed : List ℕ
  pub unsettled : List ℕ
  pub above_limit : List ℕ
  pub table_busy : List ℕ
  pub rebuild_deferred : List ℕ
  pub reschedule : Option ℕ
  pub cap_reached : Option ℕ
  pub table_holders : List Holder
  pub evidence_error : Option String

-- Where a dimension ends: whether an exception leaves the reconcile, the report and the catalog.
pub record Pass : Type 0 where
  pub raised : Bool
  pub report : Report
  pub catalog : Catalog

abbrev pub next : Report → Catalog → Pass
next p db = record { raised = false; report = p; catalog = db }

abbrev pub raise : Report → Catalog → Pass
raise p db = record { raised = true; report = p; catalog = db }

abbrev pub is_in : ℕ → List ℕ → Bool
is_in d ds = any (λ e. e == d) ds

-- defer_the_rebuild
unfoldable pub defer_the_rebuild : ℕ → Report → Report
defer_the_rebuild d p = record p {
  rebuild_deferred =
      if is_in d p.repaired || is_in d p.rebuilt
      then p.rebuild_deferred ++ (d ∷ [])
      else p.rebuild_deferred;
}

-- `table_holders.setdefault` for every holder
abbrev pub merge_holders : List Holder → List Holder → List Holder
merge_holders known [] = known
merge_holders known (h ∷ hs) =
    merge_holders (if any (λ k. k.pid == h.pid) known then known else known ++ (h ∷ [])) hs

abbrev pub on_table_busy : ℕ → List Holder → Option String → Report → Report
on_table_busy d holders evidence_error p = record p {
  table_busy = p.table_busy ++ (d ∷ []);
  table_holders = merge_holders p.table_holders holders;
  evidence_error = or_else p.evidence_error evidence_error;
}

abbrev pub on_build_in_progress : ℕ → Report → Report
on_build_in_progress d p = record p { blocked = p.blocked ++ (d ∷ []) }

-- `gate.hold()` before what follows it, with the handlers of its two exceptions
abbrev pub holding : ℕ → Hold → Report → Catalog → Pass → Pass
holding d held p db follows = follows
holding d (table_is_busy holders evidence_error) p db follows =
    next (on_table_busy d holders evidence_error (defer_the_rebuild d p)) db
holding d lock_was_taken p db follows = next (on_build_in_progress d (defer_the_rebuild d p)) db

module _ (r : Reading) (d : ℕ) (met : Met) where
  -- _create_index, and `built.append`
  unfoldable pub create_index : Comment → Report → Catalog → Pass
  unfolding record_the_definition_built count_a_failed_build
  create_index prior p db =
      let db' = execute_create d met.create_ends db in
      elim met.create_ends [
        | done ↦
            next (record p { built = p.built ++ (d ∷ []) })
              (record_the_definition_built met.comment_lands d (r.current d)
                prior.definition_rebuilds db')
        | refused transient ↦
            raise p (count_a_failed_build met.comment_lands d (r.current d) prior transient db')
        | left_invalid transient ↦
            raise p (count_a_failed_build met.comment_lands d (r.current d) prior transient db')
      ]

  -- from `if rows < build_at` on, with the counts that were read before a drop
  unfoldable pub build_missing : Comment → Bool → Report → Catalog → Pass
  unfolding create_index
  build_missing prior holds_a_place p db =
      if ltb (bounded_row_count r d) r.build_at
      then next p db
      else if not (may_be_wide d)
      then next (record p { above_limit = p.above_limit ++ (d ∷ []) }) db
      else if not holds_a_place && leb max_per_kb_indexes met.index_count
      then next (record p { cap_reached = some met.index_count }) db
      else holding d met.before_build p db (create_index prior p db)

  -- _repair_invalid, and what follows it
  unfoldable pub repair_invalid : Comment → Report → Catalog → Pass
  unfolding count_a_failed_repair_drop build_missing
  repair_invalid c p db =
      let db' = drop_index d met.drop_ends db in
      elim met.drop_ends [
        | done ↦ build_missing c false (record p { repaired = p.repaired ++ (d ∷ []) }) db'
        | refused transient ↦
            raise p (count_a_failed_repair_drop met.comment_lands d c transient db')
        | left_invalid transient ↦
            raise p (count_a_failed_repair_drop met.comment_lands d c transient db')
      ]

  -- `valid is False`
  unfoldable pub reconcile_invalid : Comment → Report → Catalog → Pass
  unfolding repair_invalid
  reconcile_invalid c p db =
      if met.build_in_progress
      then next
          (record p { blocked = p.blocked ++ (d ∷ []); reschedule = or_else p.reschedule (some d) })
          db
      else if build_is_given_up c && (ltb r.drop_below (bounded_row_count r d) && may_be_wide d)
      then next (record p { doomed = p.doomed ++ (d ∷ []) }) db
      else holding d met.before_drop p db (repair_invalid c p db)

  -- `_drop_index` at or below the drop threshold
  unfoldable pub drop_small : Report → Catalog → Pass
  drop_small p db =
      let db' = drop_index d met.drop_ends db in
      elim met.drop_ends [
        | done ↦ next (record p { dropped = p.dropped ++ (d ∷ []) }) db'
        | refused transient ↦ raise p db'
        | left_invalid transient ↦ raise p db'
      ]

  -- _drop_a_drifted_index, and what follows it
  unfoldable pub replace_drifted : Comment → Report → Catalog → Pass
  unfolding build_missing
  replace_drifted c p db =
      let db' = drop_index d met.drop_ends db in
      elim met.drop_ends [
        | done ↦
            build_missing (record no_comment { definition_rebuilds = c.definition_rebuilds + 1 })
              true (record p { rebuilt = p.rebuilt ++ (d ∷ []) }) db'
        | refused transient ↦ raise p db'
        | left_invalid transient ↦ raise p db'
      ]

  abbrev pub keep_stale : Report → Report
  keep_stale p = record p { stale_kept = p.stale_kept ++ (d ∷ []) }

  abbrev pub keep_unsettled : Report → Report
  keep_unsettled p = record (keep_stale p) { unsettled = p.unsettled ++ (d ∷ []) }

  -- a valid index of another definition
  unfoldable pub rebuild_drifted : Comment → Report → Catalog → Pass
  unfolding count_a_definition_rebuild replace_drifted
  rebuild_drifted c p db =
      let (counted, db') = count_a_definition_rebuild met.count_lands d c db in
      if counted then replace_drifted c p db' else next (keep_unsettled p) db'

  -- `valid is True`
  unfoldable pub reconcile_valid : Comment → Report → Catalog → Pass
  unfolding settle_a_definition_rebuild drop_small rebuild_drifted
  reconcile_valid c p db =
      if leb (bounded_row_count r d) r.drop_below
      then holding d met.before_drop p db (drop_small p db)
      else if not (definition_has_drifted (r.current d) c)
      then next p (settle_a_definition_rebuild met.comment_lands d c db)
      else if ltb (bounded_row_count r d) r.build_at || not (may_be_wide d)
      then next (keep_stale p) db
      else if definition_rebuild_is_given_up c
      then next (keep_unsettled p) db
      else if leb max_per_kb_indexes met.index_count
      then next (record (keep_stale p) { cap_reached = some met.index_count }) db
      else holding d met.before_drop p db (rebuild_drifted c p db)

  -- `valid` and `comment` as read under the lock
  unfoldable pub reconcile_state : Option Index → Report → Catalog → Pass
  unfolding reconcile_valid reconcile_invalid build_missing
  reconcile_state none p db = build_missing no_comment false p db
  reconcile_state (some i) p db =
      if i.is_valid then reconcile_valid i.comment p db else reconcile_invalid i.comment p db

  -- the body of the loop over the dimensions
  unfoldable pub reconcile_dims : Report → Catalog → Pass
  unfolding reconcile_state
  reconcile_dims p db =
      if met.lock_is_free
      then reconcile_state (db.index d) p db
      else next (on_build_in_progress d p) db
