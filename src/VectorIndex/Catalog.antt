-- ===== src/VectorIndex/Catalog.antt =====
-- services/pg_vector_index.py: the statements that build, drop and comment on the indexes of a
-- knowledge base. An index is known by its dimension, since per_kb_index_name is made of the
-- knowledge base and the dimension. Postgres decides how a statement ends.
use powabase_ai.Prelude.{
  ℕ, ◌+◌, Bool, true, false, Option, none, some, List, ◌∷◌, String, ltb, leb, ◌==◌, ◌&&◌,
  if◌then◌else◌,
}
use powabase_ai.VectorIndex.{Comment, Index, max_definition_rebuilds}

pub data Statement : Type 0 where
  creating dropping : ℕ → Statement

-- The indexes of the knowledge base in the catalog, and the DDL that was issued, the last first.
pub record Catalog : Type 0 where
  pub index : ℕ → Option Index
  pub issued : List Statement

-- How a CREATE or a DROP INDEX CONCURRENTLY ends: done; or with an exception, transient or not,
-- before it changed the catalog, or with an INVALID index in place.
pub data Ending : Type 0 where
  done : Ending
  refused left_invalid : (transient : Bool) → Ending

-- The comment of an index that has none.
abbrev pub no_comment : Comment
no_comment = record {
  build_failures = 0;
  interrupted_builds = 0;
  definition_rebuilds = 0;
  fingerprint = none;
}

abbrev pub with_index : ℕ → Option Index → (ℕ → Option Index) → ℕ → Option Index
with_index d s index e = if e == d then s else index e

abbrev pub commented : Comment → Option Index → Option Index
commented c none = none
commented c (some i) = some (record i { comment = c })

-- index_comment, of the catalog entry
abbrev pub comment_of : Option Index → Comment
comment_of none = no_comment
comment_of (some i) = i.comment

-- _write_index_comment: best effort, so it may not land
abbrev pub write_index_comment : Bool → ℕ → Comment → Catalog → Catalog
write_index_comment lands d c db = record db {
  index = if lands then with_index d (commented c (db.index d)) db.index else db.index;
}

-- _record_build_failure
unfoldable pub record_build_failure : Bool → ℕ → ℕ × ℕ → Catalog → Catalog
record_build_failure lands d (failures, interrupted) db =
    write_index_comment lands d
      (record (comment_of (db.index d)) {
        build_failures = failures;
        interrupted_builds = interrupted;
      })
      db

-- _record_the_definition_built
unfoldable pub record_the_definition_built : Bool → ℕ → String → ℕ → Catalog → Catalog
record_the_definition_built lands d current rebuilds db =
    write_index_comment lands d
      (record {
        build_failures = 0;
        interrupted_builds = 0;
        definition_rebuilds = rebuilds;
        fingerprint = some current;
      })
      db

-- _settle_a_definition_rebuild
unfoldable pub settle_a_definition_rebuild : Bool → ℕ → Comment → Catalog → Catalog
settle_a_definition_rebuild lands d c db =
    if ltb 0 c.definition_rebuilds && ltb c.definition_rebuilds max_definition_rebuilds
    then write_index_comment lands d (record c { definition_rebuilds = 0 }) db
    else db

-- _counted_attempt, of the counts before and of what is_transient_db_error says
unfoldable pub counted_attempt : Comment → Bool → ℕ × ℕ
counted_attempt prior transient =
    if transient
    then (prior.build_failures, prior.interrupted_builds + 1)
    else (prior.build_failures + 1, prior.interrupted_builds)

-- _count_a_failed_build
unfoldable pub count_a_failed_build : Bool → ℕ → String → Comment → Bool → Catalog → Catalog
unfolding counted_attempt
count_a_failed_build lands d current prior transient db =
    let (failures, interrupted) = counted_attempt prior transient in
    write_index_comment lands d
      (record {
        build_failures = failures;
        interrupted_builds = interrupted;
        definition_rebuilds = prior.definition_rebuilds;
        fingerprint = some current;
      })
      db

-- _count_a_failed_repair_drop
unfoldable pub count_a_failed_repair_drop : Bool → ℕ → Comment → Bool → Catalog → Catalog
unfolding record_build_failure counted_attempt
count_a_failed_repair_drop lands d prior transient db =
    record_build_failure lands d (counted_attempt prior transient) db

-- _count_a_definition_rebuild, with what it reads back
unfoldable pub count_a_definition_rebuild : Bool → ℕ → Comment → Catalog → Bool × Catalog
count_a_definition_rebuild lands d c db =
    let rebuilds = c.definition_rebuilds + 1 in
    let db' =
      write_index_comment lands d
        (record c { build_failures = 0; interrupted_builds = 0; definition_rebuilds = rebuilds })
        db in
    (leb rebuilds (comment_of (db'.index d)).definition_rebuilds, db')

abbrev pub created : Ending → Option Index → Option Index
created done none = some (record { is_valid = true; comment = no_comment })
created (refused transient) none = none
created (left_invalid transient) none = some (record { is_valid = false; comment = no_comment })
-- IF NOT EXISTS
created _ (some i) = some i

abbrev pub dropped_index : Ending → Option Index → Option Index
dropped_index done s = none
dropped_index (refused transient) s = s
dropped_index (left_invalid transient) none = none
dropped_index (left_invalid transient) (some i) = some (record i { is_valid = false })

-- the per_kb_index_ddl statement
abbrev pub execute_create : ℕ → Ending → Catalog → Catalog
execute_create d ending db = record {
  index = with_index d (created ending (db.index d)) db.index;
  issued = creating d ∷ db.issued;
}

-- _drop_index
abbrev pub drop_index : ℕ → Ending → Catalog → Catalog
drop_index d ending db = record {
  index = with_index d (dropped_index ending (db.index d)) db.index;
  issued = dropping d ∷ db.issued;
}
