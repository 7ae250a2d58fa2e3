-- ===== src/VectorIndex/Reconcile/Frame.antt =====
-- A dimension of ensure_per_kb_vector_index leaves the other indexes and the earlier waits alone.
use powabase_ai.Prelude.{
  ℕ, ◌+◌, ◌≤◌, ◌≡◌, refl, Bool, true, false, Option, none, some, [], ◌∷◌, ◌++◌, arith, length,
  length-append, ◌==◌, if◌then◌else◌,
}
use powabase_ai.VectorIndex.{Comment, Index, Reading}
use powabase_ai.VectorIndex.Catalog.{
  Catalog, no_comment, count_a_definition_rebuild, settle_a_definition_rebuild,
  count_a_failed_build, record_build_failure, count_a_failed_repair_drop, counted_attempt,
  drop_index, record_the_definition_built,
}
use powabase_ai.VectorIndex.Reconcile.{
  Met, Hold, held, table_is_busy, lock_was_taken, Report, Pass, holding, defer_the_rebuild,
  create_index, build_missing, repair_invalid, reconcile_invalid, drop_small, replace_drifted,
  rebuild_drifted, reconcile_valid, reconcile_state, reconcile_dims,
}

-- how many dimensions wait for another caller
abbrev pub waits : Report → ℕ
waits p = length p.blocked + length p.table_busy

module _ (r : Reading) (d : ℕ) (met : Met) (e : ℕ) (other : (e == d) ≡ false) where
  -- what the pass leaves of another index and of the waits
  abbrev Kept : Report → Catalog → Pass → Type 0
  Kept p db x = (x.catalog.index e ≡ db.index e) × (waits p ≤ waits x.report)

  Kept-if :
      (p : Report) (db : Catalog) (b : Bool) (x y : Pass)
      → Kept p db x
      → Kept p db y
      → Kept p db (if b then x else y)
  Kept-if p db true x y hx hy = hx
  Kept-if p db false x y hx hy = hy

  Kept-holding :
      (h : Hold) (p : Report) (db : Catalog) (x : Pass)
      → Kept p db x
      → Kept p db (holding d h p db x)
  unfolding defer_the_rebuild
  Kept-holding held p db x k = k
  Kept-holding (table_is_busy hs err) p db x k =
      (refl, omega (arith, length-append p.table_busy (d ∷ [])))
  Kept-holding lock_was_taken p db x k = (refl, omega (arith, length-append p.blocked (d ∷ [])))

  create_index-keeps :
      (prior : Comment) (p : Report) (db : Catalog) → Kept p db (create_index r d met prior p db)
  unfolding create_index record_the_definition_built count_a_failed_build counted_attempt
  create_index-keeps prior p db = ground (arith, other)

  build_missing-keeps :
      (prior : Comment) (holds_a_place : Bool) (p : Report) (db : Catalog)
      → Kept p db (build_missing r d met prior holds_a_place p db)
  unfolding build_missing
  build_missing-keeps prior holds p db = ground (
    arith,
    Kept-holding met.before_build p db (create_index r d met prior p db)
        (create_index-keeps prior p db),
  )

  repair_invalid-keeps :
      (c : Comment) (p : Report) (db : Catalog) → Kept p db (repair_invalid r d met c p db)
  unfolding repair_invalid count_a_failed_repair_drop record_build_failure counted_attempt
  repair_invalid-keeps c p db = ground (
    arith,
    other,
    build_missing-keeps c false (record p { repaired = p.repaired ++ (d ∷ []) })
        (drop_index d met.drop_ends db),
  )

  drop_small-keeps : (p : Report) (db : Catalog) → Kept p db (drop_small r d met p db)
  unfolding drop_small
  drop_small-keeps p db = ground (arith, other)

  replace_drifted-keeps :
      (c : Comment) (p : Report) (db : Catalog) → Kept p db (replace_drifted r d met c p db)
  unfolding replace_drifted
  replace_drifted-keeps c p db = ground (
    arith,
    other,
    build_missing-keeps (record no_comment { definition_rebuilds = c.definition_rebuilds + 1 }) true
        (record p { rebuilt = p.rebuilt ++ (d ∷ []) }) (drop_index d met.drop_ends db),
  )

  rebuild_drifted-keeps :
      (c : Comment) (p : Report) (db : Catalog) → Kept p db (rebuild_drifted r d met c p db)
  unfolding rebuild_drifted count_a_definition_rebuild
  rebuild_drifted-keeps c p db = ground (
    arith,
    other,
    replace_drifted-keeps c p (count_a_definition_rebuild met.count_lands d c db).1,
  )

  reconcile_valid-keeps :
      (c : Comment) (p : Report) (db : Catalog) → Kept p db (reconcile_valid r d met c p db)
  unfolding reconcile_valid settle_a_definition_rebuild
  reconcile_valid-keeps c p db = ground (
    arith,
    other,
    Kept-holding met.before_drop p db (drop_small r d met p db) (drop_small-keeps p db),
    Kept-holding met.before_drop p db (rebuild_drifted r d met c p db)
        (rebuild_drifted-keeps c p db),
  )

  reconcile_invalid-keeps :
      (c : Comment) (p : Report) (db : Catalog) → Kept p db (reconcile_invalid r d met c p db)
  unfolding reconcile_invalid
  reconcile_invalid-keeps c p db = ground (
    arith,
    Kept-holding met.before_drop p db (repair_invalid r d met c p db) (repair_invalid-keeps c p db),
    length-append p.blocked (d ∷ []),
  )

  reconcile_state-keeps :
      (s : Option Index) (p : Report) (db : Catalog) → Kept p db (reconcile_state r d met s p db)
  unfolding reconcile_state
  reconcile_state-keeps none p db = build_missing-keeps no_comment false p db
  reconcile_state-keeps (some i) p db =
      Kept-if p db i.is_valid _ _ (reconcile_valid-keeps i.comment p db)
        (reconcile_invalid-keeps i.comment p db)

  pub reconcile_dims-keeps : (p : Report) (db : Catalog) → Kept p db (reconcile_dims r d met p db)
  unfolding reconcile_dims
  reconcile_dims-keeps p db =
      Kept-if p db met.lock_is_free _ _ (reconcile_state-keeps (db.index d) p db)
        (refl, omega (arith, length-append p.blocked (d ∷ [])))
