-- ===== src/VectorIndex/Reconcile/Waiting.antt =====
-- A dimension for which ensure_per_kb_vector_index waits is left as it was found.
use powabase_ai.Prelude.{
  ℕ, ◌+◌, ◌<◌, ◌≡◌, refl, Bool, true, false, Option, none, some, List, [], ◌∷◌, ◌++◌, arith, ap,
  length, length-append, ◌||◌,
}
use powabase_ai.VectorIndex.{Comment, Index, Reading}
use powabase_ai.VectorIndex.Catalog.{
  Catalog, done, no_comment, drop_index, count_a_definition_rebuild,
}
use powabase_ai.VectorIndex.Reconcile.{
  Met, Hold, held, table_is_busy, lock_was_taken, Report, Pass, is_in, defer_the_rebuild, holding,
  create_index, build_missing, repair_invalid, reconcile_invalid, drop_small, replace_drifted,
  rebuild_drifted, reconcile_valid, reconcile_state, reconcile_dims,
}
use powabase_ai.VectorIndex.Reconcile.Frame.{waits}

is_in-append : (d : ℕ) (ds : List ℕ) → is_in d (ds ++ (d ∷ [])) ≡ true
is_in-append d [] = ground arith
is_in-append d (e ∷ ds) = ground (arith, is_in-append d ds)

-- a wait that begins is reported as a deferred rebuild
abbrev IsDeferred : Report → Pass → Type 0
IsDeferred p x =
    waits p < waits x.report → length p.rebuild_deferred < length x.report.rebuild_deferred

-- a wait that begins and is no deferred rebuild has changed nothing
abbrev LeavesAlone : Report → Catalog → Pass → Type 0
LeavesAlone p db x =
    waits p < waits x.report
    → x.report.rebuild_deferred ≡ p.rebuild_deferred
    → (x.raised ≡ false) × (x.catalog ≡ db)

module _ (r : Reading) (d : ℕ) (met : Met) where
  holding-IsDeferred :
      (h : Hold) (p : Report) (db : Catalog) (x : Pass)
      → (is_in d p.repaired || is_in d p.rebuilt) ≡ true
      → IsDeferred p x
      → IsDeferred p (holding d h p db x)
  unfolding defer_the_rebuild
  holding-IsDeferred held p db x gone k = k
  holding-IsDeferred (table_is_busy hs err) p db x gone k =
      λ begun. ground (arith, gone, length-append p.rebuild_deferred (d ∷ []))
  holding-IsDeferred lock_was_taken p db x gone k =
      λ begun. ground (arith, gone, length-append p.rebuild_deferred (d ∷ []))

  holding-LeavesAlone :
      (h : Hold) (p : Report) (db : Catalog) (x : Pass)
      → LeavesAlone p db x
      → LeavesAlone p db (holding d h p db x)
  unfolding defer_the_rebuild
  holding-LeavesAlone held p db x k = k
  holding-LeavesAlone (table_is_busy hs err) p db x k = λ begun same. (refl, refl)
  holding-LeavesAlone lock_was_taken p db x k = λ begun same. (refl, refl)

  waits-create_index :
      (prior : Comment) (p : Report) (db : Catalog)
      → waits (create_index r d met prior p db).report ≡ waits p
  unfolding create_index
  waits-create_index prior p db = ground arith

  build_missing-IsDeferred :
      (prior : Comment) (holds_a_place : Bool) (p : Report) (db : Catalog)
      → (is_in d p.repaired || is_in d p.rebuilt) ≡ true
      → IsDeferred p (build_missing r d met prior holds_a_place p db)
  unfolding build_missing
  build_missing-IsDeferred prior holds p db gone = λ begun. ground (
    arith,
    begun,
    waits-create_index prior p db,
    holding-IsDeferred met.before_build p db (create_index r d met prior p db) gone
        (λ b. absurd (omega (arith, b, waits-create_index prior p db))),
  )

  build_missing-LeavesAlone :
      (prior : Comment) (p : Report) (db : Catalog)
      → LeavesAlone p db (build_missing r d met prior false p db)
  unfolding build_missing
  build_missing-LeavesAlone prior p db = λ begun same. ground (
    arith,
    begun,
    same,
    holding-LeavesAlone met.before_build p db (create_index r d met prior p db)
        (λ b s. absurd (omega (arith, b, waits-create_index prior p db))),
  )

  repair_invalid-LeavesAlone :
      (c : Comment) (p : Report) (db : Catalog) → LeavesAlone p db (repair_invalid r d met c p db)
  unfolding repair_invalid
  repair_invalid-LeavesAlone c p db = λ begun same. absurd (
      ground (
        arith,
        begun,
        ap length same,
        is_in-append d p.repaired,
        build_missing-IsDeferred c false (record p { repaired = p.repaired ++ (d ∷ []) })
            (drop_index d done db),
      ))

  waits-drop_small : (p : Report) (db : Catalog) → waits (drop_small r d met p db).report ≡ waits p
  unfolding drop_small
  waits-drop_small p db = ground arith

  rebuild_drifted-LeavesAlone :
      (c : Comment) (p : Report) (db : Catalog) → LeavesAlone p db (rebuild_drifted r d met c p db)
  unfolding rebuild_drifted replace_drifted
  rebuild_drifted-LeavesAlone c p db = λ begun same. absurd (
      ground (
        arith,
        begun,
        ap length same,
        is_in-append d p.rebuilt,
        build_missing-IsDeferred
            (record no_comment { definition_rebuilds = c.definition_rebuilds + 1 }) true
            (record p { rebuilt = p.rebuilt ++ (d ∷ []) })
            (drop_index d done (count_a_definition_rebuild met.count_lands d c db).1),
      ))

  reconcile_valid-LeavesAlone :
      (c : Comment) (p : Report) (db : Catalog) → LeavesAlone p db (reconcile_valid r d met c p db)
  unfolding reconcile_valid
  reconcile_valid-LeavesAlone c p db = λ begun same. ground (
    arith,
    begun,
    same,
    holding-LeavesAlone met.before_drop p db (drop_small r d met p db)
        (λ b s. absurd (omega (arith, b, waits-drop_small p db))),
    holding-LeavesAlone met.before_drop p db (rebuild_drifted r d met c p db)
        (rebuild_drifted-LeavesAlone c p db),
  )

  reconcile_invalid-LeavesAlone :
      (c : Comment) (p : Report) (db : Catalog)
      → LeavesAlone p db (reconcile_invalid r d met c p db)
  unfolding reconcile_invalid
  reconcile_invalid-LeavesAlone c p db = λ begun same. ground (
    arith,
    begun,
    same,
    holding-LeavesAlone met.before_drop p db (repair_invalid r d met c p db)
        (repair_invalid-LeavesAlone c p db),
  )

  reconcile_state-LeavesAlone :
      (s : Option Index) (p : Report) (db : Catalog)
      → LeavesAlone p db (reconcile_state r d met s p db)
  unfolding reconcile_state
  reconcile_state-LeavesAlone none p db = build_missing-LeavesAlone no_comment p db
  reconcile_state-LeavesAlone (some i) p db = λ begun same. ground (
    arith,
    begun,
    same,
    reconcile_valid-LeavesAlone i.comment p db,
    reconcile_invalid-LeavesAlone i.comment p db,
  )

  -- A dimension that the reconcile reports as one that waits, for the table or for another caller
  -- of the index, and not as a deferred rebuild, is as it was found: no exception, no statement
  -- issued and no comment changed.
  pub reconcile_dims-waiting :
      (p : Report) (db : Catalog)
      → waits p < waits (reconcile_dims r d met p db).report
      → (reconcile_dims r d met p db).report.rebuild_deferred ≡ p.rebuild_deferred
      → ((reconcile_dims r d met p db).raised ≡ false)
        × ((reconcile_dims r d met p db).catalog ≡ db)
  unfolding reconcile_dims
  reconcile_dims-waiting p db begun same =
      ground (arith, begun, same, reconcile_state-LeavesAlone (db.index d) p db)
