-- ===== src/VectorIndex/Reconcile/Agreement.antt =====
-- The dispatch and the reconcile of services/pg_vector_index.py decide alike.
use powabase_ai.Prelude.{
  ℕ, ◌≤◌, ◌<◌, ◌≡◌, refl, ap, ◌∙◌, sym, ◌↔◌, Bool, true, false, Option, none, some, arith, length,
  Option-cases, inl, inr,
}
use powabase_ai.VectorIndex.{
  Comment, Index, Reading, Action, invalid_action, valid_action, dims_action,
}
use powabase_ai.VectorIndex.Catalog.{
  Catalog, no_comment, count_a_definition_rebuild, settle_a_definition_rebuild,
}
use powabase_ai.VectorIndex.Reconcile.{
  Met, held, Report, Pass, create_index, build_missing, repair_invalid, reconcile_invalid,
  drop_small, replace_drifted, rebuild_drifted, reconcile_valid, reconcile_state, reconcile_dims,
}

-- what index_action reads where the reconcile counts the project's indexes
abbrev pub reading_of : Reading → Met → Reading
reading_of r met = record r { index_count = met.index_count }

module _ (r : Reading) (d : ℕ) (met : Met) where
  -- the number of statements issued
  abbrev issued_by : Pass → ℕ
  issued_by x = length x.catalog.issued

  create_index-acts :
      (prior : Comment) (p : Report) (db : Catalog)
      → length db.issued < issued_by (create_index r d met prior p db)
  unfolding create_index
  create_index-acts prior p db = ground arith

  build_missing-le :
      (prior : Comment) (holds_a_place : Bool) (p : Report) (db : Catalog)
      → length db.issued ≤ issued_by (build_missing r d met prior holds_a_place p db)
  unfolding build_missing
  build_missing-le prior holds p db = ground (arith, create_index-acts prior p db)

  repair_invalid-acts :
      (c : Comment) (p : Report) (db : Catalog)
      → length db.issued < issued_by (repair_invalid r d met c p db)
  unfolding repair_invalid
  repair_invalid-acts c p db = ground (arith, build_missing-le c false)

  drop_small-acts :
      (p : Report) (db : Catalog) → length db.issued < issued_by (drop_small r d met p db)
  unfolding drop_small
  drop_small-acts p db = ground arith

  replace_drifted-acts :
      (c : Comment) (p : Report) (db : Catalog)
      → length db.issued < issued_by (replace_drifted r d met c p db)
  unfolding replace_drifted
  replace_drifted-acts c p db = grind (arith, build_missing-le)

  pub counted_lem :
      (c : Comment) (i : Index) (db : Catalog)
      → db.index d ≡ some i
      → (count_a_definition_rebuild true d c db).0 ≡ true
  unfolding count_a_definition_rebuild
  counted_lem c i db present = rw (present) (ground arith)

  counted_issued :
      (c : Comment) (db : Catalog) → (count_a_definition_rebuild true d c db).1.issued ≡ db.issued
  unfolding count_a_definition_rebuild
  counted_issued c db = refl

  rebuild_drifted-acts :
      (c : Comment) (i : Index) (p : Report) (db : Catalog)
      → met.count_lands ≡ true
      → db.index d ≡ some i
      → length db.issued < issued_by (rebuild_drifted r d met c p db)
  unfolding rebuild_drifted
  rebuild_drifted-acts c i p db lands present =
      rw (lands, counted_lem c i db present)
        (omega (
          arith,
          replace_drifted-acts c p (count_a_definition_rebuild true d c db).1,
          ap length (counted_issued c db),
        ))

  module _ (free : met.lock_is_free ≡ true) (no_build : met.build_in_progress ≡ false)
      (before_drop : met.before_drop ≡ held) (before_build : met.before_build ≡ held)
      (lands : met.count_lands ≡ true) where
    reconcile_state-quiet :
        (s : Option Index) (p : Report) (db : Catalog)
        → dims_action (reading_of r met) d s ≡ none
        → (reconcile_state r d met s p db).catalog.issued ≡ db.issued
    unfolding reconcile_state reconcile_valid reconcile_invalid build_missing dims_action
        valid_action invalid_action settle_a_definition_rebuild
    reconcile_state-quiet none p db h = ground (arith, h)
    reconcile_state-quiet (some i) p db h = ground (arith, h, no_build)

    reconcile_state-acts :
        (s : Option Index) (a : Action) (p : Report) (db : Catalog)
        → db.index d ≡ s
        → dims_action (reading_of r met) d s ≡ some a
        → length db.issued < issued_by (reconcile_state r d met s p db)
    unfolding reconcile_state reconcile_valid reconcile_invalid build_missing dims_action
        valid_action invalid_action settle_a_definition_rebuild
    reconcile_state-acts none a p db state h =
        ground (arith, h, create_index-acts no_comment p db, before_build)
    reconcile_state-acts (some i) a p db state h = ground (
      arith,
      h,
      no_build,
      before_drop,
      drop_small-acts p db,
      repair_invalid-acts i.comment p db,
      rebuild_drifted-acts i.comment i p db lands state,
    )

    reconcile_dims_state :
        (p : Report) (db : Catalog)
        → reconcile_dims r d met p db ≡ reconcile_state r d met (db.index d) p db
    unfolding reconcile_dims
    reconcile_dims_state p db = rw (free) refl

    -- Where the locks are free, no build of the index is running and the rebuild count can be
    -- written, the reconcile issues no CREATE and no DROP for a dimension exactly if index_action
    -- asks for nothing there, at the same rows, thresholds and number of indexes.
    pub reconcile_dims-asked :
        (p : Report) (db : Catalog)
        → ((reconcile_dims r d met p db).catalog.issued ≡ db.issued)
          ↔ (dims_action (reading_of r met) d (db.index d) ≡ none)
    reconcile_dims-asked p db =
        let same = ap (λ x. x.catalog.issued) (reconcile_dims_state p db) in
        (
          λ idle. elim (Option-cases (dims_action (reading_of r met) d (db.index d))) [
            | inl quiet ↦ quiet
            | inr (a, asks) ↦ absurd (
                omega (
                  arith,
                  reconcile_state-acts (db.index d) a p db refl asks,
                  ap length (sym same ∙ idle),
                ))
          ],
          λ quiet. same ∙ reconcile_state-quiet (db.index d) p db quiet,
        )
