-- ===== src/VectorIndex/Reconcile/Bound.antt =====
-- How often reconciles of ensure_per_kb_vector_index that count their builds build one index.
use powabase_ai.Prelude.{
  ℕ, suc, ◌+◌, ◌-◌, ◌≤◌, ◌<◌, ◌≡◌, ◌≢◌, refl, Bool, true, false, Option, none, some, List, [], ◌∷◌,
  ◌++◌, String, arith, ◌==◌, if◌then◌else◌, =s_refl, All, subst,
}
use powabase_ai.VectorIndex.{
  Comment, Index, Reading, bounded_row_count, may_be_wide, definition_has_drifted,
  build_is_given_up,
}
use powabase_ai.VectorIndex.Catalog.{
  Statement, creating, dropping, Catalog, done, refused, no_comment, count_a_definition_rebuild,
  settle_a_definition_rebuild, count_a_failed_build, record_build_failure,
  count_a_failed_repair_drop, counted_attempt, drop_index, record_the_definition_built,
}
use powabase_ai.VectorIndex.Reconcile.{
  Met, held, Report, Pass, next, create_index, build_missing, repair_invalid, reconcile_invalid,
  replace_drifted, rebuild_drifted, reconcile_valid, reconcile_state, reconcile_dims,
}
use powabase_ai.VectorIndex.Ensure.{no_report}

-- the builds of an index among the statements
abbrev pub builds_of : ℕ → List Statement → ℕ
builds_of d [] = 0
builds_of d (creating e ∷ issued) =
    let rest = builds_of d issued in if e == d then suc rest else rest
builds_of d (dropping e ∷ issued) = builds_of d issued

-- the builds that may follow, with the fingerprint of today's definition
abbrev pub attempts_left : String → Option Index → ℕ
attempts_left fp none = 27
attempts_left fp (some i) =
    if i.is_valid
    then if definition_has_drifted fp i.comment then 27 else 0
    else if build_is_given_up i.comment
    then 0
    else 27 - (i.comment.build_failures + i.comment.interrupted_builds)

attempts_left_le : (fp : String) (s : Option Index) → attempts_left fp s ≤ 27
attempts_left_le fp s = ground arith

-- One reconcile after the other, at one dimension.
unfoldable pub passes : ℕ → List (Reading × Met) → Catalog → Catalog
passes d [] db = db
passes d ((r, met) ∷ later) db = passes d later (reconcile_dims r d met no_report db).catalog

-- Today's definition has this fingerprint, the knowledge base is large enough, the project has
-- room for the index, the gate is not lost after a drop, a build that fails leaves its INVALID
-- index, and the comments can be written.
abbrev pub IsSteady : ℕ → String → Reading × Met → Type 0
IsSteady d fp (r, met) =
    (r.current d ≡ fp)
    × (r.drop_below < r.build_at)
    × (r.build_at ≤ bounded_row_count r d)
    × (met.index_count < 200)
    × (met.before_build ≡ held)
    × ((t : Bool) → met.create_ends ≢ refused t)
    × (met.comment_lands ≡ true)

module _ (r : Reading) (d : ℕ) (met : Met) (large : r.build_at ≤ bounded_row_count r d)
    (room : met.index_count < 200) (gate : met.before_build ≡ held)
    (leaves : (t : Bool) → met.create_ends ≢ refused t) (lands : met.comment_lands ≡ true) where
  abbrev Within : ℕ → Pass → Type 0
  Within b x = builds_of d x.catalog.issued + attempts_left (r.current d) (x.catalog.index d) ≤ b

  create_index-Within :
      (b : ℕ) (prior : Comment) (p : Report) (db : Catalog)
      → db.index d ≡ none
      → build_is_given_up prior ≡ false
      → builds_of d db.issued + (27 - (prior.build_failures + prior.interrupted_builds)) ≤ b
      → Within b (create_index r d met prior p db)
  unfolding create_index record_the_definition_built count_a_failed_build counted_attempt
  create_index-Within b prior p db missing more h =
      ground (arith, missing, more, h, leaves true, leaves false, lands, =s_refl (r.current d))

  module _ (narrow : may_be_wide d ≡ true) (apart : r.drop_below < r.build_at) where
    build_missing-Within :
        (b : ℕ) (prior : Comment) (holds_a_place : Bool) (p : Report) (db : Catalog)
        → db.index d ≡ none
        → build_is_given_up prior ≡ false
        → builds_of d db.issued + (27 - (prior.build_failures + prior.interrupted_builds)) ≤ b
        → Within b (build_missing r d met prior holds_a_place p db)
    unfolding build_missing
    build_missing-Within b prior holds p db missing more h =
        ground (arith, large, narrow, room, gate, create_index-Within b prior p db missing more h)

    repair_invalid-Within :
        (i : Index) (p : Report) (db : Catalog)
        → db.index d ≡ some i
        → i.is_valid ≡ false
        → build_is_given_up i.comment ≡ false
        → Within
            (builds_of d db.issued + attempts_left (r.current d) (some i))
            (repair_invalid r d met i.comment p db)
    unfolding repair_invalid count_a_failed_repair_drop record_build_failure counted_attempt
    repair_invalid-Within i p db present invalid more = ground (
      arith,
      present,
      invalid,
      more,
      lands,
      build_missing-Within
          (builds_of d db.issued + (27 - (i.comment.build_failures + i.comment.interrupted_builds)))
          i.comment false (record p { repaired = p.repaired ++ (d ∷ []) }) (drop_index d done db),
    )

    replace_drifted-Within :
        (c : Comment) (p : Report) (db : Catalog)
        → Within (builds_of d db.issued + 27) (replace_drifted r d met c p db)
    unfolding replace_drifted
    replace_drifted-Within c p db = ground (
      arith,
      attempts_left_le (r.current d) (db.index d),
      attempts_left_le (r.current d) ((drop_index d met.drop_ends db).index d),
      build_missing-Within (builds_of d db.issued + 27)
          (record no_comment { definition_rebuilds = c.definition_rebuilds + 1 }) true
          (record p { rebuilt = p.rebuilt ++ (d ∷ []) }) (drop_index d done db),
    )

    rebuild_drifted-Within :
        (c : Comment) (p : Report) (db : Catalog)
        → Within (builds_of d db.issued + 27) (rebuild_drifted r d met c p db)
    unfolding rebuild_drifted count_a_definition_rebuild
    rebuild_drifted-Within c p db = ground (
      arith,
      attempts_left_le (r.current d)
          ((count_a_definition_rebuild met.count_lands d c db).1.index d),
      replace_drifted-Within c p (count_a_definition_rebuild met.count_lands d c db).1,
    )

    settled-Within :
        (i : Index) (p : Report) (db : Catalog)
        → db.index d ≡ some i
        → i.is_valid ≡ true
        → definition_has_drifted (r.current d) i.comment ≡ false
        → Within
            (builds_of d db.issued)
            (next p (settle_a_definition_rebuild met.comment_lands d i.comment db))
    unfolding settle_a_definition_rebuild
    settled-Within i p db present valid current = ground (arith, present, valid, current, lands)

    reconcile_valid-Within :
        (i : Index) (p : Report) (db : Catalog)
        → db.index d ≡ some i
        → i.is_valid ≡ true
        → Within
            (builds_of d db.issued + attempts_left (r.current d) (some i))
            (reconcile_valid r d met i.comment p db)
    unfolding reconcile_valid
    reconcile_valid-Within i p db present valid = ground (
      arith,
      present,
      valid,
      large,
      apart,
      settled-Within i p db present valid,
      rebuild_drifted-Within i.comment p db,
    )

    reconcile_invalid-Within :
        (i : Index) (p : Report) (db : Catalog)
        → db.index d ≡ some i
        → i.is_valid ≡ false
        → Within
            (builds_of d db.issued + attempts_left (r.current d) (some i))
            (reconcile_invalid r d met i.comment p db)
    unfolding reconcile_invalid
    reconcile_invalid-Within i p db present invalid = ground (
      arith,
      present,
      invalid,
      large,
      apart,
      narrow,
      repair_invalid-Within i p db present invalid,
    )

    reconcile_state-Within :
        (s : Option Index) (p : Report) (db : Catalog)
        → db.index d ≡ s
        → Within
            (builds_of d db.issued + attempts_left (r.current d) s)
            (reconcile_state r d met s p db)
    unfolding reconcile_state
    reconcile_state-Within none p db missing =
        build_missing-Within (builds_of d db.issued + 27) no_comment false p db missing refl
          (omega arith)
    reconcile_state-Within (some i) p db present =
        ground
          (arith, reconcile_valid-Within i p db present, reconcile_invalid-Within i p db present)

    reconcile_dims-Within :
        (p : Report) (db : Catalog)
        → Within
            (builds_of d db.issued + attempts_left (r.current d) (db.index d))
            (reconcile_dims r d met p db)
    unfolding reconcile_dims
    reconcile_dims-Within p db = ground (arith, reconcile_state-Within (db.index d) p db refl)

module _ (d : ℕ) (narrow : may_be_wide d ≡ true) (fp : String) where
  passes-Within :
      (history : List (Reading × Met)) (db : Catalog)
      → All (IsSteady d fp) history
      → builds_of d (passes d history db).issued
        ≤ builds_of d db.issued + attempts_left fp (db.index d)
  unfolding passes
  passes-Within [] db h = omega arith
  passes-Within ((r, met) ∷ later) db h =
      let (same, apart, large, room, gate, leaves, lands) = h.0 in
      let x = reconcile_dims r d met no_report db in
      omega (
        arith,
        passes-Within later x.catalog h.1,
        subst
            (λ fp.
              builds_of d x.catalog.issued + attempts_left fp (x.catalog.index d)
              ≤ builds_of d db.issued + attempts_left fp (db.index d))
            same
            (reconcile_dims-Within r d met large room gate leaves lands narrow apart no_report db),
      )

  -- Reconciles of one definition build the index of a dimension at most 27 times, those that succeed,
  -- fail and are interrupted included, where in each of them the knowledge base is large enough for
  -- an index, the project has room for one more, the dimension is one that can have an index, the
  -- gate is not lost after a drop, a build that fails leaves its INVALID index, and the comments can
  -- be written. A build that is killed with its worker, and leaves no count, is not among them.
  pub passes-builds :
      (history : List (Reading × Met)) (db : Catalog)
      → All (IsSteady d fp) history
      → builds_of d (passes d history db).issued ≤ builds_of d db.issued + 27
  passes-builds history db h =
      omega (arith, passes-Within history db h, attempts_left_le fp (db.index d))
