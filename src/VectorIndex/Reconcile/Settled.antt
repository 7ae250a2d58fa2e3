-- ===== src/VectorIndex/Reconcile/Settled.antt =====
-- What ensure_per_kb_vector_index leaves at a dimension that it neither waits for nor fails at.
use powabase_ai.Prelude.{
  ℕ, ◌+◌, ◌≤◌, ◌<◌, ◌≡◌, refl, ap, ◌∙◌, sym, Bool, true, false, Option, none, some, [], ◌∷◌, ◌++◌,
  arith, subst, if◌then◌else◌, not, ◌&&◌, ◌||◌, length-append, ltb, leb, =s_refl,
}
use powabase_ai.VectorIndex.{
  Comment, Index, Reading, bounded_row_count, may_be_wide, invalid_action, valid_action,
  dims_action, definition_has_drifted, definition_rebuild_is_given_up, build_is_given_up,
}
use powabase_ai.VectorIndex.Catalog.{
  Catalog, Ending, done, refused, left_invalid, no_comment, count_a_definition_rebuild,
  settle_a_definition_rebuild, drop_index, record_the_definition_built,
}
use powabase_ai.VectorIndex.Reconcile.{
  Met, Hold, held, table_is_busy, lock_was_taken, Report, Pass, holding, defer_the_rebuild,
  create_index, build_missing, repair_invalid, reconcile_invalid, drop_small, replace_drifted,
  rebuild_drifted, reconcile_valid, reconcile_state, reconcile_dims,
}
use powabase_ai.VectorIndex.Reconcile.Agreement.{reading_of, counted_lem}
use powabase_ai.VectorIndex.Reconcile.Frame.{waits}

holding_held :
    (d : ℕ) (h : Hold) (p : Report) (db : Catalog) (x : Pass)
    → waits (holding d h p db x).report ≤ waits p
    → holding d h p db x ≡ x
unfolding defer_the_rebuild
holding_held d held p db x h = refl
holding_held d (table_is_busy hs e) p db x h =
    absurd (omega (arith, h, length-append p.table_busy (d ∷ [])))
holding_held d lock_was_taken p db x h = absurd (omega (arith, h, length-append p.blocked (d ∷ [])))

module _ (r : Reading) (d : ℕ) (met : Met) where
  abbrev pub IsQuiet : Option Index → Type 0
  IsQuiet s = dims_action (reading_of r met) d s ≡ none

  module _ (apart : r.drop_below < r.build_at) (counts : met.count_lands ≡ true)
      (comments : met.comment_lands ≡ true) where
    -- no exception leaves the pass and no dimension waits that did not wait before
    abbrev Settled : ℕ → Pass → Type 0
    Settled w x = x.raised ≡ false → waits x.report ≤ w → IsQuiet (x.catalog.index d)

    current-IsQuiet :
        (c : Comment)
        → c.fingerprint ≡ some (r.current d)
        → r.drop_below < bounded_row_count r d
        → IsQuiet (some (record { is_valid = true; comment = c }))
    unfolding dims_action valid_action
    current-IsQuiet c today rows = ground (arith, today, rows, =s_refl (r.current d))

    create_index-Settled :
        (prior : Comment) (p : Report) (db : Catalog)
        → db.index d ≡ none
        → r.drop_below < bounded_row_count r d
        → Settled (waits p) (create_index r d met prior p db)
    unfolding create_index record_the_definition_built
    create_index-Settled prior p db missing rows ok stays = ground (
      arith,
      ok,
      missing,
      current-IsQuiet
          (record {
            build_failures = 0;
            interrupted_builds = 0;
            definition_rebuilds = prior.definition_rebuilds;
            fingerprint = some (r.current d);
          })
          refl rows,
    )

    Settled-if :
        (w : ℕ) (b : Bool) (x y : Pass)
        → (b ≡ true → Settled w x)
        → (b ≡ false → Settled w y)
        → Settled w (if b then x else y)
    Settled-if w true x y then_x else_y = then_x refl
    Settled-if w false x y then_x else_y = else_y refl

    Settled-holding :
        (h : Hold) (p : Report) (db : Catalog) (x : Pass)
        → Settled (waits p) x
        → Settled (waits p) (holding d h p db x)
    Settled-holding h p db x settled ok stays =
        let same = holding_held d h p db x stays in
        subst (λ y. IsQuiet (y.catalog.index d)) (sym same)
          (settled (ap (λ y. y.raised) (sym same) ∙ ok)
            (subst (λ y. waits y.report ≤ waits p) same stays))

    missing-IsQuiet :
        (db : Catalog)
        → db.index d ≡ none
        → (may_be_wide d
            && (not (leb 200 met.index_count) && not (ltb (bounded_row_count r d) r.build_at)))
          ≡ false
        → IsQuiet (db.index d)
    unfolding dims_action
    missing-IsQuiet db missing declined = rw (missing) (ground (arith, declined))

    build_missing-Settled :
        (prior : Comment) (holds_a_place : Bool) (p : Report) (db : Catalog)
        → db.index d ≡ none
        → Settled (waits p) (build_missing r d met prior holds_a_place p db)
    unfolding build_missing
    build_missing-Settled prior holds p db missing =
        Settled-if (waits p) (ltb (bounded_row_count r d) r.build_at) _ _
          (λ small ok stays. missing-IsQuiet db missing (ground (arith, small)))
          (λ large.
            Settled-if (waits p) (not (may_be_wide d)) _ _
              (λ wide ok stays. missing-IsQuiet db missing (ground (arith, wide)))
              (λ narrow.
                Settled-if (waits p) (not holds && leb 200 met.index_count) _ _
                  (λ full ok stays. missing-IsQuiet db missing (ground (arith, full)))
                  (λ room.
                    Settled-holding met.before_build p db (create_index r d met prior p db)
                      (create_index-Settled prior p db missing (ground (arith, large, apart))))))

    Settled-done :
        (w : ℕ) (e : Ending) (x : Pass) (y z : Bool → Pass)
        → (e ≡ done → Settled w x)
        → ((t : Bool) → (y t).raised ≡ true)
        → ((t : Bool) → (z t).raised ≡ true)
        → Settled w (elim e [ done ↦ x | refused t ↦ y t | left_invalid t ↦ z t ])
    Settled-done w done x y z ends raises_y raises_z ok stays = ends refl ok stays
    Settled-done w (refused t) x y z ends raises_y raises_z ok stays =
        absurd (ground (arith, ok, raises_y t))
    Settled-done w (left_invalid t) x y z ends raises_y raises_z ok stays =
        absurd (ground (arith, ok, raises_z t))

    dropped_lem :
        (db : Catalog) → met.drop_ends ≡ done → (drop_index d met.drop_ends db).index d ≡ none
    dropped_lem db ends = rw (ends) (ground arith)

    repair_invalid-Settled :
        (c : Comment) (p : Report) (db : Catalog)
        → Settled (waits p) (repair_invalid r d met c p db)
    unfolding repair_invalid
    repair_invalid-Settled c p db =
        Settled-done (waits p) met.drop_ends _ _ _
          (λ ends.
            build_missing-Settled c false (record p { repaired = p.repaired ++ (d ∷ []) })
              (drop_index d met.drop_ends db) (dropped_lem db ends))
          (λ t. refl) (λ t. refl)

    drop_small-Settled :
        (p : Report) (db : Catalog)
        → leb (bounded_row_count r d) r.drop_below ≡ true
        → Settled (waits p) (drop_small r d met p db)
    unfolding drop_small
    drop_small-Settled p db small =
        Settled-done (waits p) met.drop_ends _ _ _
          (λ ends ok stays.
            missing-IsQuiet (drop_index d met.drop_ends db) (dropped_lem db ends)
              (ground (arith, small, apart)))
          (λ t. refl) (λ t. refl)

    replace_drifted-Settled :
        (c : Comment) (p : Report) (db : Catalog)
        → Settled (waits p) (replace_drifted r d met c p db)
    unfolding replace_drifted
    replace_drifted-Settled c p db =
        Settled-done (waits p) met.drop_ends _ _ _
          (λ ends.
            build_missing-Settled
              (record no_comment { definition_rebuilds = c.definition_rebuilds + 1 }) true
              (record p { rebuilt = p.rebuilt ++ (d ∷ []) }) (drop_index d met.drop_ends db)
              (dropped_lem db ends))
          (λ t. refl) (λ t. refl)

    rebuild_drifted-Settled :
        (c : Comment) (i : Index) (p : Report) (db : Catalog)
        → db.index d ≡ some i
        → Settled (waits p) (rebuild_drifted r d met c p db)
    unfolding rebuild_drifted
    rebuild_drifted-Settled c i p db present =
        rw (counts, counted_lem r d met c i db present)
          (replace_drifted-Settled c p (count_a_definition_rebuild true d c db).1)

    doomed-IsQuiet :
        (i : Index) (db : Catalog)
        → db.index d ≡ some i
        → i.is_valid ≡ false
        → (build_is_given_up i.comment
            && (ltb r.drop_below (bounded_row_count r d) && may_be_wide d))
          ≡ true
        → IsQuiet (db.index d)
    unfolding dims_action invalid_action
    doomed-IsQuiet i db present invalid doomed = rw (present) (ground (arith, invalid, doomed))

    valid-IsQuiet :
        (i : Index) (db : Catalog)
        → db.index d ≡ some i
        → i.is_valid ≡ true
        → valid_action (reading_of r met) d i.comment ≡ none
        → IsQuiet (db.index d)
    unfolding dims_action
    valid-IsQuiet i db present valid quiet = rw (present) (rw (valid) quiet)

    settled-IsQuiet :
        (i : Index) (db : Catalog)
        → db.index d ≡ some i
        → i.is_valid ≡ true
        → leb (bounded_row_count r d) r.drop_below ≡ false
        → not (definition_has_drifted (r.current d) i.comment) ≡ true
        → IsQuiet ((settle_a_definition_rebuild true d i.comment db).index d)
    unfolding dims_action valid_action settle_a_definition_rebuild
    settled-IsQuiet i db present valid large current =
        ground (arith, present, valid, large, current)

    reconcile_valid-Settled :
        (i : Index) (p : Report) (db : Catalog)
        → db.index d ≡ some i
        → i.is_valid ≡ true
        → Settled (waits p) (reconcile_valid r d met i.comment p db)
    unfolding reconcile_valid valid_action
    reconcile_valid-Settled i p db present valid =
        Settled-if (waits p) (leb (bounded_row_count r d) r.drop_below) _ _
          (λ small.
            Settled-holding met.before_drop p db (drop_small r d met p db)
              (drop_small-Settled p db small))
          (λ large.
            Settled-if (waits p) (not (definition_has_drifted (r.current d) i.comment)) _ _
              (λ current ok stays. rw (comments) (settled-IsQuiet i db present valid large current))
              (λ drifted.
                Settled-if (waits p) (ltb (bounded_row_count r d) r.build_at || not (may_be_wide d))
                  _ _
                  (λ declined ok stays.
                    valid-IsQuiet i db present valid (ground (arith, large, declined)))
                  (λ apt.
                    Settled-if (waits p) (definition_rebuild_is_given_up i.comment) _ _
                      (λ given_up ok stays.
                        valid-IsQuiet i db present valid (ground (arith, large, given_up)))
                      (λ more.
                        Settled-if (waits p) (leb 200 met.index_count) _ _
                          (λ full ok stays.
                            valid-IsQuiet i db present valid (ground (arith, large, full)))
                          (λ room.
                            Settled-holding met.before_drop p db
                              (rebuild_drifted r d met i.comment p db)
                              (rebuild_drifted-Settled i.comment i p db present))))))

    reconcile_invalid-Settled :
        (i : Index) (p : Report) (db : Catalog)
        → db.index d ≡ some i
        → i.is_valid ≡ false
        → Settled (waits p) (reconcile_invalid r d met i.comment p db)
    unfolding reconcile_invalid
    reconcile_invalid-Settled i p db present invalid =
        Settled-if (waits p) met.build_in_progress _ _
          (λ building ok stays. absurd (omega (arith, stays, length-append p.blocked (d ∷ []))))
          (λ free.
            Settled-if (waits p)
              (build_is_given_up i.comment
                && (ltb r.drop_below (bounded_row_count r d) && may_be_wide d))
              _ _ (λ doomed ok stays. doomed-IsQuiet i db present invalid doomed)
              (λ more.
                Settled-holding met.before_drop p db (repair_invalid r d met i.comment p db)
                  (repair_invalid-Settled i.comment p db)))

    reconcile_state-Settled :
        (s : Option Index) (p : Report) (db : Catalog)
        → db.index d ≡ s
        → Settled (waits p) (reconcile_state r d met s p db)
    unfolding reconcile_state
    reconcile_state-Settled none p db missing = build_missing-Settled no_comment false p db missing
    reconcile_state-Settled (some i) p db present =
        Settled-if (waits p) i.is_valid _ _ (λ valid. reconcile_valid-Settled i p db present valid)
          (λ invalid. reconcile_invalid-Settled i p db present invalid)

    pub reconcile_dims-Settled :
        (p : Report) (db : Catalog) → Settled (waits p) (reconcile_dims r d met p db)
    unfolding reconcile_dims
    reconcile_dims-Settled p db =
        Settled-if (waits p) met.lock_is_free _ _
          (λ free. reconcile_state-Settled (db.index d) p db refl)
          (λ blocked ok stays. absurd (omega (arith, stays, length-append p.blocked (d ∷ []))))
