-- ===== src/VectorIndex/Ensure/Finished.antt =====
-- What ensure_per_kb_vector_index leaves for index_action of services/pg_vector_index.py to ask for.
use powabase_ai.Prelude.{
  ℕ, suc, ◌≤◌, ◌<◌, ◌≡◌, ◌≢◌, refl, ap, ◌∙◌, sym, true, false, none, List, [], ◌∷◌, ◌++◌, map,
  arith, length, ◌==◌, subst, Bool-cases, inl, inr, String,
}
use powabase_ai.Prelude.Int.{ℤ}
use powabase_ai.VectorIndex.Stability.{reading, thresholds-lt}
use powabase_ai.VectorIndex.{Reading, States, dims_action, dims_in_play}
use powabase_ai.VectorIndex.Catalog.{Catalog}
use powabase_ai.VectorIndex.Reconcile.{Met, Report, is_in, reconcile_dims}
use powabase_ai.VectorIndex.Reconcile.Agreement.{reading_of}
use powabase_ai.VectorIndex.Reconcile.Frame.{waits, reconcile_dims-keeps}
use powabase_ai.VectorIndex.Reconcile.Settled.{IsQuiet, reconcile_dims-Settled}
use powabase_ai.VectorIndex.Ensure.{
  no_report, reconcile, ensure, building, table_busy, outcome, is_empty,
}

module _ (r : Reading) (met : ℕ → Met) (others : ℕ → Catalog → Catalog)
    (elsewhere : (d e : ℕ) (db : Catalog)
      → (e == d) ≡ false
      → (others d db).index e ≡ db.index e) where
  reconcile_dims-waits :
      (d : ℕ) (p : Report) (db : Catalog) → waits p ≤ waits (reconcile_dims r d (met d) p db).report
  reconcile_dims-waits d p db = (reconcile_dims-keeps r d (met d) (suc d) (ground arith) p db).1

  reconcile-waits :
      (ds : List ℕ) (p : Report) (db : Catalog)
      → waits p ≤ waits (reconcile r met others ds p db).report
  unfolding reconcile
  reconcile-waits [] p db = omega arith
  reconcile-waits (d ∷ ds) p db =
      let x = reconcile_dims r d (met d) p (others d db) in
      ground (arith, reconcile_dims-waits d p (others d db), reconcile-waits ds x.report x.catalog)

  reconcile-frame :
      (ds : List ℕ) (e : ℕ) (p : Report) (db : Catalog)
      → is_in e ds ≡ false
      → (reconcile r met others ds p db).catalog.index e ≡ db.index e
  unfolding reconcile
  reconcile-frame [] e p db h = refl
  reconcile-frame (d ∷ ds) e p db h =
      let x = reconcile_dims r d (met d) p (others d db) in
      let apart : (e == d) ≡ false = ground (arith, h) in
      ground (
        arith,
        (reconcile_dims-keeps r d (met d) e apart p (others d db)).0,
        elsewhere d e db apart,
        reconcile-frame ds e x.report x.catalog (ground (arith, h)),
      )

  reconcile_step :
      (d : ℕ) (ds : List ℕ) (p : Report) (db : Catalog)
      → (reconcile_dims r d (met d) p (others d db)).raised ≡ false
      → reconcile r met others (d ∷ ds) p db
        ≡ reconcile r met others ds
            (reconcile_dims r d (met d) p (others d db)).report
            (reconcile_dims r d (met d) p (others d db)).catalog
  unfolding reconcile
  reconcile_step d ds p db went_on = rw (went_on) refl

  not_raised :
      (d : ℕ) (ds : List ℕ) (p : Report) (db : Catalog)
      → (reconcile r met others (d ∷ ds) p db).raised ≡ false
      → (reconcile_dims r d (met d) p (others d db)).raised ≡ false
  unfolding reconcile
  not_raised d ds p db ok = ground (arith, ok)

  module _ (apart : r.drop_below < r.build_at) (counts : (d : ℕ) → (met d).count_lands ≡ true)
      (comments : (d : ℕ) → (met d).comment_lands ≡ true) where
    -- how a reconcile of these dimensions may end with an index: nothing to ask for there
    abbrev Finished : List ℕ → Report → Catalog → ℕ → Type 0
    Finished ds p db e =
        (reconcile r met others ds p db).raised ≡ false
        → waits (reconcile r met others ds p db).report ≤ waits p
        → is_in e ds ≡ true
        → IsQuiet r e (met e) ((reconcile r met others ds p db).catalog.index e)

    last-Finished :
        (d e : ℕ) (ds : List ℕ) (p : Report) (db : Catalog)
        → (reconcile_dims r d (met d) p (others d db)).raised ≡ false
        → is_in e ds ≡ false
        → (d == e) ≡ true
        → Finished (d ∷ ds) p db e
    last-Finished d e ds p db went_on last here ok stays h =
        let x = reconcile_dims r d (met d) p (others d db) in
        let step = reconcile_step d ds p db went_on in
        let at_d : d ≡ e = ground (arith, here) in
        let settled =
          reconcile_dims-Settled r d (met d) apart (counts d) (comments d) p (others d db) went_on (
            omega (
              arith,
              stays,
              ap (λ y. waits y.report) step,
              reconcile-waits ds x.report x.catalog,
            )) in
        subst (λ s. IsQuiet r e (met e) s)
          (sym (ap (λ y. y.catalog.index e) step ∙ reconcile-frame ds e x.report x.catalog last))
          (subst (λ e. IsQuiet r e (met e) (x.catalog.index e)) at_d settled)

    reconcile-Finished : (ds : List ℕ) (p : Report) (db : Catalog) (e : ℕ) → Finished ds p db e
    reconcile-Finished [] p db e ok stays h = absurd (ground (arith, h))
    reconcile-Finished (d ∷ ds) p db e ok stays h =
        let x = reconcile_dims r d (met d) p (others d db) in
        let went_on : x.raised ≡ false = not_raised d ds p db ok in
        let step = reconcile_step d ds p db went_on in
        elim (Bool-cases (is_in e ds)) [
          | inl later ↦
              subst (λ y. IsQuiet r e (met e) (y.catalog.index e)) (sym step)
                (reconcile-Finished ds x.report x.catalog e (sym (ap (λ y. y.raised) step) ∙ ok)
                  (omega (
                    arith,
                    stays,
                    ap (λ y. waits y.report) step,
                    reconcile_dims-waits d p (others d db),
                  ))
                  later)
          | inr last ↦ last-Finished d e ds p db went_on last (ground (arith, h, last)) ok stays h
        ]

no_one : (ds : List ℕ) → is_empty ds ≡ true → length ds ≡ 0
no_one [] h = refl
no_one (d ∷ ds) h = absurd (ground (arith, h))

outcome-waits :
    (p : Report) → (outcome p).status ≢ building → (outcome p).status ≢ table_busy → waits p ≡ 0
unfolding outcome
outcome-waits p not_building not_busy = elim (Bool-cases (is_empty p.table_busy)) [
  | inl free ↦ elim (Bool-cases (is_empty p.blocked)) [
    | inl idle ↦ omega (arith, no_one p.table_busy free, no_one p.blocked idle)
    | inr waiting ↦ absurd (not_building (rw (free, waiting) refl))
  ]
  | inr busy ↦ absurd (not_busy (rw (busy) refl))
]

module _ (stored_build stored_drop : ℤ) (counted : ℕ) (current : ℕ → String) (rows : ℕ → ℕ)
    (met : ℕ → Met) (others : ℕ → Catalog → Catalog)
    (elsewhere : (d e : ℕ) (db : Catalog) → (e == d) ≡ false → (others d db).index e ≡ db.index e)
    (counts : (d : ℕ) → (met d).count_lands ≡ true)
    (comments : (d : ℕ) → (met d).comment_lands ≡ true) where
  -- Where the comments can be written, a reconcile that no exception leaves and that neither waits
  -- for the table nor for another caller of an index has finished the work that it met: for each
  -- dimension in play, with the rows and the number of the project's indexes that the reconcile met
  -- there, index_action asks for nothing of the index that is left, whether it was built, replaced,
  -- dropped, declined or given up on. A drop at a later dimension may make room for an index that was
  -- declined, which is not counted here. Before a dimension's lock is taken, others may change its
  -- index.
  pub ensure-IsQuiet :
      (candidates : List ℕ) (existing : States) (db : Catalog)
      → (ensure
          (reading stored_build stored_drop counted current rows)
          met
          others
          candidates
          existing
          db).raised
        ≡ false
      → (outcome
          (ensure
            (reading stored_build stored_drop counted current rows)
            met
            others
            candidates
            existing
            db).report).status
        ≢ building
      → (outcome
          (ensure
            (reading stored_build stored_drop counted current rows)
            met
            others
            candidates
            existing
            db).report).status
        ≢ table_busy
      → (d : ℕ) → is_in d (dims_in_play (candidates ++ map (λ e. e.0) existing)) ≡ true
      → dims_action (reading_of (reading stored_build stored_drop counted current rows) (met d)) d (
          (ensure
              (reading stored_build stored_drop counted current rows)
              met
              others
              candidates
              existing
              db).catalog.index
            d)
        ≡ none
  unfolding ensure
  ensure-IsQuiet candidates existing db ok not_building not_busy d in_play =
      let r = reading stored_build stored_drop counted current rows in
      let ds = dims_in_play (candidates ++ map (λ e. e.0) existing) in
      reconcile-Finished r met others elsewhere (thresholds-lt stored_build stored_drop) counts
        comments ds no_report db d ok
        (omega (
          arith,
          outcome-waits (reconcile r met others ds no_report db).report not_building not_busy,
        ))
        in_play
