-- ===== src/VectorIndex/Removal/Gone.antt =====
-- What the drop of a deleted knowledge base's indexes leaves behind.
use powabase_ai.Prelude.{
  ℕ, ◌≡◌, refl, subst, true, Option, none, some, List, [], ◌∷◌, ◌++◌, map, String, arith, ◌⊎◌, inl,
  inr, Bool-cases,
}
use powabase_ai.VectorIndex.{States, dims_in_play}
use powabase_ai.VectorIndex.Catalog.{Catalog, done, drop_index}
use powabase_ai.VectorIndex.Reconcile.{Met, is_in}
use powabase_ai.VectorIndex.Task.{Env, Message}
use powabase_ai.VectorIndex.Removal.{
  Removal, removed, build_in_progress, table_is_owned, transient_error, drop_failed, drop_each,
  drop_per_kb_vector_indexes, returned, drop_task,
}

module _ (met : ℕ → Met) where
  -- no drop brings an index back
  drop_each-none :
      (ds dropped not_dropped : List ℕ) (db : Catalog) (e : ℕ)
      → db.index e ≡ none
      → (drop_each met ds dropped not_dropped db).1.index e ≡ none
  unfolding drop_each
  drop_each-none [] dropped not_dropped db e h = h
  drop_each-none (d ∷ ds) dropped not_dropped db e h =
      let db' = drop_index d (met d).drop_ends db in
      let gone : db'.index e ≡ none = ground (arith, h) in
      ground (
        arith,
        h,
        gone,
        drop_each-none ds (dropped ++ (d ∷ [])) not_dropped db' e gone,
        drop_each-none ds dropped (not_dropped ++ (d ∷ [])) db' e gone,
        drop_each-none ds dropped (not_dropped ++ (d ∷ [])) db e h,
      )

-- the dimensions that a loop over all of them could not drop
abbrev pub not_dropped_in : Removal → Option (List ℕ)
not_dropped_in (removed dropped) = some []
not_dropped_in (drop_failed dropped not_dropped) = some not_dropped
not_dropped_in _ = none

is_in-append_left : (e d : ℕ) (ds : List ℕ) → is_in e ds ≡ true → is_in e (ds ++ (d ∷ [])) ≡ true
is_in-append_left e d [] h = absurd (ground (arith, h))
is_in-append_left e d (c ∷ ds) h = ground (arith, h, is_in-append_left e d ds)

is_in-append_last : (d : ℕ) (ds : List ℕ) → is_in d (ds ++ (d ∷ [])) ≡ true
is_in-append_last d [] = ground arith
is_in-append_last d (c ∷ ds) = ground (arith, is_in-append_last d ds)

module _ (met : ℕ → Met) (e : ℕ) (names : List ℕ) where
  drop_each-named :
      (ds dropped not_dropped : List ℕ) (db : Catalog)
      → not_dropped_in (drop_each met ds dropped not_dropped db).0 ≡ some names
      → is_in e not_dropped ≡ true
      → is_in e names ≡ true
  unfolding drop_each
  drop_each-named [] dropped [] db h kept = absurd (ground (arith, kept))
  drop_each-named [] dropped (n ∷ ns) db h kept = ground (arith, h, kept)
  drop_each-named (d ∷ ds) dropped not_dropped db h kept =
      let db' = drop_index d (met d).drop_ends db in
      let kept' = is_in-append_left e d not_dropped kept in
      ground (
        arith,
        h,
        kept,
        λ (g : not_dropped_in (drop_each met ds (dropped ++ (d ∷ [])) not_dropped db').0
              ≡ some names).
            drop_each-named ds (dropped ++ (d ∷ [])) not_dropped db' g kept,
        λ (g : not_dropped_in (drop_each met ds dropped (not_dropped ++ (d ∷ [])) db').0
              ≡ some names).
            drop_each-named ds dropped (not_dropped ++ (d ∷ [])) db' g kept',
        λ (g : not_dropped_in (drop_each met ds dropped (not_dropped ++ (d ∷ [])) db).0
              ≡ some names).
            drop_each-named ds dropped (not_dropped ++ (d ∷ [])) db g kept',
      )

  -- gone from the catalog, or among the names
  abbrev IsAccounted : Removal × Catalog → Type 0
  IsAccounted x = not_dropped_in x.0 ≡ some names → (x.1.index e ≡ none) ⊎ (is_in e names ≡ true)

  module _ (d : ℕ) (ds dropped not_dropped : List ℕ) (db : Catalog) where
    drop_each-cases :
        IsAccounted (drop_each met ds (dropped ++ (d ∷ [])) not_dropped (drop_index d done db))
        → IsAccounted
            (drop_each met ds dropped (not_dropped ++ (d ∷ [])) (drop_index d (met d).drop_ends db))
        → IsAccounted (drop_each met ds dropped (not_dropped ++ (d ∷ [])) db)
        → IsAccounted (drop_each met (d ∷ ds) dropped not_dropped db)
    unfolding drop_each
    drop_each-cases next past unheld h = ground (arith, next, past, unheld, h)

  drop_each-IsAccounted :
      (ds dropped not_dropped : List ℕ) (db : Catalog)
      → is_in e ds ≡ true
      → IsAccounted (drop_each met ds dropped not_dropped db)
  drop_each-IsAccounted [] dropped not_dropped db h = absurd (ground (arith, h))
  drop_each-IsAccounted (d ∷ ds) dropped not_dropped db h = elim (Bool-cases (is_in e ds)) [
    | inl later ↦
        drop_each-cases d ds dropped not_dropped db
          (drop_each-IsAccounted ds (dropped ++ (d ∷ [])) not_dropped (drop_index d done db) later)
          (drop_each-IsAccounted ds dropped (not_dropped ++ (d ∷ []))
            (drop_index d (met d).drop_ends db) later)
          (drop_each-IsAccounted ds dropped (not_dropped ++ (d ∷ [])) db later)
    | inr last ↦
        let at_d : d ≡ e = ground (arith, h, last) in
        let kept : is_in e (not_dropped ++ (d ∷ [])) ≡ true =
          subst (λ c. is_in c (not_dropped ++ (d ∷ [])) ≡ true) at_d
            (is_in-append_last d not_dropped) in
        drop_each-cases d ds dropped not_dropped db
          (λ g. inl (
            drop_each-none met ds (dropped ++ (d ∷ [])) not_dropped (drop_index d done db) e
              (ground (arith, at_d))))
          (λ g. inr (
            drop_each-named ds dropped (not_dropped ++ (d ∷ [])) (drop_index d (met d).drop_ends db)
              g kept))
          (λ g. inr (drop_each-named ds dropped (not_dropped ++ (d ∷ [])) db g kept))
  ]

module _ (met : ℕ → Met) (existing : States) (db : Catalog) where
  -- The drop of a deleted knowledge base's indexes that comes to its end accounts for each of them:
  -- it is gone from the catalog, or it is among those that PerKbVectorIndexDropFailed names.
  pub drop_per_kb_vector_indexes-accounted :
      (names : List ℕ) (d : ℕ)
      → not_dropped_in (drop_per_kb_vector_indexes met existing db).0 ≡ some names
      → is_in d (dims_in_play (map (λ e. e.0) existing)) ≡ true
      → ((drop_per_kb_vector_indexes met existing db).1.index d ≡ none) ⊎ (is_in d names ≡ true)
  unfolding drop_per_kb_vector_indexes
  drop_per_kb_vector_indexes-accounted names d ends there =
      drop_each-IsAccounted met d names (dims_in_play (map (λ e. e.0) existing)) [] [] db there ends

  drop_task-not_dropped_in :
      (id : String) (env : Env) (m : Message) (r : Removal) (dropped : List ℕ)
      → drop_task id env m r ≡ returned dropped
      → not_dropped_in r ≡ some []
  unfolding drop_task
  drop_task-not_dropped_in id env m (removed ds) dropped h = refl
  drop_task-not_dropped_in id env m build_in_progress dropped h = absurd (ground (arith, h))
  drop_task-not_dropped_in id env m (table_is_owned holders) dropped h = absurd (ground (arith, h))
  drop_task-not_dropped_in id env m transient_error dropped h = absurd (ground (arith, h))
  drop_task-not_dropped_in id env m (drop_failed ds ns) dropped h = absurd (ground (arith, h))

  -- The task that drops the indexes of a deleted knowledge base returns only when every index that
  -- it found is gone from the catalog; all else is an exception or a retry.
  drop_task-gone :
      (id : String) (env : Env) (m : Message) (dropped : List ℕ) (d : ℕ)
      → drop_task id env m (drop_per_kb_vector_indexes met existing db).0 ≡ returned dropped
      → is_in d (dims_in_play (map (λ e. e.0) existing)) ≡ true
      → (drop_per_kb_vector_indexes met existing db).1.index d ≡ none
  drop_task-gone id env m dropped d ends there =
      let removal = (drop_per_kb_vector_indexes met existing db).0 in
      let all = drop_task-not_dropped_in id env m removal dropped ends in
      elim (drop_per_kb_vector_indexes-accounted [] d all there) [
        | inl gone ↦ gone
        | inr named ↦ absurd (ground (arith, named))
      ]
