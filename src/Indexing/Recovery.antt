-- ===== src/Indexing/Recovery.antt =====
-- What a tick of the watchdog does to each row.
use powabase_ai.Prelude.{
  ℕ, ◌≡◌, refl, ap, ◌∙◌, Bool, true, false, not, ◌&&◌, ◌||◌, Option, none, some, List, [], ◌∷◌,
  ◌++◌, map, String, arith, ltb, leb, ◌=s◌, =s_iff, if◌then◌else◌, keep, any, elem, All, Bool-cases,
  ◌⊎◌, inl, inr,
}
use powabase_ai.Indexing.{
  IndexedSource, Table, not_complete_after, failed, pending, is_indexing, update_row,
}
use powabase_ai.Indexing.Watchdog.{
  OrphanRow, is_orphan, orphan_row, orphan_query, fail_exhausted, reset_at, reset_recoverable,
  exhausted_of, recoverable_of, find_and_recover_orphans,
}

module _ (id : String) where
  pub update_row-at :
      (j : String) (p : IndexedSource → Bool) (f : IndexedSource → IndexedSource) (t : Table)
      (r : IndexedSource)
      → t id ≡ some r
      → (update_row j p f t).1 id ≡ some (if (j =s id) && p r then f r else r)
  unfolding update_row
  update_row-at j p f t r h = ground (arith, h, =s_iff j id)

  pub update_row-returning :
      (j : String) (p : IndexedSource → Bool) (f : IndexedSource → IndexedSource) (t : Table)
      (r : IndexedSource)
      → t id ≡ some r
      → (j =s id) ≡ true
      → (update_row j p f t).0 ≡ (if p r then some (f r) else none)
  unfolding update_row
  update_row-returning j p f t r h same = ground (arith, h, (=s_iff j id).0 same)

  abbrev fail_row : ℕ → Bool → IndexedSource → IndexedSource
  fail_row a hit r =
      if hit && is_indexing r.index_status
      then record r { index_status = failed; error_message = some (not_complete_after a) }
      else r

  abbrev hits : OrphanRow → Bool
  hits row = row.id =s id

  -- the rows of the query that are of this id have these attempts
  abbrev Consistent : ℕ → List OrphanRow → Type 0
  Consistent a = All (λ row. (hits row ≡ false) ⊎ (row.attempts ≡ a))

  fail_row_twice :
      (a : ℕ) (row : OrphanRow) (later : Bool) (r : IndexedSource)
      → (hits row ≡ false) ⊎ (row.attempts ≡ a)
      → fail_row a later (
          if hits row && is_indexing r.index_status
          then record r {
            index_status = failed;
            error_message = some (not_complete_after row.attempts);
          }
          else r)
        ≡ fail_row a (if hits row then true else later) r
  fail_row_twice a row later r c = ground (arith, c)

  fail_exhausted-at :
      (a : ℕ) (rows : List OrphanRow) (t : Table) (r : IndexedSource)
      → t id ≡ some r
      → Consistent a rows
      → fail_exhausted rows t id ≡ some (fail_row a (any hits rows) r)
  unfolding fail_exhausted
  fail_exhausted-at a [] t r h c = h
  fail_exhausted-at a (row ∷ rest) t r h c =
      fail_exhausted-at a rest (update_row row.id _ _ t).1 _ (update_row-at row.id _ _ t r h) c.1
      ∙ ap some (fail_row_twice a row (any hits rest) r c.0)

  any-keep :
      {A : Type 0} (p q : A → Bool) (xs ys : List A)
      → any p (keep q (xs ++ ys)) ≡ (any p (keep q xs) || any p (keep q ys))
  any-keep p q [] ys = refl
  any-keep p q (x ∷ xs) ys = ground (arith, any-keep p q xs ys)

  Consistent-keep_append :
      (a : ℕ) (q : OrphanRow → Bool) (xs ys : List OrphanRow)
      → Consistent a (keep q xs)
      → Consistent a (keep q ys)
      → Consistent a (keep q (xs ++ ys))
  Consistent-keep_append a q [] ys hx hy = hy
  Consistent-keep_append a q (x ∷ xs) ys hx hy = ground (arith, Consistent-keep_append a q xs ys)

  module _ (now : ℕ) (alive_ids : List String) (t : Table) (r : IndexedSource)
      (h : t id ≡ some r) where
    same_row : (j : String) (r' : IndexedSource) → t j ≡ some r' → (j =s id) ≡ true → r' ≡ r
    same_row j r' e same = ground (arith, h, e, (=s_iff j id).0 same)

    same_attempts :
        (j : String) (r' : IndexedSource)
        → t j ≡ some r'
        → (j =s id) ≡ true
        → r'.attempts ≡ r.attempts
    same_attempts j r' e same = ap (λ (x : IndexedSource). x.attempts) (same_row j r' e same)

    orphan_row-Consistent :
        (q : OrphanRow → Bool) (j : String) (o : Option IndexedSource)
        → t j ≡ o
        → Consistent r.attempts (keep q (orphan_row now alive_ids j o))
    orphan_row-Consistent q j none e = tt
    orphan_row-Consistent q j (some r') e = ground (arith, same_attempts j r' e)

    query-Consistent :
        (q : OrphanRow → Bool) (ids : List String)
        → Consistent r.attempts (keep q (orphan_query now alive_ids ids t))
    unfolding orphan_query
    query-Consistent q [] = tt
    query-Consistent q (j ∷ ids) =
        Consistent-keep_append r.attempts q (orphan_row now alive_ids j (t j))
          (orphan_query now alive_ids ids t) (orphan_row-Consistent q j (t j) refl)
          (query-Consistent q ids)

    own_row-hits :
        (q : ℕ → Bool) (j : String) (r' : IndexedSource)
        → (j =s id) ≡ true
        → any hits (keep (λ row. q row.attempts) (orphan_row now alive_ids j (some r')))
          ≡ (is_orphan now alive_ids r' && q r'.attempts)
    own_row-hits q j r' same = ground (arith, same)

    orphan_row-hits :
        (q : ℕ → Bool) (j : String) (o : Option IndexedSource)
        → t j ≡ o
        → any hits (keep (λ row. q row.attempts) (orphan_row now alive_ids j o))
          ≡ ((j =s id) && (is_orphan now alive_ids r && q r.attempts))
    orphan_row-hits q j none e = ground (arith, h, e, =s_iff j id)
    orphan_row-hits q j (some r') e = elim (Bool-cases (j =s id)) [
      | inl same ↦
          own_row-hits q j r' same
          ∙ ap (λ (x : IndexedSource). is_orphan now alive_ids x && q x.attempts)
              (same_row j r' e same)
          ∙ ground (arith, same)
      | inr other ↦ ground (arith, other)
    ]

    pub query-hits :
        (q : ℕ → Bool) (ids : List String)
        → any hits (keep (λ row. q row.attempts) (orphan_query now alive_ids ids t))
          ≡ (elem id ids && (is_orphan now alive_ids r && q r.attempts))
    unfolding orphan_query
    query-hits q [] = refl
    query-hits q (j ∷ ids) =
        any-keep hits (λ row. q row.attempts) (orphan_row now alive_ids j (t j))
          (orphan_query now alive_ids ids t)
        ∙ ground (arith, orphan_row-hits q j (t j) refl, query-hits q ids)

  pub elem-map :
      (q : OrphanRow → Bool) (rows : List OrphanRow)
      → elem id (map (λ row. row.id) (keep q rows)) ≡ any hits (keep q rows)
  elem-map q [] = refl
  elem-map q (row ∷ rows) = ground (arith, elem-map q rows)

  -- What a tick makes of one row.
  abbrev pub recovered : ℕ → ℕ → List String → IndexedSource → IndexedSource
  recovered max now alive_ids r =
      if not (is_orphan now alive_ids r)
      then r
      else if leb max r.attempts
      then record r { index_status = failed; error_message = some (not_complete_after r.attempts) }
      else record {
        index_status = pending;
        celery_task_id = r.celery_task_id;
        attempts = r.attempts;
        error_message = none;
        last_dispatched_at = some now;
      }

  abbrev swept_row : ℕ → ℕ → Bool → Bool → IndexedSource → Option IndexedSource
  swept_row now a fails resets r = reset_at now resets (some (fail_row a fails r))

  orphan_indexing :
      (now : ℕ) (alive_ids : List String) (r : IndexedSource)
      → is_orphan now alive_ids r ≡ true
      → is_indexing r.index_status ≡ true
  unfolding is_orphan
  orphan_indexing now alive_ids r h = ground (arith, h)

  swept_row-recovered :
      (max now : ℕ) (listed : Bool) (alive_ids : List String) (r : IndexedSource)
      → swept_row now r.attempts
          (listed && (is_orphan now alive_ids r && leb max r.attempts))
          (listed && (is_orphan now alive_ids r && ltb r.attempts max))
          r
        ≡ some (if listed then recovered max now alive_ids r else r)
  swept_row-recovered max now listed alive_ids r = ground (arith, orphan_indexing now alive_ids r)

  module _ (max now : ℕ) (delivers : String → Bool) (alive_ids ids : List String) (t : Table)
      (r : IndexedSource) (h : t id ≡ some r) where
    pub find_and_recover_orphans-at :
        (find_and_recover_orphans max now (λ x. x) (λ x. x) delivers alive_ids ids t).1 id
        ≡ some (if elem id ids then recovered max now alive_ids r else r)
    unfolding find_and_recover_orphans reset_recoverable exhausted_of recoverable_of
    find_and_recover_orphans-at =
        let rows = orphan_query now alive_ids ids t in
        rw
          (
            elem-map (λ row. ltb row.attempts max) rows,
            query-hits now alive_ids t r h (λ n. ltb n max) ids,
            fail_exhausted-at r.attempts (keep (λ row. leb max row.attempts) rows) t r h
                (query-Consistent now alive_ids t r h (λ row. leb max row.attempts) ids),
            query-hits now alive_ids t r h (λ n. leb max n) ids,
          )
          (swept_row-recovered max now (elem id ids) alive_ids r)

    -- A tick that runs while no other transaction does turns each orphan that has used up its
    -- attempts into a failed row that says so, each other orphan into a pending row that keeps its
    -- attempts, and leaves every other row as it is.
    pub find_and_recover_orphans-recovered :
        elem id ids ≡ true
        → (find_and_recover_orphans max now (λ x. x) (λ x. x) delivers alive_ids ids t).1 id
          ≡ some (recovered max now alive_ids r)
    find_and_recover_orphans-recovered listed = rw (find_and_recover_orphans-at, listed) refl
