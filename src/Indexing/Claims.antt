-- ===== src/Indexing/Claims.antt =====
-- One run of a row at a time, and no write by a task that has lost the row.
use powabase_ai.Prelude.{
  ℕ, ◌≡◌, refl, ap, ◌∙◌, Bool, true, false, not, ◌||◌, ◌&&◌, Option, none, some, List, [], ◌∷◌,
  String, arith, ltb, ◌=s◌, =s_refl, if◌then◌else◌, elem, All,
}
use powabase_ai.Indexing.{
  IndexedSource, Table, Message, Body, pending, indexing, indexed, is_pending, status_is_cancelled,
  owns, indexed_answer, attempts_or, claimed, put, update_row, claim_indexed_source,
  mark_indexed_source_failed, fenced_mark_failed, fenced_mark_indexed, handle_storage_error,
  end_of_body, index_source, finished, soft_time_limit, storage_error, raised, plain, failed_after,
  skipped, superseded, done,
}
use powabase_ai.Indexing.Watchdog.{is_orphan}
use powabase_ai.Indexing.Recovery.{update_row-at, find_and_recover_orphans-at}
use powabase_ai.Indexing.Budget.{Event, claims, ends, refuses, ticks, perform}

module _ (max : ℕ) (id : String) where
  update_row-found :
      (p : IndexedSource → Bool) (f : IndexedSource → IndexedSource) (t : Table) (r : IndexedSource)
      → t id ≡ some r
      → p r ≡ true
      → update_row id p f t ≡ (some (f r), put t id (some (f r)))
  unfolding update_row
  update_row-found p f t r h holds = rw (h, holds) refl

  put-same : (t : Table) (o : Option IndexedSource) → put t id o id ≡ o
  put-same t o = rw (=s_refl id) refl

  update_row-refused :
      (p : IndexedSource → Bool) (f : IndexedSource → IndexedSource) (t : Table) (r : IndexedSource)
      → t id ≡ some r
      → p r ≡ false
      → update_row id p f t ≡ (none, t)
  unfolding update_row
  update_row-refused p f t r h refused = rw (h, refused) refl

  running_skipped :
      (now : ℕ) (task : String) (during : Table → Table) (body : Body) (t : Table)
      (r : IndexedSource)
      → t id ≡ some r
      → r.index_status ≡ indexing
      → index_source max now id task none during body t ≡ (skipped, t)
  unfolding index_source claim_indexed_source
  running_skipped now task during body t r h running =
      rw
        (
          update_row-refused (λ x. is_pending x.index_status) (claimed now task) t r h
              (rw (running) refl),
          h,
          running,
        )
        refl

  won_running :
      (now n : ℕ) (task : String) (t : Table) (o : Option IndexedSource)
      → t id ≡ o
      → (claim_indexed_source now id task t).0 ≡ some n
      → (r : IndexedSource) × ((claim_indexed_source now id task t).1 id ≡ some r)
        × (r.index_status ≡ indexing)
  unfolding claim_indexed_source update_row
  won_running now n task t none e won = ground (arith, e, won)
  won_running now n task t (some r) e won =
      (claimed now task r, ground (arith, e, won, =s_refl id), refl)

  -- After a task has claimed a row, a further task for it, of a redelivery or of a repeated
  -- dispatch, that starts before anything else writes the row, is skipped and changes nothing,
  -- whatever its body would do.
  index_source-skipped :
      (now now' n : ℕ) (task other : String) (during : Table → Table) (body : Body) (t : Table)
      → (claim_indexed_source now id task t).0 ≡ some n
      → let t' = (claim_indexed_source now id task t).1 in
        index_source max now' id other none during body t' ≡ (skipped, t')
  index_source-skipped now now' n task other during body t won =
      let (r, h, running) = won_running now n task t (t id) refl won in
      running_skipped now' other during body (claim_indexed_source now id task t).1 r h running

  failed_unchanged :
      (task : String) (message : Message) (t : Table) (r : IndexedSource)
      → t id ≡ some r
      → owns task r ≡ false
      → fenced_mark_failed id task message t ≡ (0, t)
  unfolding fenced_mark_failed
  failed_unchanged task message t r h lost = rw (update_row-refused (owns task) _ t r h lost) refl

  indexed_unchanged :
      (task : String) (t : Table) (r : IndexedSource)
      → t id ≡ some r
      → owns task r ≡ false
      → fenced_mark_indexed id task t ≡ (0, t)
  unfolding fenced_mark_indexed
  indexed_unchanged task t r h lost = rw (update_row-refused (owns task) _ t r h lost) refl

  if_unchanged :
      {A : Type 0} (t : Table) (c : Bool) (x y : A × Table)
      → x.1 ≡ t
      → y.1 ≡ t
      → (if c then x else y).1 ≡ t
  if_unchanged t true x y hx hy = hx
  if_unchanged t false x y hx hy = hy

  body_unchanged :
      (task : String) (body : Body) (t : Table) (r : IndexedSource)
      → t id ≡ some r
      → owns task r ≡ false
      → (end_of_body max id task body t).1 ≡ t
  unfolding end_of_body handle_storage_error
  body_unchanged task finished t r h lost =
      ap (λ (x : ℕ × Table). (indexed_answer x).1) (indexed_unchanged task t r h lost)
  body_unchanged task soft_time_limit t r h lost =
      if_unchanged t (status_is_cancelled (t id)) _ _ refl (
        ap (λ (x : ℕ × Table). x.1) (failed_unchanged task (plain "Indexing timed out") t r h lost))
  body_unchanged task (storage_error cause) t r h lost =
      if_unchanged t (ltb (attempts_or max (t id)) max) _ _
        (rw (update_row-refused (owns task) _ t r h lost) refl)
        (ap (λ (x : ℕ × Table). x.1)
          (failed_unchanged task (failed_after (attempts_or max (t id)) cause) t r h lost))
  body_unchanged task (raised trace) t r h lost =
      ap (λ (x : ℕ × Table). x.1) (failed_unchanged task (plain trace) t r h lost)

  -- A task that does not own the row, when its body has ended in whatever way, changes no row; it
  -- answers that it was superseded if the body finished, and a storage error of it dispatches
  -- nothing.
  end_of_body-superseded :
      (task cause : String) (body : Body) (t : Table) (r : IndexedSource)
      → t id ≡ some r
      → owns task r ≡ false
      → ((end_of_body max id task body t).1 ≡ t)
        × ((end_of_body max id task finished t).0 ≡ superseded)
        × ((handle_storage_error max id task cause t).0 ≡ false)
  unfolding end_of_body handle_storage_error
  end_of_body-superseded task cause body t r h lost = (
    body_unchanged task body t r h lost,
    ap (λ (x : ℕ × Table). (indexed_answer x).0) (indexed_unchanged task t r h lost),
    ground (arith, update_row-refused (owns task) _ t r h lost),
  )

  -- An event that is not a write by the row's owner, a cancellation or a reindex; the ticks see the
  -- owner alive, and no task refuses to run the row.
  abbrev pub is_others : String → Event → Bool
  is_others task (claims now j other) = true
  is_others task (ends j other body) = not (j =s id) || not (task =s other)
  is_others task (refuses j message) = not (j =s id)
  is_others task (ticks now delivers alive_ids ids) = elem task alive_ids

  unfoldable pub after : List Event → Table → Table
  unfolding perform
  after [] t = t
  after (e ∷ rest) t = after rest (perform max e t)

  module _ (task : String) (r : IndexedSource) (running : r.index_status ≡ indexing)
      (owned : r.celery_task_id ≡ some task) where
    update_kept :
        (j : String) (p : IndexedSource → Bool) (f : IndexedSource → IndexedSource) (t : Table)
        → t id ≡ some r
        → ((j =s id) && p r) ≡ false
        → (update_row j p f t).1 id ≡ some r
    update_kept j p f t h away = ground (arith, update_row-at id j p f t r h, away)

    if_kept :
        {A : Type 0} (c : Bool) (x y : A × Table)
        → x.1 id ≡ some r
        → y.1 id ≡ some r
        → (if c then x else y).1 id ≡ some r
    if_kept true x y hx hy = hx
    if_kept false x y hx hy = hy

    end_of_body-kept :
        (j other : String) (body : Body) (t : Table)
        → t id ≡ some r
        → ((j =s id) && owns other r) ≡ false
        → (end_of_body max j other body t).1 id ≡ some r
    unfolding end_of_body fenced_mark_indexed fenced_mark_failed handle_storage_error
    end_of_body-kept j other finished t h away = update_kept j (owns other) _ t h away
    end_of_body-kept j other soft_time_limit t h away =
        if_kept (status_is_cancelled (t j)) _ _ h (update_kept j (owns other) _ t h away)
    end_of_body-kept j other (storage_error cause) t h away =
        if_kept (ltb (attempts_or max (t j)) max) _ _ (update_kept j (owns other) _ t h away)
          (update_kept j (owns other) _ t h away)
    end_of_body-kept j other (raised trace) t h away = update_kept j (owns other) _ t h away

    not_orphan :
        (now : ℕ) (alive_ids : List String)
        → elem task alive_ids ≡ true
        → is_orphan now alive_ids r ≡ false
    unfolding is_orphan
    not_orphan now alive_ids alive = ground (arith, owned, alive)

    perform-others :
        (e : Event) (t : Table)
        → t id ≡ some r
        → is_others task e ≡ true
        → perform max e t id ≡ some r
    unfolding perform claim_indexed_source mark_indexed_source_failed
    perform-others (claims now j other) t h o =
        update_kept j (λ x. is_pending x.index_status) _ t h (ground (arith, running))
    perform-others (ends j other body) t h o =
        end_of_body-kept j other body t h (ground (arith, owned, o))
    perform-others (refuses j message) t h o = update_kept j (λ x. true) _ t h (ground (arith, o))
    perform-others (ticks now delivers alive_ids ids) t h o =
        find_and_recover_orphans-at id max now delivers alive_ids ids t r h
        ∙ rw (not_orphan now alive_ids o) (ground arith)

    after-others :
        (events : List Event) (t : Table)
        → t id ≡ some r
        → All (λ e. is_others task e ≡ true) events
        → after events t id ≡ some r
    unfolding after
    after-others [] t h o = h
    after-others (e ∷ rest) t h o =
        after-others rest (perform max e t) (perform-others e t h o.0) o.1

  indexed_own :
      (task : String) (t : Table) (r : IndexedSource)
      → t id ≡ some r
      → owns task r ≡ true
      → ((fenced_mark_indexed id task t).0 ≡ 1)
        × ((fenced_mark_indexed id task t).1 id
            ≡ some (record r { index_status = indexed; error_message = none }))
  unfolding fenced_mark_indexed
  indexed_own task t r h own = rw (update_row-found (owns task) _ t r h own) (refl, put-same t _)

  claim_pending :
      (now : ℕ) (task : String) (t : Table) (r : IndexedSource)
      → t id ≡ some r
      → r.index_status ≡ pending
      → claim_indexed_source now id task t
        ≡ (some (claimed now task r).attempts, put t id (some (claimed now task r)))
  unfolding claim_indexed_source
  claim_pending now task t r h ready =
      rw
        (update_row-found (λ x. is_pending x.index_status) (claimed now task) t r h
          (rw (ready) refl))
        refl

  -- A task that starts on a pending row of a source that passes the checks, and whose body
  -- finishes, commits its result: it answers `done`, and the row is indexed, owned by it, with one
  -- attempt more. While it runs other tasks may claim this row and others, finish and fail, and the
  -- watchdog may tick, if each tick sees this task alive. Nobody cancels or reindexes this source, no
  -- task refuses to run it, and no other delivery of this task ends on it.
  pub index_source-done :
      (now : ℕ) (task : String) (events : List Event) (t : Table) (r : IndexedSource)
      → t id ≡ some r
      → r.index_status ≡ pending
      → All (λ e. is_others task e ≡ true) events
      → let (answer, t') = index_source max now id task none (after events) finished t in
        (answer ≡ done)
        × (t' id
            ≡ some (record (claimed now task r) { index_status = indexed; error_message = none }))
  unfolding index_source end_of_body
  index_source-done now task events t r h ready o =
      let t' = put t id (some (claimed now task r)) in
      let kept = after-others task (claimed now task r) refl refl events t' (put-same t _) o in
      let (one, row) =
        indexed_own task (after events t') (claimed now task r) kept (=s_refl task) in
      rw (claim_pending now task t r h ready, h, ready) (rw (one) refl, row)
