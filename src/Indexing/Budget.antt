-- ===== src/Indexing/Budget.antt =====
-- How often the indexing of a source is run: every run is a claim, and the claims share one budget.
use powabase_ai.Prelude.{
  ℕ, ◌+◌, ◌≤◌, ◌≡◌, refl, Bool, true, false, ◌&&◌, Option, none, some, List, [], ◌∷◌, String, arith,
  ltb, ◌=s◌, =s_iff, if◌then◌else◌, elem,
}
use powabase_ai.Indexing.{
  IndexedSource, Table, Message, Body, is_pending, status_is_cancelled, owns, attempts_or, claimed,
  update_row, claim_indexed_source, mark_indexed_source_failed, fenced_mark_failed,
  handle_storage_error, end_of_body, finished, soft_time_limit, storage_error, raised,
}
use powabase_ai.Indexing.Watchdog.{find_and_recover_orphans}
use powabase_ai.Indexing.Recovery.{
  update_row-at, update_row-returning, recovered, find_and_recover_orphans-at,
}

-- What happens to the table: a task claims a row, ends its run of one, or refuses to run it before
-- the claim; and a tick of the watchdog.
pub data Event : Type 0 where
  claims : ℕ → String → String → Event
  ends : String → String → Body → Event
  refuses : String → Message → Event
  ticks : ℕ → (String → Bool) → List String → List String → Event

module _ (max : ℕ) where
  unfoldable pub perform : Event → Table → Table
  unfolding claim_indexed_source mark_indexed_source_failed find_and_recover_orphans
  perform (claims now id task) t = (claim_indexed_source now id task t).1
  perform (ends id task body) t = (end_of_body max id task body t).1
  perform (refuses id message) t = mark_indexed_source_failed id message t
  perform (ticks now delivers alive_ids ids) t =
      (find_and_recover_orphans max now (λ x. x) (λ x. x) delivers alive_ids ids t).1

  abbrev pub one_if : Option ℕ → ℕ
  one_if none = 0
  one_if (some _) = 1

  -- whether the event is a claim of this row that succeeds
  abbrev pub won : String → Event → Table → ℕ
  won id (claims now j task) t = if j =s id then one_if (claim_indexed_source now j task t).0 else 0
  won id _ t = 0

  -- the runs of a row in a history
  unfoldable pub runs : String → List Event → Table → ℕ
  unfolding perform
  runs id [] t = 0
  runs id (e ∷ rest) t = won id e t + runs id rest (perform e t)

  -- the attempts of a row, with the one that a pending row will be claimed for
  abbrev pub spent : IndexedSource → ℕ
  spent r = r.attempts + (if is_pending r.index_status then 1 else 0)

  module _ (id : String) where
    -- the row after an event, with its attempts counted on
    record Next (before : IndexedSource) (wins : ℕ) (row : Option IndexedSource) : Type 0 where
      after : IndexedSource
      stored : row ≡ some after
      counted : after.attempts ≡ wins + before.attempts
      within : spent after ≤ max

    module _ (t : Table) (r : IndexedSource) (h : t id ≡ some r) (b : spent r ≤ max) where
      Next-update :
          (j : String) (p : IndexedSource → Bool) (f : IndexedSource → IndexedSource)
          → (f r).attempts ≡ r.attempts
          → ((j =s id) ≡ true → spent (f r) ≤ max)
          → Next r 0 ((update_row j p f t).1 id)
      Next-update j p f same fits = record {
        after = if (j =s id) && p r then f r else r;
        stored = update_row-at id j p f t r h;
        counted = ground (arith, same);
        within = ground (arith, fits);
      }

      Next-if :
          {A : Type 0} (c : Bool) (x y : A × Table)
          → (c ≡ true → Next r 0 (x.1 id))
          → (c ≡ false → Next r 0 (y.1 id))
          → Next r 0 ((if c then x else y).1 id)
      Next-if true x y hx hy = hx refl
      Next-if false x y hx hy = hy refl

      Next-same : Next r 0 (t id)
      Next-same = record { after = r; stored = h; counted = omega arith; within = b }

      Next-fenced_mark_failed :
          (j task : String) (message : Message)
          → Next r 0 ((fenced_mark_failed j task message t).1 id)
      unfolding fenced_mark_failed
      Next-fenced_mark_failed j task message =
          Next-update j (owns task) _ refl (λ same. omega arith)

      own_attempts : (j : String) → (j =s id) ≡ true → attempts_or max (t j) ≡ r.attempts
      own_attempts j same = ground (arith, h, (=s_iff j id).0 same)

      Next-handle_storage_error :
          (j task cause : String) → Next r 0 ((handle_storage_error max j task cause t).1 id)
      unfolding handle_storage_error
      Next-handle_storage_error j task cause =
          Next-if (ltb (attempts_or max (t j)) max) _ _
            (λ under.
              Next-update j (owns task) _ refl (λ same. ground (arith, own_attempts j same, under)))
            (λ over. Next-fenced_mark_failed j task _)

      claim_won :
          (now : ℕ) (j task : String)
          → won id (claims now j task) t ≡ (if (j =s id) && is_pending r.index_status then 1 else 0)
      unfolding claim_indexed_source
      claim_won now j task = ground (
        arith,
        update_row-returning id j (λ x. is_pending x.index_status) (claimed now task) t r h,
      )

      Next-claim :
          (now : ℕ) (j task : String)
          → Next r (won id (claims now j task) t) ((claim_indexed_source now j task t).1 id)
      unfolding claim_indexed_source
      Next-claim now j task = record {
        after = if (j =s id) && is_pending r.index_status then claimed now task r else r;
        stored = update_row-at id j _ (claimed now task) t r h;
        counted = ground (arith, claim_won now j task);
        within = ground arith;
      }

      Next-tick :
          (now : ℕ) (delivers : String → Bool) (alive_ids ids : List String)
          → Next r 0
              ((find_and_recover_orphans max now (λ x. x) (λ x. x) delivers alive_ids ids t).1 id)
      Next-tick now delivers alive_ids ids = record {
        after = if elem id ids then recovered id max now alive_ids r else r;
        stored = find_and_recover_orphans-at id max now delivers alive_ids ids t r h;
        counted = ground arith;
        within = ground arith;
      }

      perform-Next : (e : Event) → Next r (won id e t) (perform e t id)
      unfolding perform end_of_body mark_indexed_source_failed
      perform-Next (claims now j task) = Next-claim now j task
      perform-Next (ends j task finished) = Next-update j (owns task) _ refl (λ same. omega arith)
      perform-Next (ends j task soft_time_limit) =
          Next-if (status_is_cancelled (t j)) _ _ (λ c. Next-same)
            (λ c. Next-fenced_mark_failed j task _)
      perform-Next (ends j task (storage_error cause)) = Next-handle_storage_error j task cause
      perform-Next (ends j task (raised trace)) = Next-fenced_mark_failed j task _
      perform-Next (refuses j message) = Next-update j (λ x. true) _ refl (λ same. omega arith)
      perform-Next (ticks now delivers alive_ids ids) = Next-tick now delivers alive_ids ids

    -- In a history of claims, of ends of runs, of refusals and of ticks, in any order and by any
    -- tasks, a row is run at most so often that its attempts do not exceed the bound: with a fresh
    -- pending row, no more than the bound. At the start the row's attempts, with one more if it is
    -- pending, are within the bound.
    pub runs-le :
        (history : List Event) (t : Table) (r : IndexedSource)
        → t id ≡ some r
        → spent r ≤ max
        → runs id history t + r.attempts ≤ max
    unfolding runs
    runs-le [] t r h b = omega arith
    runs-le (e ∷ rest) t r h b =
        let next = perform-Next t r h b e in
        omega (arith, next.counted, runs-le rest (perform e t) next.after next.stored next.within)
