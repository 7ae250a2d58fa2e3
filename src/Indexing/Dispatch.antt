-- ===== src/Indexing/Dispatch.antt =====
-- Which rows a tick of the watchdog dispatches again, and which it leaves alone.
use powabase_ai.Prelude.{
  ℕ, ◌≡◌, refl, ap, ◌∙◌, Bool, true, false, not, ◌&&◌, ◌||◌, none, some, List, [], ◌∷◌, String,
  arith, ltb, ◌=s◌, =s_iff, if◌then◌else◌, elem, Bool-cases, inl, inr, lt→leb, ◌<◌,
}
use powabase_ai.Indexing.{IndexedSource, Table, pending}
use powabase_ai.Indexing.Watchdog.{
  Seen, is_orphan, orphan_query, dispatched, find_and_recover_orphans, run_one_tick,
  collect_alive_task_ids, recoverable_of, is_nonempty, responded,
}
use powabase_ai.Indexing.Recovery.{elem-map, query-hits, find_and_recover_orphans-at}

elem-dispatched :
    (delivers : String → Bool) (id : String) (ids : List String)
    → elem id (dispatched delivers ids) ≡ (elem id ids && delivers id)
unfolding dispatched
elem-dispatched delivers id [] = refl
elem-dispatched delivers id (j ∷ ids) = elim (Bool-cases (j =s id)) [
  | inl same ↦ ground (
    arith,
    same,
    (=s_iff j id).0 same,
    ap delivers ((=s_iff j id).0 same),
    elem-dispatched delivers id ids,
  )
  | inr other ↦ ground (arith, other, elem-dispatched delivers id ids)
]

not_orphan_pending :
    (now : ℕ) (alive_ids : List String) (r : IndexedSource)
    → r.index_status ≡ pending
    → is_orphan now alive_ids r ≡ false
unfolding is_orphan
not_orphan_pending now alive_ids r h = ground (arith, h)

alive_no_orphan :
    (now : ℕ) (alive_ids : List String) (task : String) (r : IndexedSource)
    → r.celery_task_id ≡ some task
    → elem task alive_ids ≡ true
    → is_orphan now alive_ids r ≡ false
unfolding is_orphan
alive_no_orphan now alive_ids task r owned alive = ground (arith, owned, alive)

if_kept :
    {A : Type 0} (id : String) (t : Table) (r : IndexedSource)
    → t id ≡ some r
    → (c : Bool) (x : List A × Table) → x.1 id ≡ some r
    → (if c then ([], t) else x).1 id ≡ some r
if_kept id t r h true x kept = h
if_kept id t r h false x kept = kept

module _ (max now : ℕ) (delivers : String → Bool) (alive_ids ids : List String) (t : Table)
    (id : String) (r : IndexedSource) (h : t id ≡ some r) (listed : elem id ids ≡ true) where
  -- Whatever other transactions do meanwhile, of the rows that its query meets, a tick dispatches
  -- again exactly the orphans with attempts left whose message the broker takes.
  find_and_recover_orphans-dispatched :
      (between later : Table → Table)
      → elem id (find_and_recover_orphans max now between later delivers alive_ids ids t).0
        ≡ ((is_orphan now alive_ids r && ltb r.attempts max) && delivers id)
  unfolding find_and_recover_orphans recoverable_of
  find_and_recover_orphans-dispatched between later =
      elem-dispatched delivers id (recoverable_of max (orphan_query now alive_ids ids t))
      ∙ rw
          (
            elem-map id (λ row. ltb row.attempts max) (orphan_query now alive_ids ids t),
            query-hits id now alive_ids t r h (λ n. ltb n max) ids,
            listed,
          )
          refl

  -- An orphan with attempts left whose message the broker does not take is pending after a tick that
  -- runs alone, and not dispatched; and while the row stays so, no later tick takes it for an
  -- orphan, whatever is alive then.
  pub find_and_recover_orphans-stranded :
      is_orphan now alive_ids r ≡ true
      → r.attempts < max
      → delivers id ≡ false
      → let (ids', t') =
          find_and_recover_orphans max now (λ x. x) (λ x. x) delivers alive_ids ids t in
        (r' : IndexedSource) × (t' id ≡ some r')
        × (r'.index_status ≡ pending)
        × (elem id ids' ≡ false)
        × ((later : ℕ) (alive : List String) → is_orphan later alive r' ≡ false)
  find_and_recover_orphans-stranded orphan under refused =
      let at_id = find_and_recover_orphans-at id max now delivers alive_ids ids t r h in
      let gone = find_and_recover_orphans-dispatched (λ x. x) (λ x. x) in
      (
        record {
          index_status = pending;
          celery_task_id = r.celery_task_id;
          attempts = r.attempts;
          error_message = none;
          last_dispatched_at = some now;
        },
        at_id ∙ rw (listed, orphan, lt→leb max r.attempts under) refl,
        refl,
        gone ∙ rw (refused) (ground arith),
        λ later alive. not_orphan_pending later alive _ refl,
      )

-- A tick that sees the owner of a row alive, and with no other transaction meanwhile, leaves the row
-- as it is.
run_one_tick-alive :
    (max now : ℕ) (delivers : String → Bool) (s : Seen) (ids : List String) (t : Table)
    (id task : String) (r : IndexedSource)
    → t id ≡ some r
    → r.celery_task_id ≡ some task
    → elem task (collect_alive_task_ids s) ≡ true
    → (run_one_tick max now (λ x. x) (λ x. x) delivers s ids t).1 id ≡ some r
unfolding run_one_tick
run_one_tick-alive max now delivers s ids t id task r h owned alive =
    if_kept {A = String} id t r h
      (not (is_nonempty (collect_alive_task_ids s))
        && (not (is_nonempty s.queue) && not (responded s.active || responded s.reserved)))
      (find_and_recover_orphans max now (λ x. x) (λ x. x) delivers (collect_alive_task_ids s) ids t)
      (find_and_recover_orphans-at id max now delivers (collect_alive_task_ids s) ids t r h
        ∙ rw (alive_no_orphan now (collect_alive_task_ids s) task r owned alive) (ground arith))
