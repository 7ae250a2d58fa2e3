-- ===== src/Indexing/Watchdog.antt =====
-- tasks/watchdog.py: which tasks are alive, and what one tick does with the rows whose task is not.
use powabase_ai.Prelude.{
  ℕ, ◌+◌, ◌*◌, Bool, true, false, not, ◌&&◌, ◌||◌, Option, none, some, List, [], ◌∷◌, ◌++◌, map,
  String, ltb, leb, ◌=s◌, if◌then◌else◌, keep, elem,
}
use powabase_ai.Indexing.{
  IndexedSource, Table, not_complete_after, failed, pending, is_indexing, update_row,
}

-- A task that a worker reports, and a message of the queue; none where the code finds no text.
pub record TaskInfo : Type 0 where
  pub name : Option String
  pub task_id : Option String

abbrev pub index_source_task_name : String
index_source_task_name = "agentic_project_service.tasks.indexing.index_source"

abbrev pub id_if_named : Bool → Option String → List String
id_if_named false _ = []
id_if_named true none = []
id_if_named true (some i) = if i =s "" then [] else i ∷ []

abbrev pub is_named : Option String → String → Bool
is_named none filter = false
is_named (some n) filter = n =s filter

abbrev pub ids_of_tasks : String → List TaskInfo → List String
ids_of_tasks filter [] = []
ids_of_tasks filter (t ∷ rest) =
    id_if_named (is_named t.name filter) t.task_id ++ ids_of_tasks filter rest

-- _extract_ids_from_inspect_result; none for a worker whose list is None
unfoldable pub extract_ids_from_inspect_result :
    Option (List (Option (List TaskInfo))) → String → List String
extract_ids_from_inspect_result none filter = []
extract_ids_from_inspect_result (some []) filter = []
extract_ids_from_inspect_result (some (none ∷ rest)) filter =
    extract_ids_from_inspect_result (some rest) filter
extract_ids_from_inspect_result (some (some tasks ∷ rest)) filter =
    ids_of_tasks filter tasks ++ extract_ids_from_inspect_result (some rest) filter

-- _extract_ids_from_queue; none for a message that is no JSON or has no headers
unfoldable pub extract_ids_from_queue : List (Option TaskInfo) → String → List String
extract_ids_from_queue [] filter = []
extract_ids_from_queue (none ∷ rest) filter = extract_ids_from_queue rest filter
extract_ids_from_queue (some m ∷ rest) filter =
    id_if_named (is_named m.name filter) m.task_id ++ extract_ids_from_queue rest filter

-- What the tick sees of the broker and the workers.
pub record Seen : Type 0 where
  pub queue : List (Option TaskInfo)
  pub active : Option (List (Option (List TaskInfo)))
  pub reserved : Option (List (Option (List TaskInfo)))

-- _collect_alive_task_ids
unfoldable pub collect_alive_task_ids : Seen → List String
unfolding extract_ids_from_inspect_result extract_ids_from_queue
collect_alive_task_ids s =
    extract_ids_from_queue s.queue index_source_task_name
    ++ extract_ids_from_inspect_result s.active index_source_task_name
    ++ extract_ids_from_inspect_result s.reserved index_source_task_name

-- microseconds
abbrev pub dispatch_buffer : ℕ
dispatch_buffer = 120 * 1000000

abbrev pub dispatched_long_ago : ℕ → Option ℕ → Bool
dispatched_long_ago now none = false
dispatched_long_ago now (some at) = ltb (at + dispatch_buffer) now

abbrev pub not_alive : Option String → List String → Bool
not_alive none alive_ids = false
not_alive (some task) alive_ids = not (elem task alive_ids)

-- the WHERE of ORPHAN_QUERY
unfoldable pub is_orphan : ℕ → List String → IndexedSource → Bool
is_orphan now alive_ids r =
    is_indexing r.index_status
    && (dispatched_long_ago now r.last_dispatched_at && not_alive r.celery_task_id alive_ids)

-- A row of the query's result: the id and the attempts that are read.
pub record OrphanRow : Type 0 where
  pub id : String
  pub attempts : ℕ

abbrev pub orphan_row : ℕ → List String → String → Option IndexedSource → List OrphanRow
orphan_row now alive_ids id none = []
orphan_row now alive_ids id (some r) =
    if is_orphan now alive_ids r then record { id = id; attempts = r.attempts } ∷ [] else []

-- ORPHAN_QUERY, for the ids of the table in the order in which it meets them
unfoldable pub orphan_query : ℕ → List String → List String → Table → List OrphanRow
orphan_query now alive_ids [] t = []
orphan_query now alive_ids (id ∷ ids) t =
    orphan_row now alive_ids id (t id) ++ orphan_query now alive_ids ids t

-- the terminal writes of the exhausted rows, one UPDATE each
unfoldable pub fail_exhausted : List OrphanRow → Table → Table
unfolding update_row
fail_exhausted [] t = t
fail_exhausted (row ∷ rest) t =
    fail_exhausted rest
      (update_row row.id (λ r. is_indexing r.index_status)
        (λ r. record r {
          index_status = failed;
          error_message = some (not_complete_after row.attempts);
        })
        t).1

abbrev pub reset_row : ℕ → IndexedSource → IndexedSource
reset_row now r =
    if is_indexing r.index_status
    then record {
      index_status = pending;
      celery_task_id = r.celery_task_id;
      attempts = r.attempts;
      error_message = none;
      last_dispatched_at = some now;
    }
    else r

abbrev pub reset_at : ℕ → Bool → Option IndexedSource → Option IndexedSource
reset_at now true (some r) = some (reset_row now r)
reset_at now _ row = row

-- the bulk UPDATE of the recoverable rows
unfoldable pub reset_recoverable : ℕ → List String → Table → Table
reset_recoverable now orphan_ids t id = reset_at now (elem id orphan_ids) (t id)

unfoldable pub exhausted_of : ℕ → List OrphanRow → List OrphanRow
exhausted_of max rows = keep (λ row. leb max row.attempts) rows

unfoldable pub recoverable_of : ℕ → List OrphanRow → List String
recoverable_of max rows = map (λ row. row.id) (keep (λ row. ltb row.attempts max) rows)

-- the ids that are published to the broker, which refuses some
unfoldable pub dispatched : (String → Bool) → List String → List String
dispatched delivers ids = keep delivers ids

-- _find_and_recover_orphans: the ids dispatched again, whose number it returns, and the table.
-- `between` is what other transactions do after the query, and `later` what they do after the
-- terminal writes.
unfoldable pub find_and_recover_orphans :
    ℕ
    → ℕ
    → (Table → Table)
    → (Table → Table)
    → (String → Bool)
    → List String
    → List String
    → Table
    → List String × Table
unfolding orphan_query fail_exhausted reset_recoverable exhausted_of recoverable_of dispatched
find_and_recover_orphans max now between later delivers alive_ids ids t =
    let rows = orphan_query now alive_ids ids t in
    let t' = later (fail_exhausted (exhausted_of max rows) (between t)) in
    (
      dispatched delivers (recoverable_of max rows),
      reset_recoverable now (recoverable_of max rows) t',
    )

abbrev pub is_nonempty : {A : Type 0} → List A → Bool
is_nonempty [] = false
is_nonempty (_ ∷ _) = true

abbrev pub responded : {A : Type 0} → Option (List A) → Bool
responded none = false
responded (some workers) = is_nonempty workers

-- _run_one_tick
unfoldable pub run_one_tick :
    ℕ
    → ℕ
    → (Table → Table)
    → (Table → Table)
    → (String → Bool)
    → Seen
    → List String
    → Table
    → List String × Table
unfolding find_and_recover_orphans collect_alive_task_ids
run_one_tick max now between later delivers s ids t =
    let alive_ids = collect_alive_task_ids s in
    if not (is_nonempty alive_ids)
      && (not (is_nonempty s.queue) && not (responded s.active || responded s.reserved))
    then ([], t)
    else find_and_recover_orphans max now between later delivers alive_ids ids t
