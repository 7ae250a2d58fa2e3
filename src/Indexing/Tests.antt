-- ===== src/Indexing/Tests.antt =====
-- One source, "s", in a table of its own; the bound is three attempts.
use powabase_ai.Prelude.{
  ℕ, ◌+◌, ◌*◌, ◌≤◌, ◌≡◌, refl, true, false, none, some, List, [], ◌∷◌, String, arith, ◌=s◌,
  if◌then◌else◌, elem,
}
use powabase_ai.Indexing.{
  IndexedSource, Table, pending, indexing, indexed, failed, not_complete_after, claimed,
  index_source, finished, storage_error, raised, done,
}
use powabase_ai.Indexing.Watchdog.{
  Seen, is_orphan, find_and_recover_orphans, index_source_task_name,
}
use powabase_ai.Indexing.Recovery.{find_and_recover_orphans-recovered}
use powabase_ai.Indexing.Budget.{Event, claims, ends, ticks, runs, runs-le}
use powabase_ai.Indexing.Claims.{after, index_source-done}
use powabase_ai.Indexing.Dispatch.{find_and_recover_orphans-stranded}

abbrev minute : ℕ
minute = 60000000

abbrev fresh_row : IndexedSource
fresh_row = record {
  index_status = pending;
  celery_task_id = none;
  attempts = 0;
  error_message = none;
  last_dispatched_at = some 0;
}

abbrev dead_row : IndexedSource
dead_row = record {
  index_status = indexing;
  celery_task_id = some "a";
  attempts = 1;
  error_message = none;
  last_dispatched_at = some 0;
}

abbrev only : IndexedSource → Table
only r id = if id =s "s" then some r else none

-- two workers die, the watchdog recovers the row, and the third run meets a storage error
abbrev history : List Event
history =
    claims 0 "s" "a"
    ∷ ticks 200000000 (λ x. true) [] ("s" ∷ [])
    ∷ claims 210000000 "s" "b"
    ∷ claims 210000001 "s" "c"
    ∷ ticks 500000000 (λ x. true) [] ("s" ∷ [])
    ∷ claims 510000000 "s" "d"
    ∷ ends "s" "d" (storage_error "storage")
    ∷ claims 520000000 "s" "e"
    ∷ []

runs-le_example : runs 3 "s" history (only fresh_row) + 0 ≤ 3
runs-le_example = runs-le 3 "s" history (only fresh_row) fresh_row refl (omega arith)

find_and_recover_orphans-recovered_example :
    (find_and_recover_orphans 1
        (5 * minute)
        (λ x. x)
        (λ x. x)
        (λ x. true)
        ("b" ∷ [])
        ("s" ∷ [])
        (only dead_row)).1
      "s"
    ≡ some (record dead_row { index_status = failed; error_message = some (not_complete_after 1) })
unfolding is_orphan
find_and_recover_orphans-recovered_example =
    find_and_recover_orphans-recovered "s" 1 (5 * minute) (λ x. true) ("b" ∷ []) ("s" ∷ [])
      (only dead_row) dead_row refl refl

find_and_recover_orphans-stranded_example :
    let (ids', t') =
      find_and_recover_orphans 3
        (5 * minute)
        (λ x. x)
        (λ x. x)
        (λ x. false)
        []
        ("s" ∷ [])
        (only dead_row) in
    (r' : IndexedSource) × (t' "s" ≡ some r')
    × (r'.index_status ≡ pending)
    × (elem "s" ids' ≡ false)
    × ((later : ℕ) (alive : List String) → is_orphan later alive r' ≡ false)
unfolding is_orphan
find_and_recover_orphans-stranded_example =
    find_and_recover_orphans-stranded 3 (5 * minute) (λ x. false) [] ("s" ∷ []) (only dead_row) "s"
      dead_row refl refl refl (omega arith) refl

abbrev seen : Seen
seen = record {
  queue = none ∷ some (record { name = some index_source_task_name; task_id = some "a" }) ∷ [];
  active = none;
  reserved = none;
}

abbrev meanwhile : List Event
meanwhile =
    claims 9 "s" "b"
    ∷ ends "s" "b" (raised "error")
    ∷ ticks (9 * minute) (λ x. true) ("a" ∷ []) ("s" ∷ [])
    ∷ []

index_source-done_example :
    let (answer, t') =
      index_source 3 7 "s" "a" none (after 3 "s" meanwhile) finished (only fresh_row) in
    (answer ≡ done)
    × (t' "s"
        ≡ some (record (claimed 7 "a" fresh_row) { index_status = indexed; error_message = none }))
index_source-done_example =
    index_source-done 3 "s" 7 "a" meanwhile (only fresh_row) fresh_row refl refl
      (refl, (refl, (refl, tt)))
