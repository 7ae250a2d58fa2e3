-- ===== src/VectorIndex/Reconcile/Tests.antt =====
-- An INVALID index of an older definition that is repaired, interrupted, and built at last.
use powabase_ai.Prelude.{
  ℕ, ◌+◌, ◌≤◌, ◌≡◌, refl, ◌↔◌, true, false, none, some, List, [], ◌∷◌, String, arith,
}
use powabase_ai.Prelude.Int.{pos}
use powabase_ai.VectorIndex.{
  Index, Reading, States, thresholds, clamped_setting, dims_action, dims_in_play,
}
use powabase_ai.VectorIndex.Stability.{reading}
use powabase_ai.VectorIndex.Catalog.{
  Catalog, done, left_invalid, creating, dropping, no_comment, counted_attempt,
  count_a_failed_build, record_the_definition_built,
}
use powabase_ai.VectorIndex.Reconcile.{
  Met, Pass, held, table_is_busy, create_index, build_missing, repair_invalid, reconcile_invalid,
  reconcile_state, reconcile_dims, defer_the_rebuild,
}
use powabase_ai.VectorIndex.Reconcile.Agreement.{reading_of, reconcile_dims-asked}
use powabase_ai.VectorIndex.Reconcile.Bound.{builds_of, passes, passes-builds}
use powabase_ai.VectorIndex.Reconcile.Waiting.{reconcile_dims-waiting}
use powabase_ai.VectorIndex.Ensure.{no_report, reconcile, ensure, outcome}
use powabase_ai.VectorIndex.Ensure.Finished.{ensure-IsQuiet}

abbrev current : ℕ → String
current dims = "0123456789ab"

abbrev rows : ℕ → ℕ
rows dims = 6000

abbrev invalid : Index
invalid = record {
  is_valid = false;
  comment = record no_comment { build_failures = 2; fingerprint = some "ba9876543210" };
}

abbrev found : Catalog
found = record { index = λ d. some invalid; issued = [] }

abbrev undisturbed : Met
undisturbed = record {
  lock_is_free = true;
  build_in_progress = false;
  index_count = 12;
  before_drop = held;
  before_build = held;
  drop_ends = done;
  create_ends = done;
  count_lands = true;
  comment_lands = true;
}

abbrev large : Reading
large = record {
  build_at = 5000;
  drop_below = 2500;
  index_count = 12;
  current = current;
  rows = rows;
}

reconcile_dims-asked_example :
    ((reconcile_dims large 1536 undisturbed no_report found).catalog.issued ≡ [])
    ↔ (dims_action (reading_of large undisturbed) 1536 (some invalid) ≡ none)
reconcile_dims-asked_example =
    reconcile_dims-asked large 1536 undisturbed refl refl refl refl refl no_report found

abbrev interrupted : Met
interrupted = record undisturbed { create_ends = left_invalid true }

abbrev history : List (Reading × Met)
history = (large, interrupted) ∷ (large, undisturbed) ∷ []

rebuilt_twice :
    (passes 1536 history found).issued
    ≡ creating 1536 ∷ dropping 1536 ∷ creating 1536 ∷ dropping 1536 ∷ []
unfolding passes reconcile_dims reconcile_state reconcile_invalid repair_invalid build_missing
    create_index count_a_failed_build counted_attempt record_the_definition_built
rebuilt_twice = refl

passes-builds_example : builds_of 1536 (passes 1536 history found).issued ≤ 0 + 27
passes-builds_example = passes-builds 1536 refl "0123456789ab" history found (
  (refl, omega arith, omega arith, omega arith, refl, λ t same. ground (arith, same), refl),
  ((refl, omega arith, omega arith, omega arith, refl, λ t same. ground (arith, same), refl), _),
)

abbrev waiting : Met
waiting = record undisturbed { before_drop = table_is_busy [] none }

reconcile_dims-waiting_example :
    ((reconcile_dims large 1536 waiting no_report found).raised ≡ false)
    × ((reconcile_dims large 1536 waiting no_report found).catalog ≡ found)
unfolding reconcile_dims reconcile_state reconcile_invalid defer_the_rebuild
reconcile_dims-waiting_example =
    reconcile_dims-waiting large 1536 waiting no_report found (omega arith) refl

abbrev surveyed : States
surveyed = (1536, invalid) ∷ []

abbrev ended : Pass
ended =
    ensure (reading (pos 5000) (pos 9000) 12 current rows) (λ d. undisturbed) (λ d db. db)
      (1536 ∷ []) surveyed found

ensure-IsQuiet_example :
    dims_action
      (reading_of (reading (pos 5000) (pos 9000) 12 current rows) undisturbed)
      1536
      (ended.catalog.index 1536)
    ≡ none
unfolding ensure reconcile reconcile_dims reconcile_state reconcile_invalid repair_invalid
    build_missing create_index record_the_definition_built outcome dims_in_play thresholds
    clamped_setting
ensure-IsQuiet_example =
    ensure-IsQuiet (pos 5000) (pos 9000) 12 current rows (λ d. undisturbed) (λ d db. db)
      (λ d e db apart. refl) (λ d. refl) (λ d. refl) (1536 ∷ []) surveyed found refl
      (λ same. ground (arith, same)) (λ same. ground (arith, same)) 1536 refl
