-- ===== src/VectorIndex.antt =====
-- services/pg_vector_index.py: when a knowledge base's own vector index is built and when dropped.
-- The comment of an index is what the module's readers find in it; sizes are in rows.
pub mod Stability
pub mod Catalog
pub mod Reconcile
pub mod Ensure
pub mod Task
pub mod Sweep
pub mod Removal
mod Tests
use powabase_ai.Prelude.{
  ℕ, ◌+◌, ◌-◌, ◌/◌, Bool, true, false, not, ◌&&◌, ◌||◌, Option, none, some, List, [], ◌∷◌, ◌++◌,
  map, String, ltb, leb, ◌==◌, ◌=s◌, if◌then◌else◌, max, min,
}
use powabase_ai.Prelude.Int.{ℤ, pos, negsuc, max_ℤ, min_ℤ}

abbrev pub max_hnsw_dims : ℕ
max_hnsw_dims = 2000

abbrev pub max_per_kb_indexes : ℕ
max_per_kb_indexes = 200

abbrev pub max_build_failures : ℕ
max_build_failures = 3

abbrev pub max_interrupted_builds : ℕ
max_interrupted_builds = 25

abbrev pub max_definition_rebuilds : ℕ
max_definition_rebuilds = 3

-- the bounds that the settings registry gives a setting
pub record Bounds : Type 0 where
  pub lowest : ℕ
  pub highest : ℕ

-- VECTOR_PER_KB_INDEX_MIN_ROWS
abbrev pub min_rows : Bounds
min_rows = record { lowest = 1000; highest = 10000000 }

-- VECTOR_PER_KB_INDEX_DROP_ROWS
abbrev pub drop_rows : Bounds
drop_rows = record { lowest = 1; highest = 10000000 }

abbrev pub to_nat : ℤ → ℕ
to_nat (pos n) = n
to_nat (negsuc n) = 0

-- _clamped_setting of the value that is read; both bounds are positive
unfoldable pub clamped_setting : Bounds → ℤ → ℕ
clamped_setting b value = to_nat (min_ℤ (max_ℤ value (pos b.lowest)) (pos b.highest))

abbrev pub with_hysteresis : ℕ → ℕ → ℕ × ℕ
with_hysteresis build_at drop_below =
    (build_at, if leb build_at drop_below then max 1 (build_at / 2) else drop_below)

-- thresholds, of the two values that are read
unfoldable pub thresholds : ℤ → ℤ → ℕ × ℕ
unfolding clamped_setting
thresholds build drop =
    with_hysteresis (clamped_setting min_rows build) (clamped_setting drop_rows drop)

-- What the four readers find in the comment of an index: zeros and none where it has none.
pub record Comment : Type 0 where
  pub build_failures : ℕ
  pub interrupted_builds : ℕ
  pub definition_rebuilds : ℕ
  pub fingerprint : Option String

pub record Index : Type 0 where
  pub is_valid : Bool
  pub comment : Comment

-- definition_has_drifted, against the fingerprint of today's definition
abbrev pub definition_has_drifted : String → Comment → Bool
definition_has_drifted current c = elim c.fingerprint [
  | none ↦ true
  | some fp ↦ not (fp =s current)
]

abbrev pub build_is_given_up : Comment → Bool
build_is_given_up c =
    leb max_build_failures c.build_failures || leb max_interrupted_builds c.interrupted_builds

abbrev pub definition_rebuild_is_given_up : Comment → Bool
definition_rebuild_is_given_up c = leb max_definition_rebuilds c.definition_rebuilds

pub data Action : Type 0 where
  build drop : Action

-- What index_action reads for a knowledge base: the thresholds, the indexes of the project, the
-- fingerprint of today's definition by dimension, and the rows that the index would cover.
pub record Reading : Type 0 where
  pub build_at : ℕ
  pub drop_below : ℕ
  pub index_count : ℕ
  pub current : ℕ → String
  pub rows : ℕ → ℕ

-- bounded_row_count, with the cap of index_action
abbrev pub bounded_row_count : Reading → ℕ → ℕ
bounded_row_count r dims = min (r.rows dims) (r.build_at + 1)

abbrev pub room_for_one_more : Reading → Bool
room_for_one_more r = not (leb max_per_kb_indexes r.index_count)

abbrev pub may_be_wide : ℕ → Bool
may_be_wide dims = leb dims max_hnsw_dims

-- `valid is False`
unfoldable pub invalid_action : Reading → ℕ → Comment → Option Action
invalid_action r dims c =
    if leb (bounded_row_count r dims) r.drop_below || not (may_be_wide dims)
    then some drop
    else if build_is_given_up c
    then none
    else some build

-- `valid is True`
unfoldable pub valid_action : Reading → ℕ → Comment → Option Action
valid_action r dims c =
    if leb (bounded_row_count r dims) r.drop_below
    then some drop
    else if definition_has_drifted (r.current dims) c
        && (leb r.build_at (bounded_row_count r dims)
            && (may_be_wide dims
                && (not (definition_rebuild_is_given_up c) && room_for_one_more r)))
    then some build
    else none

-- the body of the loop of index_action, where none goes on
unfoldable pub dims_action : Reading → ℕ → Option Index → Option Action
unfolding invalid_action valid_action
dims_action r dims none =
    if leb r.build_at (bounded_row_count r dims) && (may_be_wide dims && room_for_one_more r)
    then some build
    else none
dims_action r dims (some i) =
    if i.is_valid then valid_action r dims i.comment else invalid_action r dims i.comment

-- the dict of per_kb_index_states, which has a dimension once
abbrev pub States : Type 0
States = List (ℕ × Index)

abbrev pub state_of : States → ℕ → Option Index
state_of [] dims = none
state_of ((d, i) ∷ states) dims =
    let rest = state_of states dims in if d == dims then some i else rest

-- the sorted set with one more element
abbrev pub insert_dims : ℕ → List ℕ → List ℕ
insert_dims d [] = d ∷ []
insert_dims d (e ∷ ds) =
    let later = insert_dims d ds in
    if ltb d e then d ∷ e ∷ ds else if d == e then e ∷ ds else e ∷ later

-- `sorted(set(candidates) | set(states))`
unfoldable pub dims_in_play : List ℕ → List ℕ
dims_in_play [] = []
dims_in_play (d ∷ ds) = insert_dims d (dims_in_play ds)

abbrev pub or_else : {A : Type 0} → Option A → Option A → Option A
or_else none later = later
or_else (some a) later = some a

unfoldable pub first_action : Reading → States → List ℕ → Option Action
unfolding dims_action
first_action r states [] = none
first_action r states (d ∷ ds) =
    or_else (dims_action r d (state_of states d)) (first_action r states ds)

-- index_action, of the rows of the settings, the candidate dimensions and the states
unfoldable pub index_action : ℤ → ℤ → ℕ → (ℕ → String) → (ℕ → ℕ) → List ℕ → States → Option Action
unfolding thresholds first_action dims_in_play
index_action stored_build stored_drop index_count current rows candidates states =
    let (build_at, drop_below) = thresholds stored_build stored_drop in
    first_action
      (record {
        build_at = build_at;
        drop_below = drop_below;
        index_count = index_count;
        current = current;
        rows = rows;
      })
      states (dims_in_play (candidates ++ map (λ e. e.0) states))
