-- ===== src/VectorIndex/Stability.antt =====
-- No index is built and dropped over and over: the thresholds keep apart what asks for each.
use powabase_ai.Prelude.{
  ℕ, ◌≤◌, ◌<◌, ◌≡◌, ◌∙◌, true, Option, none, some, List, [], ◌∷◌, ◌++◌, map, String, arith, =s_refl,
  Option-cases, inl, inr,
}
use powabase_ai.Prelude.Int.{ℤ, pos, negsuc}
use powabase_ai.VectorIndex.{
  Bounds, min_rows, drop_rows, clamped_setting, thresholds, with_hysteresis, Comment, Index, Action,
  build, drop, Reading, States, state_of, invalid_action, valid_action, dims_action, first_action,
  dims_in_play, index_action,
}

clamped_setting-bounds :
    (b : Bounds) (value : ℤ)
    → b.lowest ≤ b.highest
    → (b.lowest ≤ clamped_setting b value) × (clamped_setting b value ≤ b.highest)
unfolding clamped_setting
clamped_setting-bounds b (pos n) h = ground (arith, h)
clamped_setting-bounds b (negsuc n) h = ground (arith, h)

with_hysteresis-lt : (b d : ℕ) → 2 ≤ b → (with_hysteresis b d).1 < (with_hysteresis b d).0
with_hysteresis-lt b d h = ground (arith, h)

pub thresholds-lt :
    (stored_build stored_drop : ℤ)
    → (thresholds stored_build stored_drop).1 < (thresholds stored_build stored_drop).0
unfolding thresholds
thresholds-lt b d =
    with_hysteresis-lt (clamped_setting min_rows b) (clamped_setting drop_rows d)
      (omega (arith, clamped_setting-bounds min_rows b (omega arith)))

-- the state of a dimension after an action on it: no index, or a valid one of today's definition
abbrev pub after : Reading → ℕ → Action → Comment → Option Index
after r dims drop c = none
after r dims build c =
    some (record { is_valid = true; comment = record c { fingerprint = some (r.current dims) } })

module _ (r : Reading) (apart : r.drop_below < r.build_at) (dims count : ℕ) (c : Comment) where
  dims_action-after :
      (s : Option Index) (a : Action)
      → dims_action r dims s ≡ some a
      → dims_action (record r { index_count = count }) dims (after r dims a c) ≡ none
  unfolding dims_action valid_action invalid_action
  dims_action-after none build h = ground (arith, h, apart, =s_refl (r.current dims))
  dims_action-after none drop h = ground (arith, h, apart)
  dims_action-after (some i) build h = ground (arith, h, apart, =s_refl (r.current dims))
  dims_action-after (some i) drop h = ground (arith, h, apart)

first_action-asks :
    (r : Reading) (states : States) (ds : List ℕ) (a : Action)
    → first_action r states ds ≡ some a
    → (d : ℕ) × (dims_action r d (state_of states d) ≡ some a)
unfolding first_action
first_action-asks r states [] a h = absurd (ground (arith, h))
first_action-asks r states (d ∷ ds) a h =
    elim (Option-cases (dims_action r d (state_of states d))) [
      | inl quiet ↦ first_action-asks r states ds a (rw (quiet) at h)
      | inr (b, asks) ↦ (d, asks ∙ (rw (asks) at h))
    ]

module _ (stored_build stored_drop : ℤ) (index_count : ℕ) (current : ℕ → String)
    (rows : ℕ → ℕ) where
  -- what index_action reads, with the thresholds of the stored settings
  abbrev pub reading : Reading
  reading = record {
    build_at = (thresholds stored_build stored_drop).0;
    drop_below = (thresholds stored_build stored_drop).1;
    index_count = index_count;
    current = current;
    rows = rows;
  }

  -- Whatever the stored thresholds are, an action that index_action asks for is asked for because of
  -- one dimension, and once it is carried out there, with the index dropped or a valid one of today's
  -- definition in place, that dimension asks for nothing more at the same rows, however many indexes
  -- the project then has: no index is built and dropped in turn.
  pub index_action-settles :
      (candidates : List ℕ) (states : States) (a : Action)
      → index_action stored_build stored_drop index_count current rows candidates states ≡ some a
      → (d : ℕ) × (dims_action reading d (state_of states d) ≡ some a)
        × ((count : ℕ) (c : Comment)
            → dims_action (record reading { index_count = count }) d (after reading d a c) ≡ none)
  unfolding index_action
  index_action-settles candidates states a h =
      let (d, asks) =
        first_action-asks reading states (dims_in_play (candidates ++ map (λ e. e.0) states)) a h in
      (
        d,
        asks,
        λ count c.
            dims_action-after reading (thresholds-lt stored_build stored_drop) d count c
              (state_of states d) a asks,
      )
