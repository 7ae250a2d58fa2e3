-- ===== src/VectorIndex/Sweep.antt =====
-- services/pg_vector_index.py: kbs_needing_a_per_kb_index, the sweep at start. The rows of the catalog
-- and the counts of rows are given, and the fingerprints of today's definitions.
pub mod Dispatched
mod Tests
use powabase_ai.Prelude.{
  ℕ, Bool, true, false, not, ◌&&◌, ◌||◌, Option, none, some, List, [], ◌∷◌, ◌++◌, String, ltb, leb,
  ◌==◌, ◌=s◌, if◌then◌else◌, any, elem, take,
}
use powabase_ai.VectorIndex.{
  Index, Comment, max_definition_rebuilds, build_is_given_up, definition_has_drifted,
  definition_rebuild_is_given_up,
}

-- MAX_SWEEP_DISPATCH
abbrev pub max_sweep_dispatch : ℕ
max_sweep_dispatch = 10

-- a row of the catalog, its name parsed
pub record Found : Type 0 where
  pub kb : String
  pub dims : ℕ
  pub index : Index

-- a group of the count
pub record Counted : Type 0 where
  pub kb : String
  pub dims : ℕ
  pub count : ℕ

-- a key of a dict, which keeps its place
abbrev pub add_key : String → List String → List String
add_key k ks = if elem k ks then ks else ks ++ (k ∷ [])

abbrev pub add_keys : List String → List String → List String
add_keys [] ks = ks
add_keys (k ∷ more) ks = add_keys more (add_key k ks)

module _ (current : String → ℕ → String) where
  -- `needing`, from the catalog
  abbrev pub is_repairable : Found → Bool
  is_repairable f = not f.index.is_valid && not (build_is_given_up f.index.comment)

  -- `drifted`
  abbrev pub is_drifted : Found → Bool
  is_drifted f =
      f.index.is_valid
      && (definition_has_drifted (current f.kb f.dims) f.index.comment
          && not (definition_rebuild_is_given_up f.index.comment))

  abbrev pub is_unsettled : Comment → Bool
  is_unsettled c = ltb 0 c.definition_rebuilds && ltb c.definition_rebuilds max_definition_rebuilds

  -- `settling`
  abbrev pub is_settling : Found → Bool
  is_settling f =
      f.index.is_valid
      && (not (definition_has_drifted (current f.kb f.dims) f.index.comment)
          && is_unsettled f.index.comment)

  -- the keys of the rows of a kind, added to a dict
  abbrev pub add_found : (Found → Bool) → List Found → List String → List String
  add_found p [] ks = ks
  add_found p (f ∷ rows) ks = add_found p rows (if p f then add_key f.kb ks else ks)

  abbrev pub has_index : List Found → Counted → Bool
  has_index rows c = any (λ f. f.kb =s c.kb && f.dims == c.dims) rows

  -- out of step with the thresholds
  abbrev pub is_out_of_step : ℕ × ℕ → List Found → Counted → Bool
  is_out_of_step (build_at, drop_below) rows c =
      not (has_index rows c) && leb build_at c.count || has_index rows c && leb c.count drop_below

  abbrev pub add_counted : ℕ × ℕ → List Found → List Counted → List String → List String
  add_counted limits rows [] ks = ks
  add_counted limits rows (c ∷ counted) ks =
      add_counted limits rows counted (if is_out_of_step limits rows c then add_key c.kb ks else ks)

  -- the knowledge bases with an index whose rows are all gone
  abbrev pub add_gone : List Counted → List Found → List String → List String
  add_gone counted rows ks = add_found (λ f. not (any (λ c. c.kb =s f.kb) counted)) rows ks

  -- `needing` after the count, which may be abandoned
  abbrev pub with_counts : ℕ × ℕ → List Found → Option (List Counted) → List String → List String
  with_counts limits rows none ks = ks
  with_counts limits rows (some counted) ks =
      add_gone counted rows (add_counted limits rows counted ks)

  unfoldable pub needing : ℕ × ℕ → List Found → Option (List Counted) → List String
  needing limits rows counted = add_keys (add_found is_settling rows []) (
      add_keys (add_found is_drifted rows [])
        (with_counts limits rows counted (add_found is_repairable rows [])))

  -- kbs_needing_a_per_kb_index
  unfoldable pub kbs_needing_a_per_kb_index :
      ℕ × ℕ → List Found → Option (List Counted) → List String
  unfolding needing
  kbs_needing_a_per_kb_index limits rows counted =
      take max_sweep_dispatch (needing limits rows counted)
