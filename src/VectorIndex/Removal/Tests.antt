-- ===== src/VectorIndex/Removal/Tests.antt =====
-- A deleted knowledge base with indexes of two dimensions.
use powabase_ai.Prelude.{ℕ, ◌≡◌, refl, true, false, none, some, [], ◌∷◌, ◌⊎◌}
use powabase_ai.VectorIndex.{Index, States, dims_in_play}
use powabase_ai.VectorIndex.Catalog.{Catalog, Ending, done, refused, no_comment}
use powabase_ai.VectorIndex.Reconcile.{Met, held, is_in}
use powabase_ai.VectorIndex.Removal.{drop_each, drop_per_kb_vector_indexes}
use powabase_ai.VectorIndex.Removal.Gone.{drop_per_kb_vector_indexes-accounted}

abbrev met : Ending → ℕ → Met
met ending d = record {
  lock_is_free = true;
  build_in_progress = false;
  index_count = 2;
  before_drop = held;
  before_build = held;
  drop_ends = ending;
  create_ends = done;
  count_lands = true;
  comment_lands = true;
}

abbrev valid : Index
valid = record { is_valid = true; comment = no_comment }

abbrev existing : States
existing = (1536, valid) ∷ (768, valid) ∷ []

abbrev found : Catalog
found = record { index = λ d. some valid; issued = [] }

drop_per_kb_vector_indexes-accounted_example :
    ((drop_per_kb_vector_indexes (met (refused false)) existing found).1.index 768 ≡ none)
    ⊎ (is_in 768 (768 ∷ 1536 ∷ []) ≡ true)
unfolding drop_per_kb_vector_indexes drop_each dims_in_play
drop_per_kb_vector_indexes-accounted_example =
    drop_per_kb_vector_indexes-accounted (met (refused false)) existing found (768 ∷ 1536 ∷ []) 768
      refl refl
