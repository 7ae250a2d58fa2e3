-- ===== src/VectorIndex/Tests.antt =====
-- A knowledge base that has grown, with settings that were stored the wrong way round.
use powabase_ai.Prelude.{ℕ, ◌≡◌, refl, none, some, [], ◌∷◌, String}
use powabase_ai.Prelude.Int.{pos}
use powabase_ai.VectorIndex.{
  Comment, build, state_of, thresholds, clamped_setting, dims_action, first_action, dims_in_play,
  index_action, invalid_action, valid_action,
}
use powabase_ai.VectorIndex.Stability.{after, reading, index_action-settles}

inverted : thresholds (pos 5000) (pos 9000) ≡ (5000, 2500)
unfolding thresholds clamped_setting
inverted = refl

abbrev rows : ℕ → ℕ
rows dims = 6000

abbrev current : ℕ → String
current dims = "0123456789ab"

asks_for_a_build : index_action (pos 5000) (pos 9000) 12 current rows (1536 ∷ []) [] ≡ some build
unfolding index_action thresholds clamped_setting dims_action first_action dims_in_play
    invalid_action valid_action
asks_for_a_build = refl

index_action-settles_example :
    (d : ℕ) × (dims_action (reading (pos 5000) (pos 9000) 12 current rows) d (state_of [] d)
      ≡ some build)
    × ((count : ℕ) (c : Comment)
        → dims_action
            (record (reading (pos 5000) (pos 9000) 12 current rows) { index_count = count })
            d
            (after (reading (pos 5000) (pos 9000) 12 current rows) d build c)
          ≡ none)
index_action-settles_example =
    index_action-settles (pos 5000) (pos 9000) 12 current rows (1536 ∷ []) [] build asks_for_a_build
