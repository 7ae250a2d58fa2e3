-- ===== src/Retrieval/Tests.antt =====
-- Configurations that ask for too much, and for nothing.
use powabase_ai.Prelude.{◌≡◌, refl, true, false, some}
use powabase_ai.Prelude.Int.{pos}
use powabase_ai.Retrieval.{Value, corrected, bounded_row_count, bounded_retrieval_config}

abbrev zero_value : Value
zero_value = record { truthy = false; as_int = some (pos 0); is_that_int = true }

abbrev million : Value
million = record { truthy = true; as_int = some (pos 1000000); is_that_int = true }

too_many : bounded_retrieval_config (some million) ≡ corrected (some (pos 5000))
unfolding bounded_retrieval_config bounded_row_count
too_many = refl
