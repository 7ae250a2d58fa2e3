-- ===== src/VectorIndex/Sweep/Tests.antt =====
-- A knowledge base whose index is right, after one rebuild that nothing has confirmed.
use powabase_ai.Prelude.{ℕ, true, some, [], ◌∷◌, String, List}
use powabase_ai.VectorIndex.Catalog.{no_comment}
use powabase_ai.VectorIndex.Sweep.{Found}

abbrev current : String → ℕ → String
current kb dims = "0123456789ab"

abbrev rebuilt_once : Found
rebuilt_once = record {
  kb = "kb";
  dims = 1536;
  index = record {
    is_valid = true;
    comment = record no_comment { definition_rebuilds = 1; fingerprint = some "0123456789ab" };
  };
}

abbrev rows : List Found
rows = rebuilt_once ∷ []
