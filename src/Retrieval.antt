-- ===== src/Retrieval.antt =====
-- services/context_handler.py: the row limits that a search is asked for.
pub mod Limits
mod Tests
use powabase_ai.Prelude.{
  ℕ, ◌/◌, ◌≡◌, Bool, true, false, not, ◌&&◌, Option, none, some, String, if◌then◌else◌,
}
use powabase_ai.Prelude.Int.{ℤ, pos, negsuc, ◌≤?ℤ◌}

abbrev pub max_top_k : ℕ
max_top_k = 10000

abbrev pub safe_retrieval_top_k : ℕ
safe_retrieval_top_k = max_top_k / 2

-- A stored or requested JSON value, by what the code asks of it: whether it counts as true, what
-- `int()` makes of it (none if that raises), and whether it equals that integer.
pub record Value : Type 0 where
  pub truthy : Bool
  pub as_int : Option ℤ
  pub is_that_int : Bool

-- the bounds of _bounded_row_count for an integer
abbrev pub clamped : ℤ → Option ℤ → Option ℤ
clamped count fallback =
    if not (pos 1 ≤?ℤ count)
    then fallback
    else if count ≤?ℤ pos safe_retrieval_top_k
    then some count
    else some (pos safe_retrieval_top_k)

-- _bounded_row_count
unfoldable pub bounded_row_count : Option ℤ → Option ℤ → Option ℤ
bounded_row_count none fallback = fallback
bounded_row_count (some count) fallback = clamped count fallback

-- the stored top_k, or the default where the key is missing
abbrev pub stored_or : ℤ → Option Value → Option ℤ
stored_or default none = some default
stored_or default (some v) = v.as_int

-- `kb_config.get("top_k") or ...`, what int() makes of it
abbrev pub requested_or : ℤ → Option Value → Option Value → Option ℤ
requested_or default none stored = stored_or default stored
requested_or default (some v) stored = if v.truthy then v.as_int else stored_or default stored

-- _resolve_top_k: the requested and the stored top_k, none where the key is missing
unfoldable pub resolve_top_k : ℤ → Option Value → Option Value → Option ℤ
unfolding bounded_row_count
resolve_top_k default requested stored =
    bounded_row_count (requested_or default requested stored) (some default)

-- What _bounded_retrieval_config returns, by its reranker's candidate_count: None, or a
-- configuration with the count replaced or, where it is none, left out.
pub data Correction : Type 0 where
  nothing : Correction
  corrected : Option ℤ → Correction

abbrev pub same_int : Option ℤ → ℤ → Bool
same_int none n = false
same_int (some m) n = (m ≤?ℤ n) && (n ≤?ℤ m)

-- `bounded == reranker["candidate_count"]`
abbrev pub unchanged : Value → Option ℤ → Bool
unchanged v none = false
unchanged v (some n) = v.is_that_int && same_int v.as_int n

-- _bounded_retrieval_config: the stored candidate_count, none where the configuration, the reranker
-- or the count is missing or null
unfoldable pub bounded_retrieval_config : Option Value → Correction
unfolding bounded_row_count
bounded_retrieval_config none = nothing
bounded_retrieval_config (some v) =
    let bounded = bounded_row_count v.as_int none in
    if unchanged v bounded then nothing else corrected bounded
