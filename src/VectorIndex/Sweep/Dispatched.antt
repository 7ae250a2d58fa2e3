-- ===== src/VectorIndex/Sweep/Dispatched.antt =====
-- Which knowledge bases the sweep of services/pg_vector_index.py has reconciled.
use powabase_ai.Prelude.{ℕ, ◌≤◌, ◌≡◌, ◌≢◌, Bool, true, false, ◌||◌, Option, some, List, String, Has}
use powabase_ai.VectorIndex.Sweep.{Found, Counted, is_repairable, is_drifted, is_settling}

module _ (current : String → ℕ → String) where
  -- a reason to reconcile the knowledge base of an index
  abbrev has_reason : Found → Bool
  has_reason f = is_repairable current f || (is_drifted current f || is_settling current f)

module _ (current : String → ℕ → String) where
  -- The reasons for which a knowledge base needs a reconcile. Its index in the catalog is INVALID, after fewer than 3
  -- failed and 25 interrupted builds; is of another definition, after fewer than 3 rebuilds; or is of
  -- today's definition, after one or two rebuilds that nothing has confirmed. Or its rows have been
  -- counted and there is no index for as many as an index is built at, or an index for as few as it
  -- is dropped at; or it has an index and none of its rows is left. An index
  -- of a dimension at which no row is left, beside rows at another one, is no reason here.
  pub data NeedsPass (limits : ℕ × ℕ) (rows : List Found) (counted : Option (List Counted))
      (kb : String) : Type 0 where
    is_invalid :
        (f : Found)
        → Has f rows
        → f.kb ≡ kb
        → f.index.is_valid ≡ false
        → f.index.comment.build_failures ≤ 2
        → f.index.comment.interrupted_builds ≤ 24
        → NeedsPass limits rows counted kb
    is_outdated :
        (f : Found)
        → Has f rows
        → f.kb ≡ kb
        → f.index.is_valid ≡ true
        → f.index.comment.fingerprint ≢ some (current f.kb f.dims)
        → f.index.comment.definition_rebuilds ≤ 2
        → NeedsPass limits rows counted kb
    is_unconfirmed :
        (f : Found)
        → Has f rows
        → f.kb ≡ kb
        → f.index.is_valid ≡ true
        → f.index.comment.fingerprint ≡ some (current f.kb f.dims)
        → 1 ≤ f.index.comment.definition_rebuilds
        → f.index.comment.definition_rebuilds ≤ 2
        → NeedsPass limits rows counted kb
    is_grown :
        (cs : List Counted) (c : Counted)
        → counted ≡ some cs
        → Has c cs
        → c.kb ≡ kb
        → ((f : Found) → Has f rows → f.kb ≡ c.kb → f.dims ≢ c.dims)
        → limits.0 ≤ c.count
        → NeedsPass limits rows counted kb
    is_shrunken :
        (cs : List Counted) (c : Counted) (f : Found)
        → counted ≡ some cs
        → Has c cs
        → c.kb ≡ kb
        → Has f rows
        → f.kb ≡ c.kb
        → f.dims ≡ c.dims
        → c.count ≤ limits.1
        → NeedsPass limits rows counted kb
    is_emptied :
        (cs : List Counted) (f : Found)
        → counted ≡ some cs
        → Has f rows
        → f.kb ≡ kb
        → ((c : Counted) → Has c cs → c.kb ≢ f.kb)
        → NeedsPass limits rows counted kb
