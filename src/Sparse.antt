-- ===== src/Sparse.antt =====
-- services/sparse_retrieval/bm25_index.py: `BM25IndexManager`, which keeps the documents, their ids
-- and the index that bm25s makes of the documents.
pub mod Items
mod Tests
use powabase_ai.Prelude.{
  ℕ, ◌≡◌, Bool, true, false, not, Option, none, some, List, [], ◌∷◌, ◌++◌, map, String, ◌==◌,
  if◌then◌else◌, length, keep, elem,
}

-- `index` stands for bm25s: the index of the tokens of the documents.
module _ (Bm25 : Type 0) (index : List String → Bm25) where
  pub record Manager : Type 0 where
    pub bm25 : Option Bm25
    pub item_ids : List String
    pub corpus : List String

  abbrev pub empty_manager : Manager
  empty_manager = record { bm25 = none; item_ids = []; corpus = [] }

  abbrev pub built : List String → List String → Manager
  built [] ids = empty_manager
  built (d ∷ documents) ids = record {
    bm25 = some (index (d ∷ documents));
    item_ids = ids;
    corpus = d ∷ documents;
  }

  -- build_index; the Boolean is false where it raises ValueError
  unfoldable pub build_index : List String → List String → Manager → Bool × Manager
  build_index documents ids m =
      if length documents == length ids then (true, built documents ids) else (false, m)

  -- add_documents: the lists are extended in place, and the index is then built of them
  unfoldable pub add_documents : List String → List String → Manager → Bool × Manager
  unfolding build_index
  add_documents [] ids m = (true, m)
  add_documents (d ∷ documents) ids m =
      let extended = record m {
        item_ids = m.item_ids ++ ids;
        corpus = m.corpus ++ d ∷ documents;
      } in
      if length (d ∷ documents) == length ids
      then build_index extended.corpus extended.item_ids extended
      else (false, m)

  abbrev pub zip : List String → List String → List (String × String)
  zip (d ∷ documents) (i ∷ ids) = (d, i) ∷ zip documents ids
  zip _ _ = []

  unfoldable pub rebuilt : List (String × String) → Manager → Manager
  unfolding build_index
  rebuilt [] m = empty_manager
  rebuilt (x ∷ filtered) m =
      (build_index (map (λ p. p.0) (x ∷ filtered)) (map (λ p. p.1) (x ∷ filtered)) m).1

  -- remove_documents
  unfoldable pub remove_documents : List String → Manager → Manager
  unfolding rebuilt
  remove_documents [] m = m
  remove_documents (r ∷ removed) m =
      rebuilt (keep (λ p. not (elem p.1 (r ∷ removed))) (zip m.corpus m.item_ids)) m

  pub data Call : Type 0 where
    building adding : List String → List String → Call
    removing : List String → Call

  unfoldable pub perform : Call → Manager → Manager
  unfolding add_documents remove_documents
  perform (building documents ids) m = (build_index documents ids m).1
  perform (adding documents ids) m = (add_documents documents ids m).1
  perform (removing ids) m = remove_documents ids m
