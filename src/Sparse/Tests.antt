-- ===== src/Sparse/Tests.antt =====
-- A manager of three documents, with the list of the documents for the index.
use powabase_ai.Prelude.{◌≡◌, refl, not, some, List, [], ◌∷◌, String, keep, elem}
use powabase_ai.Sparse.{Manager, build_index, remove_documents, rebuilt}
use powabase_ai.Sparse.Items.{items, items-remove_documents}

abbrev itself : List String → List String
itself documents = documents

abbrev three : Manager (List String) itself
three = record {
  bm25 = some ("x" ∷ "y" ∷ "z" ∷ []);
  item_ids = "a" ∷ "b" ∷ "c" ∷ [];
  corpus = "x" ∷ "y" ∷ "z" ∷ [];
}

without_b :
    remove_documents (List String) itself ("b" ∷ []) three
    ≡ record { bm25 = some ("x" ∷ "z" ∷ []); item_ids = "a" ∷ "c" ∷ []; corpus = "x" ∷ "z" ∷ [] }
unfolding remove_documents rebuilt build_index
without_b = refl

items-remove_documents_example :
    items (List String) itself (remove_documents (List String) itself ("b" ∷ []) three)
    ≡ keep (λ p. not (elem p.1 ("b" ∷ []))) (items (List String) itself three)
items-remove_documents_example = items-remove_documents (List String) itself ("b" ∷ []) three
