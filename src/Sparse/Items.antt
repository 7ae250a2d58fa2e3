-- ===== src/Sparse/Items.antt =====
-- The documents, the ids and the index stay together.
use powabase_ai.Prelude.{
  suc, ◌+◌, ◌≡◌, refl, ap, ap₂, sym, ◌∙◌, subst, Bool, true, not, Option, none, some, List, [], ◌∷◌,
  ◌++◌, map, String, arith, ◌==◌, length, length-append, keep, elem, Bool-cases, inl, inr,
}
use powabase_ai.Sparse.{
  Manager, empty_manager, built, build_index, add_documents, zip, rebuilt, remove_documents, Call,
  building, adding, removing, perform,
}

module _ (Bm25 : Type 0) (index : List String → Bm25) where
  abbrev pub index_of : List String → Option Bm25
  index_of [] = none
  index_of (d ∷ documents) = some (index (d ∷ documents))

  -- A manager as every call leaves it: one id for each document, and the index of the documents.
  pub record IsCoherent (m : Manager Bm25 index) : Type 0 where
    pub paired : length m.corpus ≡ length m.item_ids
    pub indexed : m.bm25 ≡ index_of m.corpus

  empty-IsCoherent : IsCoherent (empty_manager Bm25 index)
  empty-IsCoherent = record { paired = refl; indexed = refl }

  built-IsCoherent :
      (documents ids : List String)
      → length documents ≡ length ids
      → IsCoherent (built Bm25 index documents ids)
  built-IsCoherent [] ids e = empty-IsCoherent
  built-IsCoherent (d ∷ documents) ids e = record { paired = e; indexed = refl }

  build_index-IsCoherent :
      (documents ids : List String) (m : Manager Bm25 index)
      → IsCoherent m
      → IsCoherent (build_index Bm25 index documents ids m).1
  unfolding build_index
  build_index-IsCoherent documents ids m h = elim (Bool-cases (length documents == length ids)) [
    | inl same ↦ rw (same) (built-IsCoherent documents ids (ground (arith, same)))
    | inr other ↦ rw (other) h
  ]

  build_index-built :
      (documents ids : List String) (m : Manager Bm25 index)
      → length documents ≡ length ids
      → build_index Bm25 index documents ids m ≡ (true, built Bm25 index documents ids)
  unfolding build_index
  build_index-built documents ids m e = ground (arith, e)

  build_index-IsCoherent_equal :
      (documents ids : List String) (m : Manager Bm25 index)
      → length documents ≡ length ids
      → IsCoherent (build_index Bm25 index documents ids m).1
  build_index-IsCoherent_equal documents ids m e =
      subst (λ (x : Bool × Manager Bm25 index). IsCoherent x.1)
        (sym (build_index-built documents ids m e)) (built-IsCoherent documents ids e)

  add_documents-IsCoherent :
      (documents ids : List String) (m : Manager Bm25 index)
      → IsCoherent m
      → IsCoherent (add_documents Bm25 index documents ids m).1
  unfolding add_documents
  add_documents-IsCoherent [] ids m h = h
  add_documents-IsCoherent (d ∷ documents) ids m h =
      elim (Bool-cases (length (d ∷ documents) == length ids)) [
        | inl same ↦ rw (same) (
            build_index-IsCoherent_equal (m.corpus ++ d ∷ documents) (m.item_ids ++ ids) _ (
              length-append m.corpus (d ∷ documents)
              ∙ ap₂ (λ a b. a + b) h.paired (ground (arith, same))
              ∙ sym (length-append m.item_ids ids)))
        | inr other ↦ rw (other) h
      ]

  length-map : {A B : Type 0} (f : A → B) (xs : List A) → length (map f xs) ≡ length xs
  length-map f [] = refl
  length-map f (x ∷ xs) = ap (λ n. suc n) (length-map f xs)

  unzipped_lengths :
      (xs : List (String × String)) → length (map (λ p. p.0) xs) ≡ length (map (λ p. p.1) xs)
  unzipped_lengths [] = refl
  unzipped_lengths (x ∷ xs) = ap (λ n. suc n) (unzipped_lengths xs)

  rebuilt-built :
      (filtered : List (String × String)) (m : Manager Bm25 index)
      → rebuilt Bm25 index filtered m
        ≡ built Bm25 index (map (λ p. p.0) filtered) (map (λ p. p.1) filtered)
  unfolding rebuilt
  rebuilt-built [] m = refl
  rebuilt-built (x ∷ filtered) m =
      ap (λ (y : Bool × Manager Bm25 index). y.1)
        (build_index-built (map (λ p. p.0) (x ∷ filtered)) (map (λ p. p.1) (x ∷ filtered)) m
          (unzipped_lengths (x ∷ filtered)))

  remove_documents-IsCoherent :
      (removed : List String) (m : Manager Bm25 index)
      → IsCoherent m
      → IsCoherent (remove_documents Bm25 index removed m)
  unfolding remove_documents
  remove_documents-IsCoherent [] m h = h
  remove_documents-IsCoherent (r ∷ removed) m h =
      let rest = keep (λ p. not (elem p.1 (r ∷ removed))) (zip Bm25 index m.corpus m.item_ids) in
      subst IsCoherent (sym (rebuilt-built rest m))
        (built-IsCoherent (map (λ p. p.0) rest) (map (λ p. p.1) rest) (unzipped_lengths rest))

  -- Every call, one that raises included, leaves the manager with one id for each document and with
  -- the index of exactly its documents, or without an index if it has none.
  perform-IsCoherent :
      (c : Call Bm25 index) (m : Manager Bm25 index)
      → IsCoherent m
      → IsCoherent (perform Bm25 index c m)
  unfolding perform
  perform-IsCoherent (building documents ids) m h = build_index-IsCoherent documents ids m h
  perform-IsCoherent (adding documents ids) m h = add_documents-IsCoherent documents ids m h
  perform-IsCoherent (removing ids) m h = remove_documents-IsCoherent ids m h

  -- The documents of a manager, each with its id.
  abbrev pub items : Manager Bm25 index → List (String × String)
  items m = zip Bm25 index m.corpus m.item_ids

  zip_unzipped :
      (xs : List (String × String)) → zip Bm25 index (map (λ p. p.0) xs) (map (λ p. p.1) xs) ≡ xs
  zip_unzipped [] = refl
  zip_unzipped (x ∷ xs) = ap (λ l. x ∷ l) (zip_unzipped xs)

  items-built :
      (xs : List (String × String))
      → items (built Bm25 index (map (λ p. p.0) xs) (map (λ p. p.1) xs)) ≡ xs
  items-built [] = refl
  items-built (x ∷ xs) = ap (λ l. x ∷ l) (zip_unzipped xs)

  keep_all : {A : Type 0} (xs : List A) → keep (λ p. true) xs ≡ xs
  keep_all [] = refl
  keep_all (x ∷ xs) = ap (λ l. x ∷ l) (keep_all xs)

  -- After a removal the manager has, in their order, exactly the documents whose ids were not named,
  -- each with its own id.
  pub items-remove_documents :
      (removed : List String) (m : Manager Bm25 index)
      → items (remove_documents Bm25 index removed m) ≡ keep (λ p. not (elem p.1 removed)) (items m)
  unfolding remove_documents
  items-remove_documents [] m = sym (keep_all (items m))
  items-remove_documents (r ∷ removed) m =
      let rest = keep (λ p. not (elem p.1 (r ∷ removed))) (items m) in
      ap items (rebuilt-built rest m) ∙ items-built rest
