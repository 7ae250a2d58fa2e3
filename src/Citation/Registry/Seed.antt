-- ===== src/Citation/Registry/Seed.antt =====
-- `build_citation_map` of services/citations.py labels the retrieved context before a run, and
-- `seed_registry_from_retrieved_context` registers it: the labels are the registry's keys.
use powabase_ai.Prelude.{
  ℕ, suc, ◌≡◌, refl, Bool, true, false, ◌||◌, AllTrue, Option, some, List, [], ◌∷◌, String, arith,
  if◌then◌else◌, map,
}
use powabase_ai.Citation.Registry.{
  CitationUnit, ContextEntry, absent, null, given, get_or, register_many, enumerate, citation_map,
  excerpt, is_diagnostics, citable, kb_chunk_unit_from_context,
  seed_registry_from_retrieved_context,
}

-- One value of the map; its metadata and its name are none where the item has a null.
pub record CitationEntry (Meta : Type 0) : Type 0 where
  pub key : ℕ
  pub item_id : Option String
  pub source_id : Option String
  pub source_name : Option String
  pub text_excerpt : List ℕ
  pub meta : Option Meta

-- What both maps say of a unit.
pub record Label (Meta : Type 0) : Type 0 where
  pub key : ℕ
  pub item_id : Option String
  pub source_id : Option String
  pub text_excerpt : List ℕ
  pub meta : Option Meta

abbrev pub label_of_entry : {Meta : Type 0} → ℕ × CitationEntry Meta → Label Meta
label_of_entry (key, e) = record {
  key = key;
  item_id = e.item_id;
  source_id = e.source_id;
  text_excerpt = e.text_excerpt;
  meta = e.meta;
}

abbrev pub label_of_unit : {Meta : Type 0} → ℕ × CitationUnit Meta → Label Meta
label_of_unit (key, u) = record {
  key = key;
  item_id = u.item_id;
  source_id = u.source_id;
  text_excerpt = u.text_excerpt;
  meta = some u.meta;
}

module _ {Meta : Type 0} (no_meta : Meta) (source_name_of : Meta → Option String) where
  -- the loop of `build_citation_map`, with the last key given
  unfoldable pub build_from : ℕ → List (ContextEntry Meta) → List (ℕ × CitationEntry Meta)
  build_from seq [] = []
  build_from seq (item ∷ rest) =
      let skipped = build_from seq rest in
      let after = build_from (suc seq) rest in
      if is_diagnostics item
      then skipped
      else (
        suc seq,
        record {
          key = suc seq;
          item_id = item.id;
          source_id = item.source_id;
          source_name = get_or item.source_name "";
          text_excerpt = excerpt item.text;
          meta = get_or item.meta no_meta;
        },
      )
        ∷ after

  unfoldable pub build_citation_map : List (ContextEntry Meta) → List (ℕ × CitationEntry Meta)
  unfolding build_from
  build_citation_map items = build_from 0 items

  -- an entry that is labelled has no null for its metadata
  abbrev pub has_no_null_meta : ContextEntry Meta → Bool
  has_no_null_meta item =
      is_diagnostics item || elim item.meta [ absent ↦ true | null ↦ false | given m ↦ true ]

  build_from-enumerate :
      (seq : ℕ) (items : List (ContextEntry Meta))
      → AllTrue has_no_null_meta items
      → map label_of_entry (build_from seq items)
        ≡ map label_of_unit (
            enumerate (suc seq) (
              map
                (kb_chunk_unit_from_context no_meta source_name_of)
                (citable no_meta source_name_of (map some items))))
  unfolding build_from enumerate citable kb_chunk_unit_from_context
  build_from-enumerate seq [] h = refl
  build_from-enumerate seq (item ∷ rest) h =
      ground
        (arith, h.0, build_from-enumerate seq rest h.1, build_from-enumerate (suc seq) rest h.1)

  -- A fresh registry seeded with the retrieved context lists the same keys, in the same order, as
  -- `build_citation_map` of it, each for the same item, source, excerpt and metadata. No entry has
  -- a null for its metadata.
  pub build_citation_map-seed :
      (items : List (ContextEntry Meta))
      → AllTrue has_no_null_meta items
      → map label_of_entry (build_citation_map items)
        ≡ map label_of_unit (
            citation_map
              (seed_registry_from_retrieved_context no_meta source_name_of
                (record { units = [] })
                (some (map some items))).1)
  unfolding build_citation_map seed_registry_from_retrieved_context citation_map register_many
  build_citation_map-seed items h = build_from-enumerate 0 items h
