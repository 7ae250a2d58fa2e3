-- ===== src/Citation/Tests.antt =====
-- The registry at concrete units.
use powabase_ai.Prelude.{◌≡◌, refl, Option, none, some, List, [], ◌∷◌, String, get_elem?, map}
use powabase_ai.Citation.Registry.{
  CitationUnit, CitationRegistry, kind_tool_call, register_many, range, ContextEntry, absent,
  citation_map, seed_registry_from_retrieved_context,
}
use powabase_ai.Citation.Registry.Keys.{
  register_many-names, register_all-contiguous, flatten, register_all, unit_at,
}
use powabase_ai.Citation.Registry.Seed.{
  build_citation_map-seed, build_citation_map, label_of_entry, label_of_unit,
}

abbrev page : String → CitationUnit String
page url = record {
  kind = kind_tool_call;
  tool_name = some "fetch";
  call_id = none;
  title = none;
  url = some url;
  item_id = none;
  source_id = none;
  source_name = "";
  knowledge_base_id = none;
  text_excerpt = [];
  meta = "";
}

abbrev one_unit : CitationRegistry String
one_unit = record { units = page "a" ∷ [] }

register_many-names_example :
    (get_elem? (register_many (page "b" ∷ page "c" ∷ []) one_unit).0 1 ≡ some 3)
    × (unit_at 3
          (register_all
            ((page "d" ∷ []) ∷ [])
            (register_many (page "b" ∷ page "c" ∷ []) one_unit).1).1
        ≡ some (page "c"))
register_many-names_example =
    register_many-names (page "b" ∷ page "c" ∷ []) ((page "d" ∷ []) ∷ []) one_unit 1 (page "c") refl

register_all-contiguous_example :
    (flatten (register_all ((page "b" ∷ page "c" ∷ []) ∷ (page "d" ∷ []) ∷ []) one_unit).0
      ≡ range 2 3)
    × ((register_all ((page "b" ∷ page "c" ∷ []) ∷ (page "d" ∷ []) ∷ []) one_unit).1.units
        ≡ page "a" ∷ page "b" ∷ page "c" ∷ page "d" ∷ [])
unfolding flatten
register_all-contiguous_example =
    register_all-contiguous ((page "b" ∷ page "c" ∷ []) ∷ (page "d" ∷ []) ∷ []) one_unit

abbrev entry : Option String → String → ContextEntry String
entry entry_type id = record {
  entry_type = entry_type;
  id = some id;
  source_id = some "s";
  source_name = absent;
  knowledge_base_id = none;
  text = none;
  meta = absent;
}

abbrev retrieved : List (ContextEntry String)
retrieved =
    entry none "i1" ∷ entry (some "retrieval_diagnostics") "d" ∷ entry (some "chunk") "i2" ∷ []

build_citation_map-seed_example :
    map label_of_entry (build_citation_map "" (λ m. none) retrieved)
    ≡ map label_of_unit (
        citation_map
          (seed_registry_from_retrieved_context ""
            (λ m. none)
            (record { units = [] })
            (some (map some retrieved))).1)
build_citation_map-seed_example =
    build_citation_map-seed "" (λ m. none) retrieved (refl, (refl, (refl, _)))
