-- ===== src/Citation/Registry.antt =====
-- services/citation_registry.py: the registry of citable units, and its seeding from the context
-- that was retrieved before the run. Texts are lists of code points where they are cut.
pub mod Keys
pub mod Seed
use powabase_ai.Prelude.{
  ℕ, suc, ◌+◌, Bool, true, false, ◌||◌, Option, none, some, List, [], ◌∷◌, ◌++◌, String, length,
  take, ◌=s◌, if◌then◌else◌, keep, not, map,
}

-- KIND_KB_CHUNK, KIND_TOOL_ITEM, KIND_TOOL_CALL
abbrev pub kind_kb_chunk : String
kind_kb_chunk = "kb_chunk"

abbrev pub kind_tool_item : String
kind_tool_item = "tool_item"

abbrev pub kind_tool_call : String
kind_tool_call = "tool_call"

-- `Meta` is the JSON object in a unit's or an entry's `meta`, which these functions pass on.
module _ (Meta : Type 0) where
  pub record CitationUnit : Type 0 where
    pub kind : String
    pub tool_name : Option String
    pub call_id : Option String
    pub title : Option String
    pub url : Option String
    pub item_id : Option String
    pub source_id : Option String
    pub source_name : String
    pub knowledge_base_id : Option String
    pub text_excerpt : List ℕ
    pub meta : Meta

  -- CitationUnit.__post_init__: whether the constructor accepts the unit
  unfoldable pub post_init : CitationUnit → Bool
  post_init unit =
      (unit.kind =s kind_kb_chunk)
      || ((unit.kind =s kind_tool_item) || (unit.kind =s kind_tool_call))

  pub record CitationRegistry : Type 0 where
    pub units : List CitationUnit

  -- The event that `on_register` is called with.
  pub record Registered : Type 0 where
    pub key : ℕ
    pub kind : String
    pub tool_name : Option String
    pub title : Option String
    pub url : Option String

-- list(range(first, first + n))
unfoldable pub range : ℕ → ℕ → List ℕ
range first ℕ.zero = []
range first (suc n) = first ∷ range (suc first) n

-- TEXT_EXCERPT_MAX_LEN
abbrev pub text_excerpt_max_len : ℕ
text_excerpt_max_len = 300

-- enumerate(units, start)
unfoldable pub enumerate : {A : Type 0} → ℕ → List A → List (ℕ × A)
enumerate start [] = []
enumerate start (x ∷ xs) = (start, x) ∷ enumerate (suc start) xs

module _ {Meta : Type 0} where
  -- CitationRegistry.register_many; the callback's events are `events_of` of the batch and its keys
  unfoldable pub register_many :
      List (CitationUnit Meta) → CitationRegistry Meta → List ℕ × CitationRegistry Meta
  unfolding range
  register_many batch r =
      let first = length r.units + 1 in
      (range first (length batch), record { units = r.units ++ batch })

  -- the calls of `_on_register`: zip(keys, batch)
  unfoldable pub events_of : List ℕ → List (CitationUnit Meta) → List (Registered Meta)
  events_of (key ∷ keys) (unit ∷ batch) =
      record {
        key = key;
        kind = unit.kind;
        tool_name = unit.tool_name;
        title = unit.title;
        url = unit.url;
      }
      ∷ events_of keys batch
  events_of _ _ = []

  -- CitationRegistry.register
  unfoldable pub register : CitationUnit Meta → CitationRegistry Meta → ℕ × CitationRegistry Meta
  unfolding register_many
  register unit r =
      let (keys, r') = register_many (unit ∷ []) r in (elim keys [ [] ↦ 0 | key ∷ _ ↦ key ], r')

  -- CitationRegistry.citation_map, each unit under its number
  unfoldable pub citation_map : CitationRegistry Meta → List (ℕ × CitationUnit Meta)
  unfolding enumerate
  citation_map r = enumerate 1 r.units

-- A value of a dict, where the code tells a key that is missing from one that is null.
pub data Field (A : Type 0) : Type 0 where
  absent null : Field A
  given : A → Field A

-- `entry.get(key)`
abbrev pub get : {A : Type 0} → Field A → Option A
get absent = none
get null = none
get (given a) = some a

-- `entry.get(key, default)`
abbrev pub get_or : {A : Type 0} → Field A → A → Option A
get_or absent d = some d
get_or null d = none
get_or (given a) d = some a

-- One retrieved_context entry, by the keys that the registry reads; of the other keys, one that is
-- missing or null is none.
pub record ContextEntry (Meta : Type 0) : Type 0 where
  pub entry_type : Option String  -- "_type"
  pub id : Option String
  pub source_id : Option String
  pub source_name : Field String
  pub knowledge_base_id : Option String
  pub text : Option (List ℕ)
  pub meta : Field Meta

-- `a or b` on texts, where the empty text counts as missing
abbrev pub or_text : Option String → String → String
or_text none b = b
or_text (some a) b = if a =s "" then b else a

-- `a or None`
abbrev pub or_none : String → Option String
or_none a = if a =s "" then none else some a

abbrev pub excerpt : Option (List ℕ) → List ℕ
excerpt none = []
excerpt (some text) = take text_excerpt_max_len text

abbrev pub or_else {ℓ} : {A : Type ℓ} → Option A → A → A
or_else none d = d
or_else (some a) d = a

abbrev pub is_diagnostics : {Meta : Type 0} → ContextEntry Meta → Bool
is_diagnostics entry = elim entry.entry_type [
  | none ↦ false
  | some t ↦ t =s "retrieval_diagnostics"
]

-- `no_meta` is `{}`, and `source_name_of` is `meta.get("source_name")`.
module _ {Meta : Type 0} (no_meta : Meta) (source_name_of : Meta → Option String) where
  unfoldable pub kb_chunk_unit_from_context : ContextEntry Meta → CitationUnit Meta
  kb_chunk_unit_from_context entry =
      let meta = or_else (get entry.meta) no_meta in
      let source_name = or_text (get entry.source_name) (or_text (source_name_of meta) "") in
      record {
        kind = kind_kb_chunk;
        tool_name = none;
        call_id = none;
        title = or_none source_name;
        url = none;
        item_id = entry.id;
        source_id = entry.source_id;
        source_name = source_name;
        knowledge_base_id = entry.knowledge_base_id;
        text_excerpt = excerpt entry.text;
        meta = meta;
      }

  -- the entries that are dictionaries and no diagnostics; `none` is an entry of another type
  unfoldable pub citable : List (Option (ContextEntry Meta)) → List (ContextEntry Meta)
  citable [] = []
  citable (none ∷ rest) = citable rest
  citable (some entry ∷ rest) =
      let more = citable rest in if is_diagnostics entry then more else entry ∷ more

  unfoldable pub seed_registry_from_retrieved_context :
      CitationRegistry Meta
      → Option (List (Option (ContextEntry Meta)))
      → List ℕ × CitationRegistry Meta
  unfolding citable
  seed_registry_from_retrieved_context registry retrieved =
      register_many (map kb_chunk_unit_from_context (citable (or_else retrieved []))) registry
