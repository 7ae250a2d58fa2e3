-- ===== src/Settings.antt =====
-- services/settings_registry.py and the writes of routes/settings.py: settings of a project with
-- their overrides. The texts of Python's numbers, and its floats, are given.
pub mod Stored
mod Secrets
mod Tests
use powabase_ai.Prelude.{
  Bool, true, false, not, ◌&&◌, ◌||◌, Option, none, some, List, [], ◌∷◌, ◌++◌, map, String, ◌=s◌,
  elem, if◌then◌else◌,
}
use powabase_ai.Prelude.Int.{ℤ, pos, ◌≤?ℤ◌}

-- What the code uses of Python: int() and float() of a text, where they raise none, `x < y` between
-- a float and a whole number, and the lower-case text.
pub record Python : Type 1 where
  pub Float : Type 0
  pub read_int : String → Option ℤ
  pub read_float : String → Option Float
  pub is_below : Float → ℤ → Bool
  pub is_above : Float → ℤ → Bool
  pub lower : String → String
  -- bool() of a float
  pub is_nonzero : Float → Bool

pub data SettingType : Type 0 where
  int_setting float_setting bool_setting str_setting : SettingType

module _ (python : Python) where
  pub data Value : Type 0 where
    int : ℤ → Value
    float : python.Float → Value
    bool : Bool → Value
    str : String → Value

  -- the fields of SettingDef that are read here; the bounds in the registry are whole numbers
  pub record SettingDef : Type 0 where
    pub type : SettingType
    pub default : Value
    pub category : String
    pub is_secret : Bool
    pub lowest : Option ℤ
    pub highest : Option ℤ
    pub choices : List String

  abbrev pub as_value : {A : Type 0} → (A → Value) → Option A → Option Value
  as_value f none = none
  as_value f (some a) = some (f a)

  -- _coerce
  unfoldable pub coerce : String → SettingType → Option Value
  coerce text int_setting = as_value int (python.read_int text)
  coerce text float_setting = as_value float (python.read_float text)
  coerce text bool_setting = some (bool (elem (python.lower text) ("true" ∷ "1" ∷ "yes" ∷ [])))
  coerce text str_setting = some (str text)

  abbrev pub or_default : Option Value → Value → Value
  or_default none v = v
  or_default (some u) v = u

  -- _resolve, of the stored override
  unfoldable pub resolve : SettingDef → Option String → Value
  unfolding coerce
  resolve defn none = defn.default
  resolve defn (some raw) = or_default (coerce raw defn.type) defn.default

  pub data Problem : Type 0 where
    unknown invalid too_low too_high not_a_choice : Problem

  -- `coerced < defn.min`
  abbrev pub is_too_low : Option ℤ → Value → Bool
  is_too_low none v = false
  is_too_low (some bound) (int n) = not (bound ≤?ℤ n)
  is_too_low (some bound) (float x) = python.is_below x bound
  is_too_low (some bound) _ = false

  -- `coerced > defn.max`
  abbrev pub is_too_high : Option ℤ → Value → Bool
  is_too_high none v = false
  is_too_high (some bound) (int n) = not (n ≤?ℤ bound)
  is_too_high (some bound) (float x) = python.is_above x bound
  is_too_high (some bound) _ = false

  abbrev pub is_empty : List String → Bool
  is_empty [] = true
  is_empty (c ∷ cs) = false

  abbrev pub validate_coerced : SettingDef → String → Value → Option Problem
  validate_coerced defn text v =
      if is_too_low defn.lowest v
      then some too_low
      else if is_too_high defn.highest v
      then some too_high
      else if not (is_empty defn.choices) && not (elem text defn.choices)
      then some not_a_choice
      else none

  abbrev pub validate_known : SettingDef → String → Option Problem
  unfolding coerce
  validate_known defn text = elim (coerce text defn.type) [
    | none ↦ some invalid
    | some v ↦ validate_coerced defn text v
  ]

  -- SETTINGS_REGISTRY
  abbrev pub Registry : Type 0
  Registry = String → Option SettingDef

  -- validate_setting, of `str(value)`
  unfoldable pub validate_setting : Registry → String → String → Option Problem
  unfolding validate_known
  validate_setting registry key text = elim (registry key) [
    | none ↦ some unknown
    | some defn ↦ validate_known defn text
  ]

  -- ai.project_settings: the values that are not NULL
  abbrev pub Table : Type 0
  Table = String → Option String

  abbrev pub upsert : String → String → Table → Table
  upsert key text table k = if key =s k then some text else table k

  abbrev pub delete : String → Table → Table
  delete key table k = if key =s k then none else table k

  -- what _load_overrides returns: _UnreadableOverrides is empty
  pub data Overrides : Type 0 where
    overrides : (table : Table) → Overrides
    unreadable : Overrides

  -- The table, the cache of the request, and whether the table can be read.
  pub record World : Type 0 where
    pub table : Table
    pub cache : Option Overrides
    pub is_readable : Bool

  -- _load_overrides in an app context
  unfoldable pub load_overrides : World → Overrides × World
  load_overrides w = elim w.cache [
    | some known ↦ (known, w)
    | none ↦
        let found = if w.is_readable then overrides w.table else unreadable in
        (found, record w { cache = some found })
  ]

  abbrev pub override_in : Overrides → String → Option String
  override_in (overrides table) key = table key
  override_in unreadable key = none

  -- get_setting; none is KeyError
  unfoldable pub get_setting : Registry → String → World → Option Value × World
  unfolding resolve load_overrides
  get_setting registry key w = elim (registry key) [
    | none ↦ (none, w)
    | some defn ↦
        let (found, w') = load_overrides w in (some (resolve defn (override_in found key)), w')
  ]

  pub data Strict : Type 0 where
    key_error settings_unreadable : Strict
    value : (v : Value) → Strict

  abbrev pub strict_of : SettingDef → String → Overrides → Strict
  unfolding resolve
  strict_of defn key unreadable = settings_unreadable
  strict_of defn key (overrides table) = value (resolve defn (table key))

  -- get_setting_strict
  unfoldable pub get_setting_strict : Registry → String → World → Strict × World
  unfolding strict_of load_overrides
  get_setting_strict registry key w = elim (registry key) [
    | none ↦ (key_error, w)
    | some defn ↦ let (found, w') = load_overrides w in (strict_of defn key found, w')
  ]

  -- SECRET_MASK
  abbrev pub secret_mask : String
  secret_mask = "••••••••"

  abbrev pub is_masked : Registry → String → String → Bool
  is_masked registry key text = elim (registry key) [
    | none ↦ false
    | some defn ↦ defn.is_secret && text =s secret_mask
  ]

  abbrev pub Updates : Type 0
  Updates = List (String × String)

  abbrev pub add_if : Option Problem → String → List (String × Problem) → List (String × Problem)
  add_if none key errors = errors
  add_if (some problem) key errors = (key, problem) ∷ errors

  -- `errors`, of the loop of update_settings
  unfoldable pub errors_of : Registry → Updates → List (String × Problem)
  unfolding validate_setting
  errors_of registry [] = []
  errors_of registry ((key, text) ∷ updates) =
      let rest = errors_of registry updates in
      if is_masked registry key text
      then rest
      else add_if (validate_setting registry key text) key rest

  -- `valid`, where there is no error
  unfoldable pub valid_of : Registry → Updates → Updates
  valid_of registry [] = []
  valid_of registry ((key, text) ∷ updates) =
      let rest = valid_of registry updates in
      if is_masked registry key text then rest else (key, text) ∷ rest

  abbrev pub upsert_all : Updates → Table → Table
  upsert_all [] table = table
  upsert_all ((key, text) ∷ updates) table = upsert_all updates (upsert key text table)

  pub data Updated : Type 0 where
    no_settings : Updated
    validation_failed : (errors : List (String × Problem)) → Updated
    updated : (keys : List String) → Updated

  -- update_settings, of the keys and `str(value)`
  unfoldable pub update_settings : Registry → Updates → World → Updated × World
  unfolding errors_of valid_of
  update_settings registry [] w = (no_settings, w)
  update_settings registry (u ∷ us) w = elim (errors_of registry (u ∷ us)) [
    | e ∷ es ↦ (validation_failed (e ∷ es), w)
    | [] ↦
        let valid = valid_of registry (u ∷ us) in
        (
          updated (map (λ v. v.0) valid),
          record w { table = upsert_all valid w.table; cache = none },
        )
  ]

  -- reset_setting; false is the answer that the key is unknown
  unfoldable pub reset_setting : Registry → String → World → Bool × World
  reset_setting registry key w = elim (registry key) [
    | none ↦ (false, w)
    | some defn ↦ (true, record w { table = delete key w.table; cache = none })
  ]

  -- the keys of a category, as reset_category selects them
  abbrev pub keys_of_category : String → List (String × SettingDef) → List String
  keys_of_category category [] = []
  keys_of_category category ((key, defn) ∷ items) =
      let rest = keys_of_category category items in
      if defn.category =s category then key ∷ rest else rest

  abbrev pub delete_all : List String → Table → Table
  delete_all keys table k = if elem k keys then none else table k

  -- reset_category, of the items of the registry and the names of the categories; none is the
  -- answer that the category is unknown
  unfoldable pub reset_category :
      List (String × SettingDef) → List String → String → World → Option (List String) × World
  reset_category items categories category w =
      let keys = keys_of_category category items in
      if elem category categories
      then (some keys, record w { table = delete_all keys w.table; cache = none })
      else (none, w)

  -- bool(value)
  abbrev pub is_truthy : Value → Bool
  is_truthy (int n) = not (n ≤?ℤ pos 0 && pos 0 ≤?ℤ n)
  is_truthy (float x) = python.is_nonzero x
  is_truthy (bool b) = b
  is_truthy (str s) = not (s =s "")

  -- `setting_dict`, without the fields of the definition that are copied
  pub record Shown : Type 0 where
    pub key : String
    pub category : String
    pub default : Value
    pub value : Value

  -- the body of the loop of get_all_settings
  unfoldable pub show_setting : String → SettingDef → Option String → Shown
  unfolding resolve
  show_setting key defn raw =
      let v = resolve defn raw in
      record {
        key = key;
        category = defn.category;
        default = if defn.is_secret then str "" else defn.default;
        value = if defn.is_secret then if is_truthy v then str secret_mask else str "" else v;
      }

  -- `categories[cat]["settings"].append`, of a dict in the order of its keys
  abbrev pub append_to : Shown → List (String × List Shown) → List (String × List Shown)
  append_to s [] = (s.category, s ∷ []) ∷ []
  append_to s ((category, shown) ∷ later) =
      let rest = append_to s later in
      if category =s s.category
      then (category, shown ++ (s ∷ [])) ∷ later
      else (category, shown) ∷ rest

  abbrev pub show_all :
      List (String × SettingDef)
      → Overrides
      → List (String × List Shown)
      → List (String × List Shown)
  unfolding show_setting
  show_all [] found categories = categories
  show_all ((key, defn) ∷ items) found categories =
      show_all items found (append_to (show_setting key defn (override_in found key)) categories)

  -- get_all_settings
  unfoldable pub get_all_settings :
      List (String × SettingDef) → World → List (String × List Shown) × World
  unfolding load_overrides show_all
  get_all_settings items w = let (found, w') = load_overrides w in (show_all items found [], w')
