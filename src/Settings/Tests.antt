-- ===== src/Settings/Tests.antt =====
-- A write of a bounded number beside a masked secret, in a request that had read the settings.
use powabase_ai.Prelude.{
  ◌≡◌, refl, true, false, none, some, List, [], ◌∷◌, String, ◌=s◌, inl, inr, if◌then◌else◌,
  Bool-cases, arith, subst,
}
use powabase_ai.Prelude.Int.{pos}
use powabase_ai.Settings.{
  Python, int_setting, str_setting, Value, int, str, SettingDef, coerce, resolve, Registry, World,
  load_overrides, overrides, get_setting, errors_of, valid_of, validate_setting, update_settings,
  secret_mask, get_all_settings,
}
use powabase_ai.Settings.Secrets.{get_all_settings-alike}
use powabase_ai.Settings.Stored.{IsOf, IsAccepted, get_setting-IsOf, get_setting-update_settings}

-- a Python that reads two texts, without floats
abbrev python : Python
python = record {
  Float = Unit;
  read_int =
      λ text. if text =s "8" then some (pos 8) else if text =s "30" then some (pos 30) else none;
  read_float = λ text. none;
  is_below = λ x bound. false;
  is_above = λ x bound. false;
  lower = λ text. text;
  is_nonzero = λ x. true;
}

abbrev max_steps : SettingDef python
max_steps = record {
  type = int_setting;
  default = int (pos 30);
  category = "copilot";
  is_secret = false;
  lowest = some (pos 1);
  highest = some (pos 100);
  choices = [];
}

abbrev api_key : SettingDef python
api_key = record {
  type = str_setting;
  default = str "";
  category = "copilot";
  is_secret = true;
  lowest = none;
  highest = none;
  choices = [];
}

abbrev registry : Registry python
registry key =
    if key =s "COPILOT_MAX_STEPS"
    then some max_steps
    else if key =s "API_KEY"
    then some api_key
    else none

abbrev world : World python
world = record { table = λ key. none; cache = some (overrides (λ key. none)); is_readable = true }

abbrev updates : List (String × String)
updates = ("API_KEY", secret_mask python) ∷ ("COPILOT_MAX_STEPS", "8") ∷ []

typed_defaults :
    (key : String) (defn : SettingDef python)
    → registry key ≡ some defn
    → IsOf python defn.type defn.default
typed_defaults key defn known = elim (Bool-cases (key =s "COPILOT_MAX_STEPS")) [
  | inl first ↦
      let same : max_steps ≡ defn = ground (arith, known, first) in
      subst (λ d. IsOf python d.type d.default) same _
  | inr other ↦ elim (Bool-cases (key =s "API_KEY")) [
    | inl second ↦
        let same : api_key ≡ defn = ground (arith, known, other, second) in
        subst (λ d. IsOf python d.type d.default) same _
    | inr none_such ↦ absurd (ground (arith, known, other, none_such))
  ]
]

get_setting-IsOf_example : IsOf python int_setting (int (pos 30))
unfolding get_setting load_overrides resolve
get_setting-IsOf_example =
    get_setting-IsOf python registry typed_defaults "COPILOT_MAX_STEPS" world max_steps
      (int (pos 30)) refl refl

get_setting-update_settings_example :
    (defn : SettingDef python) × (v : Value python) × (IsAccepted python registry
        "COPILOT_MAX_STEPS" "8" defn v
      × ((get_setting python registry "COPILOT_MAX_STEPS"
            (update_settings python registry updates world).1).0
          ≡ some v))
unfolding update_settings errors_of valid_of validate_setting coerce
get_setting-update_settings_example =
    get_setting-update_settings python registry updates world ("COPILOT_MAX_STEPS" ∷ [])
      "COPILOT_MAX_STEPS" "8" (refl, (refl, _)) refl refl (inr (inl refl)) refl

abbrev holding_secret : String → World python
holding_secret secret = record world {
  table = λ key. if key =s "API_KEY" then some secret else none;
  cache = none;
}

abbrev items : List (String × SettingDef python)
items = ("COPILOT_MAX_STEPS", max_steps) ∷ ("API_KEY", api_key) ∷ []

get_all_settings-alike_example :
    (get_all_settings python items (holding_secret "one")).0
    ≡ (get_all_settings python items (holding_secret "other")).0
unfolding load_overrides resolve coerce
get_all_settings-alike_example =
    get_all_settings-alike python items (holding_secret "one") (holding_secret "other") (
      (λ shown. refl, λ secret. absurd (ground (arith, secret))),
      ((λ shown. absurd (ground (arith, shown)), λ secret. refl), _),
    )
