-- ===== src/Settings/Stored.antt =====
-- What services/settings_registry.py reads back after routes/settings.py has written.
use powabase_ai.Prelude.{
  ◌≡◌, refl, ◌∙◌, sym, subst, true, false, Option, none, some, List, [], ◌∷◌, map, String, arith,
  =s_refl, elem, Option-cases, inl, inr, Has,
}
use powabase_ai.Prelude.Int.{ℤ, ◌≤?ℤ◌}
use powabase_ai.Settings.{
  Python, SettingType, int_setting, float_setting, bool_setting, str_setting, Value, int, float,
  bool, str, SettingDef, coerce, as_value, or_default, resolve, is_too_low, is_too_high,
  validate_setting, Registry, Table, upsert, World, load_overrides, override_in, get_setting,
  is_masked, Updates, errors_of, valid_of, upsert_all, updated, update_settings,
}

module _ (python : Python) where
  -- a value of the type that a setting declares; a whole number is one for a float
  abbrev pub IsOf : SettingType → Value python → Type 0
  IsOf int_setting (int n) = Unit
  IsOf float_setting (int n) = Unit
  IsOf float_setting (float x) = Unit
  IsOf bool_setting (bool b) = Unit
  IsOf str_setting (str s) = Unit
  IsOf _ _ = ⊥

  -- every default has the type that its setting declares
  abbrev pub HasTypedDefaults : Registry python → Type 0
  HasTypedDefaults registry =
      (key : String) (defn : SettingDef python)
      → registry key ≡ some defn
      → IsOf defn.type defn.default

  or_default-int :
      (n : Option ℤ) (default : Value python)
      → IsOf int_setting default
      → IsOf int_setting (or_default python (as_value python int n) default)
  or_default-int none default h = h
  or_default-int (some n) default h = _

  or_default-float :
      (x : Option python.Float) (default : Value python)
      → IsOf float_setting default
      → IsOf float_setting (or_default python (as_value python float x) default)
  or_default-float none default h = h
  or_default-float (some x) default h = _

  resolve-IsOf :
      (defn : SettingDef python) (t : SettingType) (raw : Option String)
      → defn.type ≡ t
      → IsOf t defn.default
      → IsOf t (resolve python defn raw)
  unfolding resolve coerce
  resolve-IsOf defn t none same h = h
  resolve-IsOf defn int_setting (some text) same h =
      rw (same) (or_default-int (python.read_int text) defn.default h)
  resolve-IsOf defn float_setting (some text) same h =
      rw (same) (or_default-float (python.read_float text) defn.default h)
  resolve-IsOf defn bool_setting (some text) same h = rw (same) _
  resolve-IsOf defn str_setting (some text) same h = rw (same) _

  -- what get_setting reads of a known setting
  get_setting_known :
      (registry : Registry python) (key : String) (w : World python) (defn : SettingDef python)
      → registry key ≡ some defn
      → (get_setting python registry key w).0
        ≡ some (resolve python defn (override_in python (load_overrides python w).0 key))
  unfolding get_setting
  get_setting_known registry key w defn known = rw (get_setting, known) refl

  -- Where the defaults of the registry have the types that their settings declare, whatever texts
  -- are stored, also by hand or under an older definition, and whether or not they can be read, a
  -- setting that is read has the type that it declares.
  pub get_setting-IsOf :
      (registry : Registry python)
      → HasTypedDefaults registry
      → (key : String) (w : World python) (defn : SettingDef python) (v : Value python)
      → registry key ≡ some defn
      → (get_setting python registry key w).0 ≡ some v
      → IsOf defn.type v
  get_setting-IsOf registry typed key w defn v known read =
      subst (λ u. IsOf defn.type u)
        (ground (arith, get_setting_known registry key w defn known, read))
        (resolve-IsOf defn defn.type (override_in python (load_overrides python w).0 key) refl
          (typed key defn known))

  -- A whole number is at least, or at most, the bound of its setting. Of a float Python does not say
  -- that it is below, or above, which also holds of a NaN.
  abbrev pub IsAbove : Option ℤ → Value python → Type 0
  IsAbove (some bound) (int n) = (bound ≤?ℤ n) ≡ true
  IsAbove (some bound) (float x) = python.is_below x bound ≡ false
  IsAbove _ _ = Unit

  abbrev pub IsBelow : Option ℤ → Value python → Type 0
  IsBelow (some bound) (int n) = (n ≤?ℤ bound) ≡ true
  IsBelow (some bound) (float x) = python.is_above x bound ≡ false
  IsBelow _ _ = Unit

  IsAbove_lem :
      (bound : Option ℤ) (v : Value python) → is_too_low python bound v ≡ false → IsAbove bound v
  IsAbove_lem none v h = _
  IsAbove_lem (some bound) (int n) h = ground (arith, h)
  IsAbove_lem (some bound) (float x) h = h
  IsAbove_lem (some bound) (bool b) h = _
  IsAbove_lem (some bound) (str s) h = _

  IsBelow_lem :
      (bound : Option ℤ) (v : Value python) → is_too_high python bound v ≡ false → IsBelow bound v
  IsBelow_lem none v h = _
  IsBelow_lem (some bound) (int n) h = ground (arith, h)
  IsBelow_lem (some bound) (float x) h = h
  IsBelow_lem (some bound) (bool b) h = _
  IsBelow_lem (some bound) (str s) h = _

  -- a text that stands for a value of a known setting, within its bounds
  abbrev pub IsAccepted :
      Registry python → String → String → SettingDef python → Value python → Type 0
  IsAccepted registry key text defn v =
      (registry key ≡ some defn)
      × ((coerce python text defn.type ≡ some v) × (IsAbove defn.lowest v × IsBelow defn.highest v))

  validate_setting-IsAccepted :
      (registry : Registry python) (key text : String)
      → validate_setting python registry key text ≡ none
      → (defn : SettingDef python) × (v : Value python) × IsAccepted registry key text defn v
  unfolding validate_setting
  validate_setting-IsAccepted registry key text h = elim (Option-cases (registry key)) [
    | inl missing ↦ absurd (ground (arith, missing, h))
    | inr (defn, known) ↦ elim (Option-cases (coerce python text defn.type)) [
      | inl bad ↦ absurd (ground (arith, known, bad, h))
      | inr (v, good) ↦ (
        defn,
        v,
        (
          known,
          (
            good,
            (
              IsAbove_lem defn.lowest v (ground (arith, known, good, h)),
              IsBelow_lem defn.highest v (ground (arith, known, good, h)),
            ),
          ),
        ),
      )
    ]
  ]

  errors_of-none :
      (registry : Registry python) (updates : Updates python) (key text : String)
      → errors_of python registry updates ≡ []
      → Has (key, text) updates
      → is_masked python registry key text ≡ false
      → validate_setting python registry key text ≡ none
  unfolding errors_of
  errors_of-none registry [] key text h there shown = absurd there
  errors_of-none registry ((k, t) ∷ updates) key text h (inl same) shown =
      let shown' = subst (λ u. is_masked python registry u.0 u.1 ≡ false) (sym same) shown in
      subst (λ u. validate_setting python registry u.0 u.1 ≡ none) same (ground (arith, h, shown'))
  errors_of-none registry ((k, t) ∷ updates) key text h (inr later) shown =
      errors_of-none registry updates key text (ground (arith, h)) later shown

  -- the keys of a JSON object are distinct
  abbrev pub HasDistinctKeys : Updates python → Type 0
  HasDistinctKeys [] = Unit
  HasDistinctKeys ((key, text) ∷ updates) =
      (elem key (map (λ u. u.0) updates) ≡ false) × HasDistinctKeys updates

  upsert_all-other :
      (registry : Registry python) (updates : Updates python) (table : Table python) (key : String)
      → elem key (map (λ u. u.0) updates) ≡ false
      → upsert_all python (valid_of python registry updates) table key ≡ table key
  unfolding valid_of
  upsert_all-other registry [] table key h = refl
  upsert_all-other registry ((k, t) ∷ updates) table key h = ground (
    arith,
    h,
    upsert_all-other registry updates table key (ground (arith, h)),
    upsert_all-other registry updates (upsert python k t table) key (ground (arith, h)),
  )

  upsert_all-stored :
      (registry : Registry python) (updates : Updates python) (table : Table python)
      (key text : String)
      → HasDistinctKeys updates
      → Has (key, text) updates
      → is_masked python registry key text ≡ false
      → upsert_all python (valid_of python registry updates) table key ≡ some text
  unfolding valid_of
  upsert_all-stored registry [] table key text distinct there shown = absurd there
  upsert_all-stored registry ((k, t) ∷ updates) table key text distinct (inl same) shown =
      let shown' = subst (λ u. is_masked python registry u.0 u.1 ≡ false) (sym same) shown in
      subst
        (λ u. upsert_all python (valid_of python registry ((k, t) ∷ updates)) table u.0 ≡ some u.1)
        same
        (ground (
          arith,
          shown',
          =s_refl k,
          upsert_all-other registry updates (upsert python k t table) k distinct.0,
        ))
  upsert_all-stored registry ((k, t) ∷ updates) table key text distinct (inr later) shown = ground (
    arith,
    upsert_all-stored registry updates table key text distinct.1 later shown,
    upsert_all-stored registry updates (upsert python k t table) key text distinct.1 later shown,
  )

  update_settings-errors_of :
      (registry : Registry python) (updates : Updates python) (w : World python)
      (keys : List String)
      → (update_settings python registry updates w).0 ≡ updated keys
      → errors_of python registry updates ≡ []
  unfolding update_settings
  update_settings-errors_of registry [] w keys h = absurd (ground (arith, h))
  update_settings-errors_of registry (u ∷ us) w keys h = ground (arith, h)

  update_settings-table :
      (registry : Registry python) (updates : Updates python) (w : World python)
      (keys : List String)
      → (update_settings python registry updates w).0 ≡ updated keys
      → (update_settings python registry updates w).1 ≡ record w {
        table = upsert_all python (valid_of python registry updates) w.table;
        cache = none;
      }
  unfolding update_settings
  update_settings-table registry [] w keys h = absurd (ground (arith, h))
  update_settings-table registry (u ∷ us) w keys h =
      rw (update_settings, update_settings-errors_of registry (u ∷ us) w keys h) refl

  -- Settings that update_settings accepts, with the keys of a JSON object, are read back: every one
  -- that was not sent as the mask of a secret is known, its text stands for a value, and get_setting
  -- then returns that value in the same request, whatever was cached before. The table can be read.
  -- A whole number lies between the bounds of its setting; of a float Python says neither that it is
  -- below nor that it is above them, which holds of a NaN too.
  pub get_setting-update_settings :
      (registry : Registry python) (updates : Updates python) (w : World python)
      (keys : List String) (key text : String)
      → HasDistinctKeys updates
      → w.is_readable ≡ true
      → (update_settings python registry updates w).0 ≡ updated keys
      → Has (key, text) updates
      → is_masked python registry key text ≡ false
      → (defn : SettingDef python) × (v : Value python) × (IsAccepted registry key text defn v
          × ((get_setting python registry key (update_settings python registry updates w).1).0
              ≡ some v))
  unfolding load_overrides resolve
  get_setting-update_settings registry updates w keys key text distinct readable done there shown =
      let w' : World python = record w {
        table = upsert_all python (valid_of python registry updates) w.table;
        cache = none;
      } in
      let (defn, v, accepted) = validate_setting-IsAccepted registry key text (
        errors_of-none registry updates key text
          (update_settings-errors_of registry updates w keys done) there shown) in
      let stored = upsert_all-stored registry updates w.table key text distinct there shown in
      (
        defn,
        v,
        (
          accepted,
          subst (λ x. (get_setting python registry key x).0 ≡ some v)
              (sym (update_settings-table registry updates w keys done))
              (get_setting_known registry key w' defn accepted.0
                ∙ rw (readable, stored, accepted.1.0) refl),
        ),
      )
