-- ===== src/Settings/Secrets.antt =====
-- What the listing of services/settings_registry.py tells of the secrets that are stored.
use powabase_ai.Prelude.{
  ◌≡◌, refl, ap, ◌∙◌, true, false, List, [], ◌∷◌, String, All, Bool-cases, inl, inr,
}
use powabase_ai.Settings.{
  Python, SettingDef, resolve, World, Overrides, load_overrides, override_in, is_truthy, Shown,
  show_setting, append_to, show_all, get_all_settings,
}

module _ (python : Python) (one other : Overrides python) where
  -- two readings of the overrides that agree on a setting, but for what a secret is
  abbrev pub AgreesOn : String × SettingDef python → Type 0
  AgreesOn (key, defn) =
      (defn.is_secret ≡ false → override_in python one key ≡ override_in python other key)
      × (defn.is_secret ≡ true
          → is_truthy python (resolve python defn (override_in python one key))
            ≡ is_truthy python (resolve python defn (override_in python other key)))

  shown_alike :
      (key : String) (defn : SettingDef python)
      → AgreesOn (key, defn)
      → show_setting python key defn (override_in python one key)
        ≡ show_setting python key defn (override_in python other key)
  unfolding show_setting
  shown_alike key defn agree = elim (Bool-cases defn.is_secret) [
    | inl secret ↦ rw (secret, agree.1 secret) refl
    | inr open_one ↦ ap (show_setting python key defn) (agree.0 open_one)
  ]

  show_all-alike :
      (items : List (String × SettingDef python)) (categories : List (String × List (Shown python)))
      → All AgreesOn items
      → show_all python items one categories ≡ show_all python items other categories
  unfolding show_all
  show_all-alike [] categories agree = refl
  show_all-alike ((key, defn) ∷ items) categories agree =
      ap (λ s. show_all python items one (append_to python s categories))
        (shown_alike key defn agree.0)
      ∙ show_all-alike items
          (append_to python (show_setting python key defn (override_in python other key))
            categories)
          agree.1

-- The listing of the settings tells nothing of a secret but whether it is set: where two states
-- agree on the settings that are not secret, and on which secrets are set, the listing is the same.
pub get_all_settings-alike :
    (python : Python) (items : List (String × SettingDef python)) (w u : World python)
    → All (AgreesOn python (load_overrides python w).0 (load_overrides python u).0) items
    → (get_all_settings python items w).0 ≡ (get_all_settings python items u).0
unfolding get_all_settings
get_all_settings-alike python items w u agree =
    show_all-alike python (load_overrides python w).0 (load_overrides python u).0 items [] agree
