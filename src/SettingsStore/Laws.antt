-- ===== src/SettingsStore/Laws.antt =====
-- What the store holds after the settings were listed.
use dev_ops_projet.Base.{
  ◌≡◌, refl, ap, ◌∙◌, eq_iff, String, str_eq, true, false, ◌&&◌, Option, none, some, inl, inr, List,
  [], ◌∷◌, if◌then◌else◌, Bool-cases,
}
use dev_ops_projet.Settings.{Setting, SettingValue}
use dev_ops_projet.SettingsStore.{
  Categories, spread, add_setting, add_settings, dispatch_settings_data, World, Answer, list,
  change, settings_reducer, no_property, update,
}

-- `settings[category]?.[key]`
abbrev pub lookup : Categories → String → String → Option SettingValue
lookup categories category key = spread (categories category) key

-- Independent of the objects: the value of the last setting of the list with that category and key,
-- or the value before.
abbrev pub last_value : List Setting → String → String → Option SettingValue → Option SettingValue
last_value [] category key before = before
last_value (d ∷ ds) category key before = last_value ds category key (
    if str_eq d.setting_category category && str_eq d.setting_key key
    then some d.setting_value
    else before)

lookup-add_setting :
    (d : Setting) (o : Categories) (category key : String)
    → lookup (add_setting d o) category key ≡ (
        if str_eq d.setting_category category && str_eq d.setting_key key
        then some d.setting_value
        else lookup o category key)
lookup-add_setting d o category key =
    let here = eq_iff d.setting_category category in
    elim (Bool-cases (str_eq d.setting_category category)) [
      | inl c ↦ elim (Bool-cases (str_eq d.setting_key key)) [
        | inl k ↦ rw (c, k) refl
        | inr k ↦ rw (c, k) (ap (λ x. spread (o x) key) (here.0 c))
      ]
      | inr c ↦ rw c refl
    ]

lookup-add_settings :
    (ds : List Setting) (o : Categories) (category key : String)
    → lookup (add_settings ds o) category key ≡ last_value ds category key (lookup o category key)
lookup-add_settings [] o category key = refl
lookup-add_settings (d ∷ ds) o category key =
    lookup-add_settings ds (add_setting d o) category key
    ∙ ap (last_value ds category key) (lookup-add_setting d o category key)

-- After an update of the settings that the server accepts, with the settings then listed: the store
-- holds, for each category and key, the value of the last listed setting with them and none if there
-- is none, whatever it held before, it is not loading, and local storage holds the same.
pub update-last_value :
    (answer listed : Answer) (w : World) (category key : String)
    → answer.success ≡ true
    → listed.success ≡ true
    → (lookup (update (some answer) (some listed) w).store.result category key
        ≡ last_value listed.result category key none)
      × ((update (some answer) (some listed) w).store.is_loading ≡ false)
      × ((update (some answer) (some listed) w).local
          ≡ some (update (some answer) (some listed) w).store.result)
unfolding update change list dispatch_settings_data settings_reducer
update-last_value answer listed w category key ok got =
    rw (ok, got) (lookup-add_settings listed.result no_property category key, refl, refl)
