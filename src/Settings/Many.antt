-- ===== src/Settings/Many.antt =====
-- settingController/updateManySetting.js and listAll.js.
use dev_ops_projet.Base.{
  String, Bool, true, false, not, ◌&&◌, ltb, length, if◌then◌else◌, Option, none, some, List, [],
  ◌∷◌,
}
use dev_ops_projet.Http.{Outcome, reply, text, throw, type_error}
use dev_ops_projet.Mongo.{Mongoose, first, update_first}
use dev_ops_projet.Settings.{Setting, SettingValue, has_key}

-- An entry of `req.body.settings`; a property that it does not have is none.
pub record Change : Type 0 where
  pub setting_key : Option String
  pub setting_value : Option SettingValue

-- An `updateOne` of `bulkWrite`: its filter and its update.
abbrev pub UpdateOne : Type 0
UpdateOne = (Setting → Bool) × (Setting → Setting)

abbrev pub with_value : SettingValue → Setting → Setting
with_value v d = record d { setting_value = v }

-- `lower` is the schema's `lowercase`, which mongoose applies to the filters. The loop, up to the first entry that lacks a property: the updates, and `settingsHasError`.
abbrev pub update_data_array : (String → String) → List Change → List UpdateOne × Bool
update_data_array lower [] = ([], false)
update_data_array lower (change ∷ rest) =
    let later = update_data_array lower rest in
    elim change.setting_key [
      | none ↦ ([], true)
      | some k ↦ elim change.setting_value [
        | none ↦ ([], true)
        | some v ↦ ((has_key (lower k), with_value v) ∷ later.0, later.1)
      ]
    ]

-- `bulkWrite` is mongoose's. The handler reads `nMatched` of its result, which that result does not
-- have: `undefined < 1` is false. A body without `settings` throws.
unfoldable pub update_many_setting :
    (String → String)
    → (List UpdateOne → List Setting → List Setting)
    → Option (List Change)
    → List Setting
    → Outcome (List Setting) × List Setting
update_many_setting lower bulk_write none s = (throw type_error, s)
update_many_setting lower bulk_write (some settings) s =
    let (updates, settings_has_error) = update_data_array lower settings in
    elim updates [
      | [] ↦ (reply 202 false none (text "No settings provided "), s)
      | u ∷ us ↦
          if settings_has_error
          then (reply 202 false none (text "Settings provided has Error"), s)
          else (reply 200 true (some []) (text "we update all settings"), bulk_write (u ∷ us) s)
    ]

-- `sort` is the order by `created`.
unfoldable pub list_all :
    Mongoose → (List Setting → List Setting) → List Setting → Outcome (List Setting)
list_all db sort s =
    let result = sort (db.find (λ d. not d.removed && not d.is_private) s) in
    if ltb 0 (length result)
    then reply 200 true (some result) (text "Successfully found all documents")
    else reply 203 false (some []) (text "Collection is Empty")

-- The documented behaviour of an ordered `bulkWrite` of `updateOne`s.
abbrev pub in_order : List UpdateOne → List Setting → List Setting
in_order [] s = s
in_order ((p, f) ∷ us) s = in_order us (update_first p f s)

-- What a key holds: the value of the first setting with that key.
abbrev pub value_at : String → List Setting → Option SettingValue
value_at k s = elim (first (has_key k) s) [ none ↦ none | some d ↦ some d.setting_value ]
