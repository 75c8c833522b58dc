-- ===== src/Settings.antt =====
-- backend/src/models/coreModels/Setting.js and backend/src/middlewares/settings: the settings
-- collection, and the functions by which other controllers read and write it. A function that
-- catches every error gives null; null is `none`.
pub mod Controller
pub mod Laws
pub mod Many
pub mod Rewrites
use dev_ops_projet.Base.{
  ℕ, ℤ, pos, ◌+ℤ◌, String, str_eq, Bool, true, false, not, Option, none, some, List, [], ◌∷◌, ◌==ℤ◌,
  if◌then◌else◌,
}
use dev_ops_projet.Mongo.{Mongoose, updated}

-- A value of type Mixed. `object` stands for arrays and objects.
pub data SettingValue : Type 0 where
  missing : SettingValue
  num : ℤ → SettingValue
  txt : String → SettingValue
  flag : Bool → SettingValue
  object : ℕ → SettingValue

pub record Setting : Type 0 where
  pub id : ℕ
  pub removed : Bool
  pub enabled : Bool
  pub setting_category : String
  pub setting_key : String
  pub setting_value : SettingValue
  pub value_type : String
  pub is_private : Bool
  pub is_core_setting : Bool

-- JavaScript's truth of a value, and of a text that may be absent.
abbrev pub is_truthy : SettingValue → Bool
is_truthy missing = false
is_truthy (num n) = not (n ==ℤ pos 0)
is_truthy (txt s) = not (str_eq s "")
is_truthy (flag b) = b
is_truthy (object o) = true

abbrev pub present : Option String → Option String
present none = none
present (some s) = if str_eq s "" then none else some s

-- A filter on the key, which the schema's `lowercase` has been applied to, as mongoose does; the keys
-- that the server itself asks for are in lower case.
abbrev pub has_key : String → Setting → Bool
has_key k s = str_eq s.setting_key k

-- `$inc: { settingValue: 1 }`: an absent value becomes 1, and the database refuses other values.
abbrev pub increment : SettingValue → SettingValue
increment missing = num (pos 1)
increment (num n) = num (n +ℤ pos 1)
increment v = v

abbrev is_number : SettingValue → Bool
is_number (num n) = true
is_number _ = false

-- `settings` in `{ ...settings }` names nothing: the ReferenceError is caught.
pub list_by_setting_key : List String → List Setting → List Setting
list_by_setting_key [] s = []
list_by_setting_key (k ∷ ks) s = []

-- `allSettings[settingKey] = settingValue`
unfoldable pub assign :
    String → SettingValue → List (String × SettingValue) → List (String × SettingValue)
assign k v [] = (k, v) ∷ []
assign k v ((j, w) ∷ o) = if str_eq j k then (k, v) ∷ o else (j, w) ∷ assign k v o

unfoldable pub assign_all :
    List Setting → List (String × SettingValue) → List (String × SettingValue)
assign_all [] o = o
assign_all (d ∷ ds) o = assign_all ds (assign d.setting_key d.setting_value o)

module _ (db : Mongoose) where
  pub increase_by_setting_key : Option String → List Setting → Option Setting × List Setting
  increase_by_setting_key key s = elim (present key) [
    | none ↦ (none, s)
    | some k ↦
        let (found, s') =
          db.find_one_and_update updated (has_key k)
            (λ d. record d { setting_value = increment d.setting_value }) s in
        (
          elim found [ none ↦ none | some d ↦ if is_number d.setting_value then some d else none ],
          s',
        )
  ]

  pub update_by_setting_key :
      Option String → SettingValue → List Setting → Option Setting × List Setting
  update_by_setting_key key v s = elim (present key) [
    | none ↦ (none, s)
    | some k ↦
        if is_truthy v
        then db.find_one_and_update updated (has_key k) (λ d. record d { setting_value = v }) s
        else (none, s)
  ]

  pub read_by_setting_key : Option String → List Setting → Option Setting
  read_by_setting_key key s = elim (present key) [
    | none ↦ none
    | some k ↦ db.find_one (has_key k) s
  ]

  unfoldable pub list_all_settings : List Setting → List Setting
  list_all_settings s = db.find (λ d. not d.removed) s

  unfoldable pub load_settings : List Setting → List (String × SettingValue)
  unfolding list_all_settings assign_all
  load_settings s = assign_all (list_all_settings s) []
