-- ===== src/SettingsStore.antt =====
-- frontend/src/redux/settings: the store of the settings and the copy of them that its actions keep in
-- local storage. An object is the function that gives the value of a property, if it has one.
pub mod Laws
use dev_ops_projet.Base.{
  String, str_eq, includes, Bool, true, false, Option, none, some, List, [], ◌∷◌, if◌then◌else◌,
}
use dev_ops_projet.Settings.{Setting, SettingValue}

abbrev pub Category : Type 0
Category = String → Option SettingValue

abbrev pub Categories : Type 0
Categories = String → Option Category

-- `{ ...object, [key]: value }`; spreading undefined gives no property.
abbrev pub spread : Option Category → Category
spread none key = none
spread (some object) key = object key

abbrev pub with_property : {V : Type 0} → String → V → (String → Option V) → String → Option V
with_property key value object k = if str_eq key k then some value else object k

abbrev pub no_property : {V : Type 0} → String → Option V
no_property k = none

abbrev pub add_setting : Setting → Categories → Categories
add_setting data_ categories =
    with_property data_.setting_category
      (with_property data_.setting_key data_.setting_value
        (spread (categories data_.setting_category)))
      categories

abbrev pub add_settings : List Setting → Categories → Categories
add_settings [] categories = categories
add_settings (d ∷ ds) categories = add_settings ds (add_setting d categories)

unfoldable pub dispatch_settings_data : List Setting → Categories
dispatch_settings_data datas = add_settings datas no_property

-- `INITIAL_SETTINGS_STATE`: five categories without properties.
abbrev pub initial_settings : Categories
initial_settings category =
    if includes
      ("crm_settings" ∷ "finance_settings" ∷ "company_settings" ∷ "app_settings"
        ∷ "money_format_settings" ∷ [])
      category
    then some no_property
    else none

pub record SettingsState : Type 0 where
  pub result : Categories
  pub is_loading : Bool
  pub is_success : Bool

abbrev pub initial_state : SettingsState
initial_state = record { result = initial_settings; is_loading = false; is_success = false }

pub data SettingsAction : Type 0 where
  reset_state request_loading request_failed : SettingsAction
  update_currency : Category → SettingsAction
  request_success : Categories → SettingsAction

unfoldable pub settings_reducer : SettingsState → SettingsAction → SettingsState
settings_reducer s reset_state = initial_state
settings_reducer s request_loading = record s { is_loading = true }
settings_reducer s request_failed = record s { is_loading = false; is_success = false }
settings_reducer s (update_currency payload) = record {
  result = with_property "money_format_settings" payload s.result;
  is_loading = false;
  is_success = true;
}
settings_reducer s (request_success payload) = record {
  result = payload;
  is_loading = false;
  is_success = true;
}

-- The store and what local storage holds under 'settings'.
pub record World : Type 0 where
  pub store : SettingsState
  pub local : Option Categories

-- What `request` gives; an answer that is undefined is none, and reading its `success` throws.
pub record Answer : Type 0 where
  pub success : Bool
  pub result : List Setting

abbrev pub dispatch : SettingsAction → World → World
dispatch a w = record w { store = settings_reducer w.store a }

-- What `list` does, given the answer of `listAll`; the same lines end the other three operations.
unfoldable pub list : Option Answer → World → World
list answer w =
    let loading = dispatch request_loading w in
    elim answer [
      | none ↦ loading
      | some data_ ↦
          if data_.success
          then dispatch (request_success (dispatch_settings_data data_.result))
              (record loading { local = some (dispatch_settings_data data_.result) })
          else dispatch request_failed loading
    ]

-- `update`, `updateMany` and `upload`, which differ in the request: given its answer, and that of
-- `listAll` after it.
unfoldable pub change : Option Answer → Option Answer → World → World
change answer listed w =
    let loading = dispatch request_loading w in
    elim answer [
      | none ↦ loading
      | some data_ ↦ if data_.success then list listed loading else dispatch request_failed loading
    ]

unfoldable pub update : Option Answer → Option Answer → World → World
update = change

unfoldable pub update_many : Option Answer → Option Answer → World → World
update_many = change

unfoldable pub upload : Option Answer → Option Answer → World → World
upload = change
