-- ===== src/Money.antt =====
-- The texts of amounts: backend/src/settings/useMoney.js with what controllers/pdfController gives it,
-- and frontend/src/settings/useMoney.jsx with the store's selector. currency.js and JavaScript's texts
-- of values are parameters. An object is the function that gives the value of a property, if it has
-- one.
pub mod Lookup
pub mod Laws
use Prim.Native.String.{◌++◌ as append}
use dev_ops_projet.Base.{
  ℤ, pos, String, str_eq, Bool, true, false, not, ◌||◌, Option, none, some, List, [], ◌∷◌, includes,
  ltb_ℤ, if◌then◌else◌,
}
use dev_ops_projet.Settings.{SettingValue, txt, is_truthy, Setting, load_settings}
use dev_ops_projet.Mongo.{Mongoose}
use dev_ops_projet.SettingsStore.{Category, Categories, spread, World, no_property}

-- `currency(amount).dollars()`; `currency(amount, { separator, decimal, symbol: '', precision })
-- .format()`; and the text that `+` makes of a value.
pub record Formatter : Type 0 where
  pub dollars : ℤ → ℤ
  pub format : (separator decimal precision : Option SettingValue) → ℤ → String
  pub to_text : Option SettingValue → String

abbrev pub truthy : Option SettingValue → Bool
truthy none = false
truthy (some v) = is_truthy v

-- `x === 'before'`
abbrev pub is_before : Option SettingValue → Bool
is_before (some (txt s)) = str_eq s "before"
is_before _ = false

-- The server: useMoney.js.
module _ (f : Formatter) (settings : Category) where
  unfoldable pub currency_format : ℤ → String
  currency_format amount =
      if ltb_ℤ (pos 0) (f.dollars amount) || not (truthy (settings "zero_format"))
      then f.format (settings "thousand_sep") (settings "decimal_sep") (settings "cent_precision")
          amount
      else append "0" (
          f.format (settings "thousand_sep") (settings "decimal_sep") (settings "cent_precision")
            amount)

  unfoldable pub money_formatter : ℤ → String
  unfolding currency_format
  money_formatter amount =
      if is_before (settings "currency_position")
      then append (append (f.to_text (settings "currency_symbol")) " ") (currency_format amount)
      else append (append (currency_format amount) " ") (f.to_text (settings "currency_symbol"))

-- `settings[key]` of the object that `loadSettings` builds.
abbrev pub get : List (String × SettingValue) → Category
get [] k = none
get ((j, v) ∷ o) k = if str_eq j k then some v else get o k

abbrev pub money_keys : List String
money_keys =
    "currency_symbol" ∷ "currency_position" ∷ "decimal_sep" ∷ "thousand_sep" ∷ "cent_precision"
    ∷ "zero_format" ∷ []

-- The settings that `generatePdf` selects.
abbrev pub selected : Category → Category
selected settings key = if includes money_keys key then settings key else none

unfoldable pub pdf_money_formatter : Mongoose → Formatter → List Setting → ℤ → String
unfolding money_formatter
pdf_money_formatter db f s = money_formatter f (selected (get (load_settings db s)))

-- The client: `money_format_state` of useMoney.jsx, undefined if neither the store nor local storage
-- has it; `money_format_state?.key` is then undefined too.
unfoldable pub money_format_state : World → Option Category
money_format_state w = elim (w.store.result "money_format_settings") [
  | some c ↦ some c
  | none ↦ elim w.local [ none ↦ none | some settings ↦ settings "money_format_settings" ]
]

module _ (f : Formatter) (state : Option Category) where
  unfoldable pub client_currency_format : ℤ → String
  client_currency_format amount =
      let text =
        f.format (spread state "thousand_sep") (spread state "decimal_sep")
          (spread state "cent_precision") amount in
      if ltb_ℤ (pos 0) (f.dollars amount) || not (truthy (spread state "zero_format"))
      then text
      else append "0" text

  unfoldable pub client_money_formatter : ℤ → String
  unfolding client_currency_format
  client_money_formatter amount =
      if is_before (spread state "currency_position")
      then append (append (f.to_text (spread state "currency_symbol")) " ")
          (client_currency_format amount)
      else append (append (client_currency_format amount) " ")
          (f.to_text (spread state "currency_symbol"))
