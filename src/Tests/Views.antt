-- ===== src/Tests/Views.antt =====
-- The hooks, the search box and the texts of amounts.
use dev_ops_projet.Base.{
  ℕ, pos, ◌≡◌, ◌≢◌, refl, arith, eq_iff, str_eq, String, true, false, ◌||◌, Option, none, some, [],
  ◌∷◌, ◌++◌, All, includes, leb, ◌+◌, if◌then◌else◌,
}
use dev_ops_projet.Http.{type_error}
use dev_ops_projet.Mongo.{in_memory}
use dev_ops_projet.Redux.{absent, docs}
use dev_ops_projet.Redux.Actions.{Reply}
use dev_ops_projet.HttpClient.{Exchange, failed, Browser, stored, include_token}
use dev_ops_projet.HttpClient.Requests.{Sent}
use dev_ops_projet.Hooks.{
  Settled, rejected, fulfilled, Fetched, initial_fetched, use_fetch, SelectOption,
}
use dev_ops_projet.Hooks.Laws.{value_of, has_value, use_fetch-value_of}
use dev_ops_projet.SearchBoxes.{SearchBox, mount, on_search, wait_until, typing}
use dev_ops_projet.SearchBoxes.Bursts.{typing-last_text}
use dev_ops_projet.Settings.{Setting, txt}
use dev_ops_projet.Settings.Many.{list_all}
use dev_ops_projet.SettingsStore.{Answer, World, initial_state, update}
use dev_ops_projet.Money.{
  money_keys, Formatter, client_money_formatter, money_format_state, pdf_money_formatter,
}
use dev_ops_projet.Money.Lookup.{Says, IsSort}
use dev_ops_projet.Money.Laws.{answer_of, client_money_formatter-pdf_money_formatter}
use dev_ops_projet.Tests.Models.{in_memory-IsMongoose}

abbrev found : Reply ℕ
found = record { success = true; result = docs (4 ∷ []); pagination = none }

-- The first request succeeds, and the second is rejected.
abbrev answers : ℕ → Settled ℕ
answers n = if leb 1 n then rejected type_error else fulfilled (some found)

use_fetch_example :
    (s : Fetched ℕ) × (use_fetch 3 answers 0 none initial_fetched ≡ some (s, 2))
    × (s.is_loading ≡ false)
    × (s.result ≡ value_of (answers 1) (value_of (answers 0) absent))
    × (s.is_success ≡ (has_value (answers 1) || has_value (answers 0)))
use_fetch_example = use_fetch-value_of answers 3 (omega arith)

abbrev browser : Browser String
browser = record {
  online = true;
  auth = stored "token";
  is_logout = false;
  href = none;
  authorization = none;
  notes = [];
}

abbrev ready : Browser String
ready = record browser { authorization = some "token" }

browser-ready : include_token browser ≡ some ready
unfolding include_token
browser-ready = refl

-- A server that cannot be reached.
abbrev down : Sent String → Option String → Exchange ℕ
down sent token = failed none

abbrev option_of : ℕ → SelectOption
option_of n = record { value = "value"; label = "label" }

-- "a" and "an" are typed within the waiting time.
abbrev box : SearchBox
box = mount 500 0

differ : (s t : String) → str_eq s t ≡ false → s ≢ t
differ s t h e = ground (arith, eq_iff s t)

search_example :
    (wait_until 1300 (typing 500 ((700, "an") ∷ []) (on_search 500 600 "a" box))).searches
    ≡ (if leb (700 + 500) 1300 then box.searches ++ "an" ∷ [] else box.searches)
unfolding mount
search_example =
    typing-last_text 500 600 1300 "a" ((700, "an") ∷ []) box (differ "a" "" refl)
      (differ "a" "" refl) (omega arith, omega arith, differ "an" "" refl, differ "an" "a" refl, tt)
      (differ "an" "" refl)

abbrev symbol : Setting
symbol = record {
  id = 1;
  removed = false;
  enabled = true;
  setting_category = "money_format_settings";
  setting_key = "currency_symbol";
  setting_value = txt "$";
  value_type = "string";
  is_private = false;
  is_core_setting = false;
}

abbrev fixed : Formatter
fixed = record {
  dollars = λ a. a;
  format = λ separator decimal precision a. "1.00";
  to_text = λ v. "$";
}

same_order-IsSort : IsSort (λ s. s)
same_order-IsSort = record { All-sort = λ P s. ((λ h. h), (λ h. h)) }

symbol-Says : (k : String) → includes money_keys k ≡ true → All (Says k (txt "$")) (symbol ∷ [])
symbol-Says k of_money = ((λ live e. (refl, refl, refl)), tt)

abbrev done : Answer
done = record { success = true; result = [] }

abbrev world : World
world = record { store = initial_state; local = none }

listed : (answer_of (list_all in_memory (λ s. s) (symbol ∷ []))).success ≡ true
unfolding list_all
listed = refl

money_example :
    client_money_formatter fixed
      (money_format_state
        (update (some done) (some (answer_of (list_all in_memory (λ s. s) (symbol ∷ [])))) world))
      (pos 100)
    ≡ pdf_money_formatter in_memory fixed (symbol ∷ []) (pos 100)
money_example =
    client_money_formatter-pdf_money_formatter in_memory fixed (λ s. s) (symbol ∷ []) (λ k. txt "$")
      done world (pos 100) in_memory-IsMongoose same_order-IsSort symbol-Says refl listed
