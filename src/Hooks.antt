-- ===== src/Hooks.antt =====
-- frontend/src/hooks: useFetch.jsx and useOnFetch.jsx, which send the requests of single components,
-- and components/SelectAsync, the select of a list that the server sends. React runs an effect after
-- the first render and after each one in which a dependency has changed.
pub mod Laws
use dev_ops_projet.Base.{
  ℕ, zero, suc, ◌+◌, String, str_eq, Bool, true, false, not, ◌&&◌, ◌||◌, Option, none, some, List,
  [], ◌∷◌, map, if◌then◌else◌,
}
use dev_ops_projet.Http.{Error, type_error}
use dev_ops_projet.Redux.{Payload, absent, doc, docs, page}
use dev_ops_projet.Redux.Actions.{Reply}

-- What a promise of a request comes to: it is rejected, or has a value, which may be undefined.
pub data Settled (A : Type 0) : Type 0 where
  rejected : Error → Settled A
  fulfilled : Option (Reply A) → Settled A

-- The state of useFetchData; `data` is `result` here.
pub record Fetched (A : Type 0) : Type 0 where
  pub result : Payload A
  pub is_loading : Bool
  pub is_success : Bool
  pub error : Option Error

module _ {A : Type 0} where
  abbrev pub initial_fetched : Fetched A
  initial_fetched = record { result = absent; is_loading = true; is_success = false; error = none }

  -- `fetchData`, once its request is settled. Reading `result` of undefined throws.
  unfoldable pub fetch_data : Settled A → Fetched A → Fetched A
  fetch_data (rejected e) s = record s { error = some e; is_loading = false }
  fetch_data (fulfilled none) s = record s { error = some type_error; is_loading = false }
  fetch_data (fulfilled (some data_)) s = record s {
    result = data_.result;
    is_success = true;
    is_loading = false;
  }

-- The dependency of the last run of an effect, none before the first.
abbrev pub unchanged : Option Bool → Bool → Bool
unchanged none b = false
unchanged (some a) b = (a && b) || (not a && not b)

module _ {A : Type 0} where
  -- The runs of the effect on `[isLoading]` until there is none left to run, with the number of
  -- requests; the `n`th request comes to `answers n`. `none` means that the fuel ran out.
  unfoldable pub use_fetch :
      ℕ → (ℕ → Settled A) → ℕ → Option Bool → Fetched A → Option (Fetched A × ℕ)
  use_fetch zero answers n last s = none
  use_fetch (suc fuel) answers n last s =
      let rest = use_fetch fuel answers (suc n) (some s.is_loading) (fetch_data (answers n) s) in
      if unchanged last s.is_loading then some (s, n) else rest

-- The state of useOnFetch.
pub record OnFetched (A : Type 0) : Type 0 where
  pub result : Payload A
  pub is_loading : Bool
  pub is_success : Bool

module _ {A : Type 0} where
  -- `onFetch` up to its `await`, and after it; an error leaves the state as it is.
  unfoldable pub on_fetch : OnFetched A → OnFetched A
  on_fetch s = record s { is_loading = true }

  unfoldable pub on_fetched : Settled A → OnFetched A → OnFetched A
  on_fetched (rejected e) s = s
  on_fetched (fulfilled none) s = s
  on_fetched (fulfilled (some data_)) s = record {
    result = data_.result;
    is_loading = false;
    is_success = if data_.success then true else false;
  }

-- SelectAsync. An option's value, label and color; `none` of `select_options` is what has no `map`.
pub record SelectOption : Type 0 where
  pub value : String
  pub label : String

-- The state of SelectAsync, and what it did to its surroundings: calls of `onChange` and `navigate`.
pub record SelectAsync (A : Type 0) : Type 0 where
  pub select_options : Payload A
  pub current_value : Option String
  pub changes : List String
  pub url : Option String

module _ {A : Type 0} where
  abbrev pub initial_select : SelectAsync A
  initial_select = record {
    select_options = docs [];
    current_value = none;
    changes = [];
    url = none;
  }

  -- The effect on `[isSuccess]`: `isSuccess && setOptions(result)`.
  unfoldable pub success_effect : Fetched A → SelectAsync A → SelectAsync A
  success_effect fetch s =
      if fetch.is_success then record s { select_options = fetch.result } else s

  -- The effect on `[value]`; `output` is `value?.[outputValue] ?? value`.
  unfoldable pub value_effect : Option String → SelectAsync A → SelectAsync A
  value_effect none s = s
  value_effect (some output) s = record s {
    current_value = some output;
    changes = output ∷ s.changes;
  }

  -- `handleSelectChange`, the new value a text.
  unfoldable pub handle_select_change : String → String → SelectAsync A → SelectAsync A
  handle_select_change url_to_redirect new_value s =
      if str_eq new_value "redirectURL"
      then record s { url = some url_to_redirect }
      else record s { current_value = some new_value; changes = new_value ∷ s.changes }

  -- `optionsList`, by what it reads of a document. Null has no `map`: `none` is the TypeError.
  unfoldable pub options_list : (A → SelectOption) → SelectAsync A → Option (List SelectOption)
  options_list option_of s = listed s.select_options
    where
      listed : Payload A → Option (List SelectOption)
      listed (docs ds) = some (map option_of ds)
      listed _ = none
