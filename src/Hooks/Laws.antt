-- ===== src/Hooks/Laws.antt =====
-- How often useFetch sends its request, and what a select shows when its request fails.
use dev_ops_projet.Base.{
  ℕ, zero, suc, ◌≤◌, ◌≡◌, refl, ap, ◌∙◌, String, Bool, true, false, ◌||◌, Option, none, some, inl,
  inr, arith, Bool-cases, [],
}
use dev_ops_projet.Redux.{Payload, absent}
use dev_ops_projet.HttpClient.{Exchange, failed, Browser, include_token, error_handler}
use dev_ops_projet.HttpClient.Requests.{Sent, list, sent_by, perform}
use dev_ops_projet.Hooks.{
  Settled, rejected, fulfilled, Fetched, initial_fetched, fetch_data, use_fetch, SelectOption,
  initial_select, success_effect, options_list,
}

-- Whether a request came to a value.
abbrev pub has_value : {A : Type 0} → Settled A → Bool
has_value (fulfilled (some r)) = true
has_value _ = false

-- The result that a request comes to, or the one before.
abbrev pub value_of : {A : Type 0} → Settled A → Payload A → Payload A
value_of (fulfilled (some r)) before = r.result
value_of _ before = before

module _ {A : Type 0} where
  fetch_data-is_loading : (x : Settled A) (s : Fetched A) → (fetch_data x s).is_loading ≡ false
  unfolding fetch_data
  fetch_data-is_loading (rejected e) s = refl
  fetch_data-is_loading (fulfilled none) s = refl
  fetch_data-is_loading (fulfilled (some r)) s = refl

  fetch_data-is_success :
      (x : Settled A) (s : Fetched A) → (fetch_data x s).is_success ≡ (has_value x || s.is_success)
  unfolding fetch_data
  fetch_data-is_success (rejected e) s = refl
  fetch_data-is_success (fulfilled none) s = refl
  fetch_data-is_success (fulfilled (some r)) s = refl

  fetch_data-result :
      (x : Settled A) (s : Fetched A) → (fetch_data x s).result ≡ value_of x s.result
  unfolding fetch_data
  fetch_data-result (rejected e) s = refl
  fetch_data-result (fulfilled none) s = refl
  fetch_data-result (fulfilled (some r)) s = refl

  use_fetch-suc :
      (fuel : ℕ) (answers : ℕ → Settled A)
      → use_fetch (suc (suc (suc fuel))) answers 0 none initial_fetched
        ≡ some (fetch_data (answers 1) (fetch_data (answers 0) initial_fetched), 2)
  unfolding use_fetch fetch_data
  use_fetch-suc fuel answers =
      let first = fetch_data (answers 0) initial_fetched in
      rw
        (fetch_data-is_loading (answers 0) initial_fetched, fetch_data-is_loading (answers 1) first)
        refl

  -- Whatever its requests come to, the hook sends two of them and then rests: it is not loading, its
  -- result is that of the last request that came to a value, and it is successful exactly when one
  -- of the two did, be that value a failure of the server or not. Three renders with a changed
  -- dependency are enough.
  pub use_fetch-value_of :
      (answers : ℕ → Settled A) (fuel : ℕ)
      → 3 ≤ fuel
      → (s : Fetched A) × (use_fetch fuel answers 0 none initial_fetched ≡ some (s, 2))
        × (s.is_loading ≡ false)
        × (s.result ≡ value_of (answers 1) (value_of (answers 0) absent))
        × (s.is_success ≡ (has_value (answers 1) || has_value (answers 0)))
  use_fetch-value_of answers zero enough = absurd (omega arith)
  use_fetch-value_of answers (suc zero) enough = absurd (omega arith)
  use_fetch-value_of answers (suc (suc zero)) enough = absurd (omega arith)
  use_fetch-value_of answers (suc (suc (suc fuel))) enough =
      let first = fetch_data (answers 0) initial_fetched in
      (
        fetch_data (answers 1) first,
        use_fetch-suc fuel answers,
        fetch_data-is_loading (answers 1) first,
        fetch_data-result (answers 1) first
            ∙ ap (value_of (answers 1)) (fetch_data-result (answers 0) initial_fetched),
        fetch_data-is_success (answers 1) first
            ∙ ap (λ b. has_value (answers 1) || b)
                (fetch_data-is_success (answers 0) initial_fetched
                  ∙ ||-false (has_value (answers 0))),
      )
    where
      ||-false : (b : Bool) → (b || false) ≡ b
      ||-false true = refl
      ||-false false = refl

-- If a select's request for its options gets no response, its hook takes that for a success with the
-- result null, and the rendering of the options throws.
pub options_list-failed :
    {J T A : Type 0} (send : Sent J → Option T → Exchange A) (entity : String) (b c : Browser T)
    (option_of : A → SelectOption)
    → include_token b ≡ some c
    → send (sent_by (list entity [])) c.authorization ≡ failed none
    → options_list option_of (
        success_effect
          (fetch_data (fulfilled (perform send (list entity []) b).0) initial_fetched)
          initial_select)
      ≡ none
unfolding perform error_handler fetch_data success_effect options_list
options_list-failed send entity b c option_of started lost = elim (Bool-cases c.online) [
  | inl on ↦ rw (perform, started, lost, on) refl
  | inr off ↦ rw (perform, started, lost, off) refl
]
