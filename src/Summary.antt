-- ===== src/Summary.antt =====
-- summary.js of backend/src/controllers/appControllers: what the dashboard shows of the invoices, the
-- payments, the quotes and the clients. The queries are MongoDB's aggregation pipelines, a parameter
-- with one operation for each stage that the pipelines use.
pub mod Invoices
pub mod Quotes
pub mod Clients
pub mod Due
pub mod Totals
use dev_ops_projet.Base.{
  ℕ, ℤ, pos, ◌+ℤ◌, ◌≡◌, String, str_eq, Bool, true, false, not, Option, none, some, List, [], ◌∷◌,
  length, includes, if◌then◌else◌,
}
use dev_ops_projet.Http.{Outcome, reply, text, of_period}
use dev_ops_projet.Mongo.{select}
use dev_ops_projet.Documents.{Payment}

-- The stages. `group_all` is `$group` with `_id: null`, which gives no group for no document, and
-- `group` is `$group` by a text; a group has its documents, over which `sum` and `count` are `$sum`
-- of a field and of 1. `sort_by` is `$sort` on a text, and `percentage` a rounded quotient of counts.
pub record Aggregation : Type 1 where
  pub matching : {A : Type 0} → (A → Bool) → List A → List A
  pub group_all : {A : Type 0} → List A → List (List A)
  pub group : {A : Type 0} → (A → String) → List A → List (String × List A)
  pub group_ids : {A : Type 0} → (A → ℕ) → List A → List (ℕ × List A)
  pub sum : {A : Type 0} → (A → ℤ) → List A → ℤ
  pub count : {A : Type 0} → List A → ℕ
  pub sort_by : {A : Type 0} → (A → String) → List A → List A
  pub percentage : ℕ → ℕ → ℕ

abbrev pub sum_by : {A : Type 0} → (A → ℤ) → List A → ℤ
sum_by f [] = pos 0
sum_by f (x ∷ xs) = f x +ℤ sum_by f xs

abbrev pub one_group : {A : Type 0} → List A → List (List A)
one_group [] = []
one_group (x ∷ xs) = (x ∷ xs) ∷ []

-- The documented behaviour of the stages: every document is in one group, and sums of cents are
-- exact. Nothing is said of the groups' order or of the percentages.
pub record IsAggregation (db : Aggregation) : Type 1 where
  pub matching_lem : (A : Type 0) (p : A → Bool) (xs : List A) → db.matching p xs ≡ select p xs
  pub group_all_lem : (A : Type 0) (xs : List A) → db.group_all xs ≡ one_group xs
  pub group_lem :
      (A : Type 0) (key : A → String) (f : A → ℤ) (xs : List A)
      → sum_by (λ g. sum_by f g.1) (db.group key xs) ≡ sum_by f xs
  pub sum_lem : (A : Type 0) (f : A → ℤ) (xs : List A) → db.sum f xs ≡ sum_by f xs
  pub count_lem : (A : Type 0) (xs : List A) → db.count xs ≡ length xs
  pub sort_by_lem :
      (A : Type 0) (key : A → String) (f : A → ℤ) (xs : List A)
      → sum_by f (db.sort_by key xs) ≡ sum_by f xs

-- `defaultType`, or nothing for the answer 400; an empty `type` is falsy.
unfoldable pub period_of : Option String → Option String
period_of none = some "month"
period_of (some type) =
    if str_eq type ""
    then some "month"
    else if includes ("week" ∷ "month" ∷ "year" ∷ []) type
    then some type
    else none

abbrev pub invalid_type : {R : Type 0} → Outcome R
invalid_type = reply 400 false none (text "Invalid type")

-- `finalResult` of paymentController: the count and the sum of the live payments. The settings that
-- the handler loads and the dates that it computes are not used.
pub record PaymentSummary : Type 0 where
  pub count : ℕ
  pub total : ℤ

unfoldable pub payment_summary : Aggregation → Option String → List Payment → Outcome PaymentSummary
payment_summary db type payments = elim (period_of type) [
  | none ↦ invalid_type
  | some period ↦
      let summarize : List Payment → PaymentSummary =
        λ g. record { count = db.count g; total = db.sum (λ p. p.amount) g } in
      let result : Option PaymentSummary =
        elim (db.group_all (db.matching (λ p. not p.removed) payments)) [
          | [] ↦ none
          | g ∷ gs ↦ some (summarize g)
        ] in
      reply 200 true
        (elim result [ none ↦ some (record { count = 0; total = pos 0 }) | some r ↦ some r ])
        (of_period "Successfully fetched the summary of payment invoices for the last " period)
]
