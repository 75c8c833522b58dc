-- ===== src/Summary/Invoices.antt =====
-- backend/src/controllers/appControllers/invoiceController/summary.js.
use dev_ops_projet.Base.{
  ℕ, ℤ, pos, ◌-ℤ◌, String, str_eq, Bool, true, false, not, ◌&&◌, Option, none, some, List, [], ◌∷◌,
  ◌++◌, map, ltb,
}
use dev_ops_projet.Http.{Outcome, reply, of_period}
use dev_ops_projet.Mongo.{first}
use dev_ops_projet.Documents.{Invoice, PaymentStatus, unpaid, paid, partially}
use dev_ops_projet.Summary.{Aggregation, period_of, invalid_type}

-- An entry of `performance`.
pub record Entry : Type 0 where
  pub status : String
  pub count : ℕ
  pub percentage : ℕ

-- `finalResult`; a `total` that is undefined is none.
pub record InvoiceSummary : Type 0 where
  pub total : Option ℤ
  pub total_undue : ℤ
  pub type : Option String
  pub performance : List Entry

abbrev pub text_of : PaymentStatus → String
text_of unpaid = "unpaid"
text_of paid = "paid"
text_of partially = "partially"

-- `$in: ['unpaid', 'partially']`
abbrev pub is_undue : PaymentStatus → Bool
is_undue unpaid = true
is_undue paid = false
is_undue partially = true

abbrev pub statuses : List String
statuses = "draft" ∷ "pending" ∷ "overdue" ∷ "paid" ∷ "unpaid" ∷ "partially" ∷ []

-- `statuses.forEach`: the first entry of each status that has one.
abbrev pub found_of : List Entry → List String → List Entry
found_of entries [] = []
found_of entries (status ∷ rest) =
    let later = found_of entries rest in
    elim (first (λ e. str_eq e.status status) entries) [ none ↦ later | some e ↦ e ∷ later ]

module _ (db : Aggregation) where
  -- The counts of a facet by status, with the percentage of all live invoices.
  abbrev pub counts_by : (Invoice → String) → ℕ → List Invoice → List Entry
  counts_by status total_count live =
      map
        (λ g. record {
          status = g.0;
          count = db.count g.1;
          percentage = db.percentage (db.count g.1) total_count;
        })
        (db.group status live)

  -- `unpaid.length > 0 ? unpaid[0].total_amount : 0`
  abbrev pub total_amount : List (List Invoice) → ℤ
  total_amount [] = pos 0
  total_amount (g ∷ gs) = db.sum (λ d. d.total -ℤ d.credit) g

  -- `new Date()` is `now`. The status of an overdue entry is 'overdue'.
  unfoldable pub invoice_summary : Option String → ℕ → List Invoice → Outcome InvoiceSummary
  invoice_summary type now invoices = elim (period_of type) [
    | none ↦ invalid_type
    | some period ↦
        let live = db.matching (λ d. not d.removed) invoices in
        let groups = db.group_all live in
        let total_count : ℕ = elim groups [ [] ↦ 0 | g ∷ gs ↦ db.count g ] in
        let status_result = counts_by (λ d. d.status) total_count live in
        let payment_status_result = counts_by (λ d. text_of d.payment_status) total_count live in
        let overdue_result =
          map {A = Entry} (λ e. record e { status = "overdue" })
            (counts_by (λ d. d.status) total_count
              (db.matching (λ d. ltb d.expired_date now) live)) in
        let unpaid_groups =
          db.group_all (db.matching (λ d. not d.removed && is_undue d.payment_status) invoices) in
        reply 200 true
          (some (record {
            total = elim groups [ [] ↦ none | g ∷ gs ↦ some (db.sum (λ d. d.total) g) ];
            total_undue = total_amount unpaid_groups;
            type = type;
            performance =
                found_of (payment_status_result ++ status_result ++ overdue_result) statuses;
          }))
          (of_period "Successfully found all invoices for the last " period)
  ]
