-- ===== src/Summary/Quotes.antt =====
-- backend/src/controllers/appControllers/quoteController/summary.js.
use dev_ops_projet.Base.{
  ℕ, ℤ, pos, ◌+◌, ◌+ℤ◌, String, str_eq, true, not, Option, none, some, List, [], ◌∷◌, ◌++◌, map,
}
use dev_ops_projet.Http.{Outcome, reply, of_period}
use dev_ops_projet.Mongo.{first}
use dev_ops_projet.Documents.{Quote}
use dev_ops_projet.Summary.{Aggregation, period_of, invalid_type}

-- An entry of `performance`.
pub record QuoteEntry : Type 0 where
  pub status : String
  pub count : ℕ
  pub percentage : ℕ
  pub total_amount : ℤ

pub record QuoteSummary : Type 0 where
  pub total : ℤ
  pub type : String
  pub performance : List QuoteEntry

abbrev pub quote_statuses : List String
quote_statuses = "draft" ∷ "pending" ∷ "sent" ∷ "expired" ∷ "declined" ∷ "accepted" ∷ []

-- `statuses.forEach`: an entry of zeros for each status that has none.
abbrev pub fill : List String → List QuoteEntry → List QuoteEntry
fill [] result = result
fill (status ∷ rest) result = elim (first (λ e. str_eq e.status status) result) [
  | some e ↦ fill rest result
  | none ↦
      fill rest
        (result ++ record { status = status; count = 0; percentage = 0; total_amount = pos 0 } ∷ [])
]

-- `result.reduce((acc, item) => acc + item.total_amount, 0)`
abbrev pub total_from : ℤ → List QuoteEntry → ℤ
total_from acc [] = acc
total_from acc (item ∷ rest) = total_from (acc +ℤ item.total_amount) rest

abbrev pub sum_counts : List (String × List Quote) → (List Quote → ℕ) → ℕ
sum_counts [] count = 0
sum_counts (g ∷ gs) count = count g.1 + sum_counts gs count

-- The second `$group` and `$unwind` give every group the sum of all counts.
module _ (db : Aggregation) where
  abbrev pub quote_entries : List Quote → List QuoteEntry
  quote_entries live =
      let groups = db.group (λ q. q.status) live in
      let total_count = sum_counts groups (λ g. db.count g) in
      db.sort_by (λ e. e.status)
        (map
          (λ g. record {
            status = g.0;
            count = db.count g.1;
            percentage = db.percentage (db.count g.1) total_count;
            total_amount = db.sum (λ q. q.total) g.1;
          })
          groups)

  unfoldable pub quote_summary : Option String → List Quote → Outcome QuoteSummary
  quote_summary type quotes = elim (period_of type) [
    | none ↦ invalid_type
    | some period ↦
        let result =
          fill quote_statuses (quote_entries (db.matching (λ q. not q.removed) quotes)) in
        reply 200 true
          (some (record { total = total_from (pos 0) result; type = period; performance = result }))
          (of_period "Successfully found all Quotations for the last " period)
  ]
