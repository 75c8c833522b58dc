-- ===== src/Dashboard/Percentages.antt =====
-- What the card of the quotes shows of the server's summary.
use dev_ops_projet.Base.{
  ◌≡◌, refl, ap, ◌∙◌, String, str_eq, false, not, Option, some, inl, inr, List, [], ◌∷◌, map,
  Bool-cases, eq_iff,
}
use mathlib.Core.Path.{ap₂}
use dev_ops_projet.Mongo.{select}
use dev_ops_projet.Documents.{Quote}
use dev_ops_projet.Summary.{Aggregation, IsAggregation, period_of}
use dev_ops_projet.Summary.Quotes.{
  QuoteEntry, QuoteSummary, quote_statuses, fill, quote_entries, quote_summary,
}
use dev_ops_projet.Summary.Totals.{quotes_of}
use dev_ops_projet.Dashboard.Groups.{
  IsGrouping, found_in, percentage_in, fill-percentage, share, entries-share,
}
use dev_ops_projet.Dashboard.{zero_stat, statistics_of, matched, statistics_map}

-- A row of the card has its own tag, and the percentage of the first item with it.
matched-percentage :
    (t : String) (items : List QuoteEntry)
    → matched (map (λ e. record { tag = e.status; value = e.percentage }) items) (zero_stat t)
      ≡ record { tag = t; value = percentage_in (found_in t items) }
matched-percentage t [] = refl
matched-percentage t (x ∷ xs) = elim (Bool-cases (str_eq x.status t)) [
  | inl s ↦
      let same : x.status ≡ t = (eq_iff x.status t).0 s in
      rw (matched, s) (ap (λ u. record { tag = u; value = x.percentage }) same)
  | inr s ↦ rw (matched, s) (matched-percentage t xs)
]

module _ (db : Aggregation) (h : IsAggregation db) (k : IsGrouping db) (live : List Quote) where
  abbrev items : List QuoteEntry
  items = fill quote_statuses (quote_entries db live)

  rows :
      (ts : List String)
      → map
          (matched (map (λ e. record { tag = e.status; value = e.percentage }) items))
          (map zero_stat ts)
        ≡ map (λ t. record { tag = t; value = share db t live }) ts
  rows [] = refl
  rows (t ∷ ts) =
      ap₂ (λ x xs. x ∷ xs)
        (matched-percentage t items
          ∙ ap (λ n. record { tag = t; value = n })
              (fill-percentage t quote_statuses (quote_entries db live)
                ∙ entries-share db h k t live))
        (rows ts)

-- The statuses of the card, in its order.
abbrev pub card_tags : List String
card_tags = "draft" ∷ "pending" ∷ "sent" ∷ "accepted" ∷ "declined" ∷ "expired" ∷ []

-- For a type that the handler takes, the quotes' card shows of the server's answer, once it is
-- there, each of the six statuses with the rounded share of the live quotes that have it, 0 where
-- none has. The pipelines' stages do as documented.
pub quote_summary-statistics_map :
    (db : Aggregation) (type : Option String) (quotes : List Quote)
    → IsAggregation db
    → IsGrouping db
    → (period : String) → period_of type ≡ some period
    → (r : QuoteSummary) × (quotes_of (quote_summary db type quotes) ≡ some r)
      × (statistics_map "quote"
            (statistics_of (λ e. e.status) (λ e. e.percentage) false (some r.performance))
          ≡ map
              (λ t. record { tag = t; value = share db t (select (λ q. not q.removed) quotes) })
              card_tags)
unfolding quote_summary statistics_map statistics_of
quote_summary-statistics_map db type quotes h k period ok =
    rw (quote_summary, ok, h.matching_lem Quote (λ q. not q.removed) quotes)
      (_, refl, rows db h k (select (λ q. not q.removed) quotes) card_tags)
