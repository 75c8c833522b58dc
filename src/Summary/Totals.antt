-- ===== src/Summary/Totals.antt =====
-- What the summary of the quotes adds up to, and the statuses that it lists.
use dev_ops_projet.Base.{
  ℕ, ℤ, pos, ◌+ℤ◌, ◌≡◌, refl, sym, subst, ap, ◌∙◌, String, str_eq, Bool, true, false, not, ◌||◌,
  Option, none, some, inl, inr, List, [], ◌∷◌, ◌++◌, map, arith, All, Bool-cases, Option-cases,
  int_laws, eq_iff, +ℤ_assoc,
}
use dev_ops_projet.Http.{Outcome, respond, throw, unhandled}
use dev_ops_projet.Mongo.{first, select}
use dev_ops_projet.Documents.{Quote}
use dev_ops_projet.Summary.{Aggregation, IsAggregation, sum_by, period_of}
use dev_ops_projet.Summary.Quotes.{
  QuoteEntry, QuoteSummary, quote_statuses, fill, total_from, quote_entries, quote_summary,
}

module _ (db : Aggregation) (h : IsAggregation db) where
  sum_entries :
      (n : ℕ) (gs : List (String × List Quote))
      → sum_by {A = QuoteEntry}
          (λ e. e.total_amount)
          (map
            (λ g. record {
              status = g.0;
              count = db.count g.1;
              percentage = db.percentage (db.count g.1) n;
              total_amount = db.sum (λ q. q.total) g.1;
            })
            gs)
        ≡ sum_by (λ g. sum_by (λ q. q.total) g.1) gs
  sum_entries n [] = refl
  sum_entries n (g ∷ gs) = rw (h.sum_lem Quote (λ q. q.total) g.1, sum_entries n gs)

  quote_entries-sum :
      (live : List Quote)
      → sum_by (λ e. e.total_amount) (quote_entries db live) ≡ sum_by (λ q. q.total) live
  quote_entries-sum live =
      h.sort_by_lem QuoteEntry _ (λ e. e.total_amount) _
      ∙ sum_entries _ (db.group (λ q. q.status) live)
      ∙ h.group_lem Quote (λ q. q.status) (λ q. q.total) live

total_from-sum :
    (acc : ℤ) (xs : List QuoteEntry) → total_from acc xs ≡ acc +ℤ sum_by (λ e. e.total_amount) xs
total_from-sum acc [] = omega int_laws
total_from-sum acc (x ∷ xs) = total_from-sum (acc +ℤ x.total_amount) xs ∙ +ℤ_assoc acc _ _

sum_by-snoc :
    {A : Type 0} (f : A → ℤ) (xs : List A) (y : A)
    → f y ≡ pos 0
    → sum_by f (xs ++ y ∷ []) ≡ sum_by f xs
sum_by-snoc f [] y e = rw e (omega int_laws)
sum_by-snoc f (x ∷ xs) y e = ap (λ s. f x +ℤ s) (sum_by-snoc f xs y e)

abbrev zeros : String → QuoteEntry
zeros st = record { status = st; count = 0; percentage = 0; total_amount = pos 0 }

abbrev found_in : List QuoteEntry → String → Option QuoteEntry
found_in xs st = first (λ e. str_eq e.status st) xs

module _ (st : String) (sts : List String) (xs : List QuoteEntry) where
  fill-missing : found_in xs st ≡ none → fill (st ∷ sts) xs ≡ fill sts (xs ++ zeros st ∷ [])
  fill-missing e = rw (fill, e) refl

  fill-present : (e : QuoteEntry) → found_in xs st ≡ some e → fill (st ∷ sts) xs ≡ fill sts xs
  fill-present _ e = rw (fill, e) refl

fill-sum :
    (sts : List String) (xs : List QuoteEntry)
    → sum_by (λ e. e.total_amount) (fill sts xs) ≡ sum_by (λ e. e.total_amount) xs
fill-sum [] xs = refl
fill-sum (st ∷ sts) xs = elim (Option-cases (found_in xs st)) [
  | inl none_yet ↦
      ap (sum_by (λ e. e.total_amount)) (fill-missing st sts xs none_yet)
      ∙ fill-sum sts _
      ∙ sum_by-snoc (λ e. e.total_amount) xs _ refl
  | inr (e, found) ↦
      ap (sum_by (λ e. e.total_amount)) (fill-present st sts xs e found) ∙ fill-sum sts xs
]

-- Whether `performance` has an entry of that status.
abbrev pub lists : List QuoteEntry → String → Bool
lists [] st = false
lists (e ∷ es) st = str_eq e.status st || lists es st

lists-snoc :
    (xs : List QuoteEntry) (y : QuoteEntry) (st : String)
    → lists (xs ++ y ∷ []) st ≡ (lists xs st || str_eq y.status st)
lists-snoc [] y st = ground arith
lists-snoc (x ∷ xs) y st = ground (arith, lists-snoc xs y st)

lists-fill :
    (sts : List String) (xs : List QuoteEntry) (st : String)
    → lists xs st ≡ true
    → lists (fill sts xs) st ≡ true
lists-fill [] xs st l = l
lists-fill (t ∷ sts) xs st l = elim (Option-cases (found_in xs t)) [
  | inl none_yet ↦
      let kept : lists (xs ++ zeros t ∷ []) st ≡ true =
        ground (arith, lists-snoc xs (zeros t) st, l) in
      ap (λ ys. lists ys st) (fill-missing t sts xs none_yet) ∙ lists-fill sts _ st kept
  | inr (e, found) ↦ ap (λ ys. lists ys st) (fill-present t sts xs e found) ∙ lists-fill sts xs st l
]

lists-found :
    (xs : List QuoteEntry) (st : String) (e : QuoteEntry)
    → first (λ e. str_eq e.status st) xs ≡ some e
    → lists xs st ≡ true
lists-found [] st e f = cc
lists-found (x ∷ xs) st e f = elim (Bool-cases (str_eq x.status st)) [
  | inl t ↦ rw t refl
  | inr t ↦ rw t (lists-found xs st e (rw t at f))
]

fill-lists :
    (sts : List String) (xs : List QuoteEntry) → All (λ st. lists (fill sts xs) st ≡ true) sts
fill-lists [] xs = tt
fill-lists (st ∷ sts) xs = elim (Option-cases (found_in xs st)) [
  | inl none_yet ↦
      let same : str_eq st st ≡ true = (eq_iff st st).1 refl in
      let added : lists (xs ++ zeros st ∷ []) st ≡ true =
        ground (arith, lists-snoc xs (zeros st) st, same) in
      let filled = fill-lists sts (xs ++ zeros st ∷ []) in
      subst (λ ys. All (λ t. lists ys t ≡ true) (st ∷ sts)) (sym (fill-missing st sts xs none_yet))
        (lists-fill sts _ st added, filled)
  | inr (e, found) ↦
      subst (λ ys. All (λ t. lists ys t ≡ true) (st ∷ sts)) (sym (fill-present st sts xs e found))
        (lists-fill sts xs st (lists-found xs st e found), fill-lists sts xs)
]

abbrev pub quotes_of : Outcome QuoteSummary → Option QuoteSummary
quotes_of (respond r) = r.result
quotes_of (throw e) = none
quotes_of (unhandled e) = none

-- For a type that the handler takes, the summary of the quotes is answered with a result whose total
-- is the sum of the totals of the live quotes, over whatever statuses they have, and whose list has
-- an entry for each of the six statuses.
pub quote_summary-totals :
    (db : Aggregation) (type : Option String) (quotes : List Quote)
    → IsAggregation db
    → (period : String) → period_of type ≡ some period
    → (r : QuoteSummary) × (quotes_of (quote_summary db type quotes) ≡ some r)
      × (r.total ≡ sum_by (λ q. q.total) (select (λ q. not q.removed) quotes))
      × All (λ st. lists r.performance st ≡ true) quote_statuses
unfolding quote_summary
quote_summary-totals db type quotes h period ok =
    let live = db.matching (λ q. not q.removed) quotes in
    let entries = quote_entries db live in
    let total =
      total_from-sum (pos 0) (fill quote_statuses entries)
      ∙ zero_left _
      ∙ fill-sum quote_statuses entries
      ∙ quote_entries-sum db h live
      ∙ ap (sum_by (λ q. q.total)) (h.matching_lem Quote (λ q. not q.removed) quotes) in
    rw (quote_summary, ok) (_, refl, total, fill-lists quote_statuses entries)
  where
    zero_left : (a : ℤ) → pos 0 +ℤ a ≡ a
    zero_left a = omega int_laws
