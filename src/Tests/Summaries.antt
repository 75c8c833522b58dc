-- ===== src/Tests/Summaries.antt =====
-- Aggregations that behave as documented, and the summaries of small collections.
use dev_ops_projet.Base.{
  ℤ, pos, ◌+ℤ◌, ◌≡◌, refl, ap, ◌∙◌, str_eq, Bool, true, false, not, none, some, inl, inr, List, [],
  ◌∷◌, includes, length, All, if◌then◌else◌, ◌==◌, ◌*◌, ◌/◌, int_laws, +ℤ_assoc, Bool-cases,
}
use dev_ops_projet.Mongo.{select}
use dev_ops_projet.Calculate.{of_cents}
use dev_ops_projet.Documents.{Quote}
use dev_ops_projet.Summary.{Aggregation, IsAggregation, sum_by, one_group, period_of}
use dev_ops_projet.Summary.Invoices.{invoice_summary}
use dev_ops_projet.Summary.Due.{total_undue_of, due, invoice_summary-due}
use dev_ops_projet.Summary.Quotes.{QuoteSummary, quote_statuses, quote_summary}
use dev_ops_projet.Summary.Totals.{quotes_of, lists, quote_summary-totals}
use dev_ops_projet.Tests.Ledger.{with_payment, with_payment-IsConsistent}

module _ {A K : Type 0} (same : K → K → Bool) where
  abbrev pub join : K → A → List (K × List A) → List (K × List A)
  join k x [] = (k, x ∷ []) ∷ []
  join k x ((j, ys) ∷ gs) =
      let rest = join k x gs in if same j k then (j, x ∷ ys) ∷ gs else (j, ys) ∷ rest

  abbrev pub grouped : (A → K) → List A → List (K × List A)
  grouped key [] = []
  grouped key (x ∷ xs) = join (key x) x (grouped key xs)

  sum-join :
      (f : A → ℤ) (k : K) (x : A) (gs : List (K × List A))
      → sum_by (λ g. sum_by f g.1) (join k x gs) ≡ f x +ℤ sum_by (λ g. sum_by f g.1) gs
  sum-join f k x [] = omega int_laws
  sum-join f k x ((j, ys) ∷ gs) = elim (Bool-cases (same j k)) [
    | inl e ↦ rw e (+ℤ_assoc (f x) _ _)
    | inr e ↦ rw e (
        ap (λ s. sum_by f ys +ℤ s) (sum-join f k x gs)
        ∙ swap (sum_by f ys) (f x) (sum_by (λ g. sum_by f g.1) gs))
  ]
    where
      swap : (a b c : ℤ) → a +ℤ (b +ℤ c) ≡ b +ℤ (a +ℤ c)
      swap a b c = omega int_laws

  sum-grouped :
      (key : A → K) (f : A → ℤ) (xs : List A)
      → sum_by (λ g. sum_by f g.1) (grouped key xs) ≡ sum_by f xs
  sum-grouped key f [] = refl
  sum-grouped key f (x ∷ xs) =
      sum-join f (key x) x (grouped key xs) ∙ ap (λ s. f x +ℤ s) (sum-grouped key f xs)

abbrev pub pipelines : Aggregation
pipelines = record {
  matching = select;
  group_all = one_group;
  group = grouped str_eq;
  group_ids = grouped ◌==◌;
  sum = sum_by;
  count = length;
  sort_by = λ key xs. xs;
  percentage = λ n total. n * 100 / total;
}

pub pipelines-IsAggregation : IsAggregation pipelines
pipelines-IsAggregation = record {
  matching_lem = λ A p xs. refl;
  group_all_lem = λ A xs. refl;
  group_lem = λ A key f xs. sum-grouped str_eq key f xs;
  sum_lem = λ A f xs. refl;
  count_lem = λ A xs. refl;
  sort_by_lem = λ A key f xs. refl;
}

pub year-period : period_of (some "year") ≡ some "year"
unfolding period_of includes
year-period = refl

due_example :
    total_undue_of (invoice_summary pipelines (some "year") 30 with_payment.invoices)
    ≡ some (due with_payment.payments with_payment.invoices)
due_example =
    invoice_summary-due pipelines (some "year") 30 with_payment pipelines-IsAggregation
      with_payment-IsConsistent "year" year-period

abbrev pub quote : Quote
quote = record {
  id = 1;
  removed = false;
  created_by = 7;
  number = 1;
  year = 2024;
  date = 10;
  expired_date = 20;
  client = 5;
  items = [];
  tax_rate = of_cents (pos 0);
  sub_total = pos 500;
  tax_total = pos 0;
  total = pos 500;
  credit = pos 0;
  currency = "NA";
  discount = pos 0;
  notes = none;
  status = "sent";
  pdf = none;
}

abbrev pub quotes : List Quote
quotes = quote ∷ record quote { id = 2; status = "draft"; total = pos 300 } ∷ []

quotes_example :
    (r : QuoteSummary) × (quotes_of (quote_summary pipelines (some "year") quotes) ≡ some r)
    × (r.total ≡ sum_by (λ q. q.total) (select (λ q. not q.removed) quotes))
    × All (λ st. lists r.performance st ≡ true) quote_statuses
quotes_example =
    quote_summary-totals pipelines (some "year") quotes pipelines-IsAggregation "year" year-period
