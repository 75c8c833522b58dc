-- ===== src/Summary/Due.antt =====
-- What the summary of the invoices shows as due, against the ledger.
use dev_ops_projet.Base.{
  ℕ, ℤ, pos, ◌-ℤ◌, ◌≡◌, refl, sym, ap, ◌∙◌, String, Bool, not, ◌&&◌, Option, none, some, inl, inr,
  List, [], ◌∷◌, All, Bool-cases, if◌then◌else◌, int_laws,
}
use dev_ops_projet.Http.{Outcome, respond, throw, unhandled}
use dev_ops_projet.Mongo.{select}
use dev_ops_projet.Documents.{Invoice, Payment, PaymentStatus, unpaid, paid, partially, Db}
use dev_ops_projet.Ledger.{IsBalanced, IsSettled, IsConsistent}
use dev_ops_projet.Ledger.Credits.{credits}
use dev_ops_projet.Ledger.Status.{Means}
use dev_ops_projet.Summary.{Aggregation, IsAggregation, sum_by, period_of}
use dev_ops_projet.Summary.Invoices.{InvoiceSummary, total_amount, is_undue, invoice_summary}

abbrev pub total_undue_of : Outcome InvoiceSummary → Option ℤ
total_undue_of (respond r) = elim r.result [ none ↦ none | some x ↦ some x.total_undue ]
total_undue_of (throw e) = none
total_undue_of (unhandled e) = none

-- Independent of the query: what the live invoices come to, less what their live payments add up to.
abbrev pub due : List Payment → List Invoice → ℤ
due ps ds = sum_by (λ d. if d.removed then pos 0 else d.total -ℤ credits d.id ps) ds

module _ (db : Aggregation) (h : IsAggregation db) where
  total_amount-sum :
      (xs : List Invoice) → total_amount db (db.group_all xs) ≡ sum_by (λ d. d.total -ℤ d.credit) xs
  total_amount-sum [] = rw (h.group_all_lem Invoice []) refl
  total_amount-sum (x ∷ xs) =
      rw (h.group_all_lem Invoice (x ∷ xs)) (h.sum_lem Invoice (λ d. d.total -ℤ d.credit) (x ∷ xs))

sum_by-select :
    {A : Type 0} (f : A → ℤ) (p : A → Bool) (xs : List A)
    → sum_by f (select p xs) ≡ sum_by (λ x. if p x then f x else pos 0) xs
sum_by-select f p [] = refl
sum_by-select f p (x ∷ xs) = elim (Bool-cases (p x)) [
  | inl e ↦ rw (e, sum_by-select f p xs)
  | inr e ↦ rw (e, sum_by-select f p xs) (omega int_laws)
]

-- A paid invoice of a consistent database has nothing left to pay, so leaving it out changes nothing.
undue_one :
    (status : PaymentStatus) (total discount credit payments : ℤ)
    → Means status (total -ℤ discount) credit
    → discount ≡ pos 0
    → credit ≡ payments
    → (if is_undue status then total -ℤ credit else pos 0) ≡ total -ℤ payments
undue_one unpaid total discount credit payments m u b = ap (λ x. total -ℤ x) b
undue_one paid total discount credit payments m u b =
    let e : payments ≡ total -ℤ pos 0 = sym b ∙ m ∙ ap (λ x. total -ℤ x) u in rw e (omega int_laws)
undue_one partially total discount credit payments m u b = ap (λ x. total -ℤ x) b

undue-due :
    (ps : List Payment) (ds : List Invoice)
    → All (IsBalanced ps) ds
    → All IsSettled ds
    → All (λ d. d.discount ≡ pos 0) ds
    → sum_by
        (λ d. if not d.removed && is_undue d.payment_status then d.total -ℤ d.credit else pos 0)
        ds
      ≡ due ps ds
undue-due ps [] _ _ _ = refl
undue-due ps (d ∷ ds) (b, bs) (m, ms) (u, us) =
    let rest = undue-due ps ds bs ms us in
    elim (Bool-cases d.removed) [
      | inl gone ↦ rw (gone, rest) refl
      | inr here ↦
          let one =
            undue_one d.payment_status d.total d.discount d.credit (credits d.id ps) m u (b here) in
          rw (here, rest, one) refl
    ]

-- In a consistent database, for a type that the handler takes, the summary of the invoices is
-- answered with a result whose `total_undue` is what all live invoices come to less what all their
-- live payments add up to, though the query leaves the paid invoices out.
pub invoice_summary-due :
    (db : Aggregation) (type : Option String) (now : ℕ) (s : Db)
    → IsAggregation db
    → IsConsistent s
    → (period : String) → period_of type ≡ some period
    → total_undue_of (invoice_summary db type now s.invoices) ≡ some (due s.payments s.invoices)
unfolding invoice_summary
invoice_summary-due db type now s h k period ok =
    let p : Invoice → Bool = λ d. not d.removed && is_undue d.payment_status in
    let total : total_amount db (db.group_all (db.matching p s.invoices))
        ≡ due s.payments s.invoices =
      total_amount-sum db h (db.matching p s.invoices)
      ∙ ap (sum_by (λ d. d.total -ℤ d.credit)) (h.matching_lem Invoice p s.invoices)
      ∙ sum_by-select (λ d. d.total -ℤ d.credit) p s.invoices
      ∙ undue-due s.payments s.invoices k.balanced k.settled k.undiscounted in
    rw (invoice_summary, ok) (ap some total)
