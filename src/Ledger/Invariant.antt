-- ===== src/Ledger/Invariant.antt =====
-- Consistency of invoices with payments: paymentController and invoiceController share these fields.
use dev_ops_projet.Base.{◌≡◌, ◌-ℤ◌, false, pos, List, All}
use dev_ops_projet.Documents.{Invoice, Payment, Db}
use dev_ops_projet.Mongo.Keys.{Distinct}
use dev_ops_projet.Ledger.Credits.{credits}
use dev_ops_projet.Ledger.Status.{Means}

-- The credit of an invoice that is not removed is what its live payments add up to.
abbrev pub IsBalanced : List Payment → Invoice → Type 0
IsBalanced ps d = d.removed ≡ false → d.credit ≡ credits d.id ps

-- The payment status tells how the credit stands to what is due.
abbrev pub IsSettled : Invoice → Type 0
IsSettled d = Means d.payment_status (d.total -ℤ d.discount) d.credit

pub record IsConsistent (s : Db) : Type 0 where
  pub invoice_ids : Distinct (λ d. d.id) s.invoices
  pub payment_ids : Distinct (λ p. p.id) s.payments
  pub balanced : All (IsBalanced s.payments) s.invoices
  pub settled : All IsSettled s.invoices
  pub undiscounted : All (λ d. d.discount ≡ pos 0) s.invoices
