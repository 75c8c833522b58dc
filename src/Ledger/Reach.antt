-- ===== src/Ledger/Reach.antt =====
-- The invoice and payment requests as steps of the database, in any order and with any input but two,
-- each handler running to its end before the next: no new payment is given as removed, and every
-- update of a payment gives an amount, as the client's forms do.
use dev_ops_projet.Base.{ℕ, ℤ, ◌≡◌, ◌≢◌, Bool, true, some, [], All}
use dev_ops_projet.Mongo.{Mongoose}
use dev_ops_projet.Mongo.Laws.{IsMongoose}
use dev_ops_projet.Calculate.{Currency, IsCurrency}
use dev_ops_projet.Documents.{Invoice, Payment, Db}
use dev_ops_projet.Invoice.Create.{create as create_inv}
use dev_ops_projet.Invoice.Create.{InvoiceBody, Schema, IsSchema}
use dev_ops_projet.Invoice.Update.{update as update_inv}
use dev_ops_projet.Invoice.Remove.{remove as remove_inv}
use dev_ops_projet.Payment.Create.{create as create_pay}
use dev_ops_projet.Payment.Create.{PaymentBody}
use dev_ops_projet.Payment.Update.{update as update_pay}
use dev_ops_projet.Payment.Update.{PaymentChange}
use dev_ops_projet.Payment.Remove.{remove as remove_pay}
use dev_ops_projet.Ledger.Invariant.{IsConsistent}
use dev_ops_projet.Ledger.Invoices
use dev_ops_projet.Ledger.Invoices.{IsUnused}
use dev_ops_projet.Ledger.Payments
use dev_ops_projet.Ledger.Changes

abbrev pub empty_db : Db
empty_db = record { invoices = []; payments = []; quotes = []; settings = [] }

module _ (db : Mongoose) (c : Currency) (validate : Schema) (is_valid : Invoice → Bool)
    (is_valid_payment : Payment → Bool) where
  pub data Step (s : Db) : Db → Type 0 where
    create_invoice :
        (body : InvoiceBody) (admin id : ℕ)
        → IsUnused id s
        → Step s (create_inv db c validate is_valid body admin id s).1
    update_invoice : (body : InvoiceBody) (id : ℕ) → Step s (update_inv db c validate body id s).1
    remove_invoice : (id : ℕ) → Step s (remove_inv db id s).1
    create_payment :
        (body : PaymentBody) (admin id now : ℕ)
        → body.removed ≢ some true
        → All (λ p. p.id ≢ id) s.payments
        → Step s (create_pay db c is_valid_payment body admin id now s).1
    update_payment :
        (body : PaymentChange) (id now : ℕ) (a : ℤ)
        → body.amount ≡ some a
        → Step s (update_pay db c body id now s).1
    remove_payment : (id : ℕ) → Step s (remove_pay db id s).1

  pub data Reach (s : Db) : Db → Type 0 where
    here : Reach s s
    next : {t u : Db} → Reach s t → Step t u → Reach s u

  module _ (m : IsMongoose db) (h : IsCurrency c) (schema : IsSchema validate) where
    pub Step-IsConsistent : {s t : Db} → Step s t → IsConsistent s → IsConsistent t
    Step-IsConsistent {s} (create_invoice body admin id unused) v =
        Invoices.create_invoice-IsConsistent db c validate is_valid body admin id s m h schema
          unused v
    Step-IsConsistent {s} (update_invoice body id) v =
        Invoices.update_invoice-IsConsistent db c validate body id s m h schema v
    Step-IsConsistent {s} (remove_invoice id) v = Invoices.remove_invoice-IsConsistent db id s m v
    Step-IsConsistent {s} (create_payment body admin id now kept fresh) v =
        Payments.create_payment-IsConsistent db c is_valid_payment body admin id now s m h kept
          fresh v
    Step-IsConsistent {s} (update_payment body id now a given) v =
        Changes.update_payment-IsConsistent db c body id now a s m h given v
    Step-IsConsistent {s} (remove_payment id) v = Changes.remove_payment-IsConsistent db id s m v

    Reach-IsConsistent : {s t : Db} → IsConsistent s → Reach s t → IsConsistent t
    Reach-IsConsistent v here = v
    Reach-IsConsistent v (next r st) = Step-IsConsistent st (Reach-IsConsistent v r)

    -- After any sequence of invoice and payment requests from the empty database, in which no new
    -- payment is given as removed and every update of a payment gives an amount, ids are distinct,
    -- every live invoice's credit is the sum of its live payments, every payment status means what
    -- it says of credit and due, and no invoice has a discount.
    pub reachable-IsConsistent : (t : Db) → Reach empty_db t → IsConsistent t
    reachable-IsConsistent t r =
        Reach-IsConsistent
          (record {
            invoice_ids = tt;
            payment_ids = tt;
            balanced = tt;
            settled = tt;
            undiscounted = tt;
          })
          r
