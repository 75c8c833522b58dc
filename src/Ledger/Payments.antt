-- ===== src/Ledger/Payments.antt =====
-- paymentController keeps the ledger consistent: create.js, update.js and remove.js.
use dev_ops_projet.Base.{
  ℕ, ℤ, pos, ◌+ℤ◌, ◌≡◌, refl, ◌∙◌, ap, ◌≢◌, Bool, true, not, ◌&&◌, some, ◌∷◌, ◌++◌, arith, All,
  +ℤ_zero, ◌==◌, ◌==ℤ◌, Bool-cases, Option-cases, inl, inr, ltb_ℤ, [],
}
use dev_ops_projet.Mongo.{Mongoose, in_memory, first, update_first}
use dev_ops_projet.Mongo.Laws.{IsMongoose, eq-in_memory}
use dev_ops_projet.Calculate.{Currency, IsCurrency, sub}
use dev_ops_projet.Documents.{Invoice, Payment, PaymentStatus, Db}
use dev_ops_projet.Invoice.Update.{is_live}
use dev_ops_projet.Payment.Create.{
  PaymentBody, new_payment, status_after_payment, create, credit_invoice,
}
use dev_ops_projet.Mongo.Keys.{Distinct-snoc, update_first_same}
use dev_ops_projet.Ledger.Credits.{share, credits, credits-snoc}
use dev_ops_projet.Ledger.Status.{status_after_payment-choose}
use dev_ops_projet.Ledger.Invariant.{IsConsistent}
use dev_ops_projet.Ledger.Writes.{IsCredit, credit-IsConsistent}

is_live-fixes : (k : ℕ) (d : Invoice) → is_live k d ≡ true → d.id ≡ k
is_live-fixes k d e = ground arith

credit_invoice-IsCredit :
    (id : ℕ) (a : ℤ) (t : PaymentStatus) → IsCredit (credit_invoice id a t) a t
credit_invoice-IsCredit id a t = record {
  id = λ d. refl;
  removed = λ d. refl;
  total = λ d. refl;
  discount = λ d. refl;
  credit = λ d. refl;
  payment_status = λ d. refl;
}

share_new :
    (body : PaymentBody) (admin id now : ℕ)
    → body.removed ≢ some true
    → share body.invoice (new_payment body admin id now) ≡ body.amount
share_new body admin id now kept = ground arith

share_other :
    (body : PaymentBody) (admin id now j : ℕ)
    → j ≢ body.invoice
    → share j (new_payment body admin id now) ≡ pos 0
share_other body admin id now j ne = ground arith

module _ (c : Currency) (h : IsCurrency c) (body : PaymentBody) (admin id now : ℕ) (s : Db)
    (kept : body.removed ≢ some true) (fresh : All (λ p. p.id ≢ id) s.payments)
    (v : IsConsistent s) where
  -- The two writes of `create`, as one.
  paid_in :
      (d : Invoice)
      → first (is_live body.invoice) s.invoices ≡ some d
      → IsConsistent (record s {
        invoices =
            update_first
              (λ x. x.id == body.invoice)
              (credit_invoice id body.amount
                (status_after_payment c d.total d.discount d.credit body.amount))
              s.invoices;
        payments = s.payments ++ new_payment body admin id now ∷ [];
      })
  paid_in d found =
      let p = new_payment body admin id now in
      rw (status_after_payment-choose c h d.total d.discount d.credit body.amount) (
        credit-IsConsistent s body.invoice body.amount d _ (is_live body.invoice)
          (s.payments ++ p ∷ []) v (is_live-fixes body.invoice) found
          (credit_invoice-IsCredit id body.amount _)
          (Distinct-snoc (λ q. q.id) s.payments p fresh v.payment_ids)
          (credits-snoc body.invoice s.payments p
            ∙ ap (λ a. credits body.invoice s.payments +ℤ a) (share_new body admin id now kept))
          (λ j ne.
            credits-snoc j s.payments p
            ∙ ap (λ a. credits j s.payments +ℤ a) (share_other body admin id now j ne)
            ∙ +ℤ_zero _))

  create-in_memory :
      (is_valid : Payment → Bool) → IsConsistent (create in_memory c is_valid body admin id now s).1
  unfolding create
  create-in_memory is_valid = elim (Bool-cases (body.amount ==ℤ pos 0)) [
    | inl e ↦ rw (e, create) v
    | inr e ↦ elim (Option-cases (first (is_live body.invoice) s.invoices)) [
      | inl missing ↦ rw (e, create, missing) v
      | inr (d, found) ↦
          let max = sub c (sub c d.total d.discount) d.credit in
          let valid = is_valid (new_payment body admin id now) in
          elim (Bool-cases (ltb_ℤ max body.amount)) [
            | inl over ↦ rw (e, create, found, over) v
            | inr fits ↦ elim (Bool-cases valid) [
              | inl ok ↦
                  rw (e, create, found, fits, ok)
                    (rw
                      (update_first_same {A = Payment} (λ p. p.id == id && not p.removed) (λ p. p) _
                        (λ p. refl))
                      (paid_in d found))
              | inr bad ↦ rw (e, create, found, fits, bad) v
            ]
          ]
    ]
  ]

-- Whatever it answers, the creation of a payment keeps the ledger consistent, if its body does not
-- remove it, no payment has the new document's id, and mongoose and currency.js do as documented.
pub create_payment-IsConsistent :
    (db : Mongoose) (c : Currency) (is_valid : Payment → Bool) (body : PaymentBody)
    (admin id now : ℕ) (s : Db)
    → IsMongoose db
    → IsCurrency c
    → body.removed ≢ some true
    → All (λ p. p.id ≢ id) s.payments
    → IsConsistent s
    → IsConsistent (create db c is_valid body admin id now s).1
create_payment-IsConsistent db c is_valid body admin id now s m h kept fresh v =
    rw (eq-in_memory m) (create-in_memory c h body admin id now s kept fresh v is_valid)
