-- ===== src/PaymentForms/Limits.antt =====
-- What the form for a new payment allows and what the server accepts.
use dev_ops_projet.Base.{
  ℕ, ◌≤◌, subst, ℤ, pos, ◌-ℤ◌, ◌≤ℤ◌, ◌≡◌, ap, ◌∙◌, ◌≢◌, ◌↔◌, Bool, true, some, arith, int_laws,
}
use dev_ops_projet.Http.{Outcome, Response, respond}
use dev_ops_projet.Mongo.{Mongoose, first}
use dev_ops_projet.Mongo.Laws.{IsMongoose}
use dev_ops_projet.Calculate.{Currency, IsCurrency}
use dev_ops_projet.Documents.{Invoice, Payment, Db}
use dev_ops_projet.Invoice.Update.{is_live}
use dev_ops_projet.Payment.Create.{new_payment, create}
use dev_ops_projet.Ledger.Limits.{Accepts, create-Accepts, create-Accepted}
use dev_ops_projet.PaymentForms.{PaymentFields, is_allowed, record_max_amount, record_on_submit}

-- An answer with the status 200.
abbrev pub IsAccepted : Outcome Payment → Type 0
IsAccepted o = (r : Response Payment) × (o ≡ respond r) × (r.status ≡ 200)

module _ (c : Currency) (h : IsCurrency c) where
  record_max_amount-due :
      (shown : ℤ) (d : Invoice)
      → record_max_amount c shown (some d) ≡ (d.total -ℤ d.discount) -ℤ d.credit
  unfolding record_max_amount
  record_max_amount-due shown d =
      h.subtract_lem (c.subtract d.total d.discount) d.credit
      ∙ ap (λ x. x -ℤ d.credit) (h.subtract_lem d.total d.discount)

  is_allowed-Accepts :
      (shown : ℤ) (d : Invoice) (fields : PaymentFields)
      → is_allowed (record_max_amount c shown (some d)) fields ≡ true
      → fields.amount ≢ pos 0
      → Accepts fields.amount d
  is_allowed-Accepts shown d fields allowed nonzero =
      let le : fields.amount ≤ℤ (d.total -ℤ d.discount) -ℤ d.credit =
        ground (arith, rw (record_max_amount-due shown d) at allowed) in
      (nonzero, omega int_laws)

  Accepts-is_allowed :
      (shown : ℤ) (d : Invoice) (fields : PaymentFields)
      → 1 ≤ fields.number
      → pos 0 ≤ℤ fields.amount
      → Accepts fields.amount d
      → is_allowed (record_max_amount c shown (some d)) fields ≡ true
  Accepts-is_allowed shown d fields numbered positive (_, within) =
      let le : fields.amount ≤ℤ (d.total -ℤ d.discount) -ℤ d.credit = omega int_laws in
      rw (record_max_amount-due shown d) (ground arith)

-- On a page that shows a live invoice as the server has it: a payment of an amount that is neither
-- negative nor zero, with a positive number, is accepted by the server exactly when the page's form
-- allows it, if the document made of it is valid.
pub record_on_submit-create :
    (db : Mongoose) (c : Currency) (is_valid : Payment → Bool) (d : Invoice)
    (fields : PaymentFields) (shown : ℤ) (admin id now : ℕ) (s : Db)
    → IsMongoose db
    → IsCurrency c
    → first (is_live d.id) s.invoices ≡ some d
    → 1 ≤ fields.number
    → pos 0 ≤ℤ fields.amount
    → fields.amount ≢ pos 0
    → is_valid (new_payment (record_on_submit d fields) admin id now) ≡ true
    → (is_allowed (record_max_amount c shown (some d)) fields ≡ true)
      ↔ IsAccepted (create db c is_valid (record_on_submit d fields) admin id now s).0
unfolding record_on_submit
record_on_submit-create db c is_valid d fields shown admin id now s m h found numbered positive
      nonzero ok =
    let body = record_on_submit d fields in
    (
      (λ allowed.
          create-Accepted db c is_valid body admin id now s m h d found
            (is_allowed-Accepts c h shown d fields allowed nonzero) ok),
      (λ (r, e, code). accepted (create-Accepts db c is_valid body admin id now s m h r e code)),
    )
  where
    accepted :
        (x : Invoice) × (first (is_live d.id) s.invoices ≡ some x) × Accepts fields.amount x
        → is_allowed (record_max_amount c shown (some d)) fields ≡ true
    accepted (x, e, accepts) =
        let same : x ≡ d = cc in
        Accepts-is_allowed c h shown d fields numbered positive
          (subst (λ y. Accepts fields.amount y) same accepts)
