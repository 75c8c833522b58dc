-- ===== src/Ledger/Limits.antt =====
-- What paymentController accepts, and that a refused payment changes nothing: create.js, update.js.
use dev_ops_projet.Base.{
  ℕ, ℤ, pos, ◌+ℤ◌, ◌-ℤ◌, ◌≡◌, refl, sym, ◌∙◌, ◌≢◌, ◌⊎◌, Bool, true, false, none, some, ap, arith,
  ◌==ℤ◌, ==ℤ_iff, Bool-cases, Option-cases, inl, inr, ltb_ℤ, int_laws, ◌≤ℤ◌,
}
use dev_ops_projet.Http.{Outcome, respond, reply, Response, Message}
use dev_ops_projet.Mongo.{Mongoose, first}
use dev_ops_projet.Mongo.Laws.{IsMongoose}
use dev_ops_projet.Calculate.{Currency, IsCurrency, sub}
use dev_ops_projet.Documents.{Invoice, Payment, Db}
use dev_ops_projet.Invoice.Update.{is_live}
use dev_ops_projet.Payment.Create.{PaymentBody, new_payment, create}

-- The database is as before, or the answer has status 200.
abbrev pub Committed : {R : Type 0} → Db → Outcome R × Db → Type 0
Committed {R} s (o, t) = (t ≡ s) ⊎ ((r : Response R) × (o ≡ respond r) × (r.status ≡ 200))

-- A 200 answer to a new payment: the payment is not zero, and with it the credit is at most the
-- total less the discount.
abbrev pub Accepts : ℤ → Invoice → Type 0
Accepts amount d = (amount ≢ pos 0) × (d.credit +ℤ amount ≤ℤ d.total -ℤ d.discount)

module _ (c : Currency) (h : IsCurrency c) (total discount credit amount : ℤ) where
  within_due :
      ltb_ℤ (sub c (sub c total discount) credit) amount ≡ false
      → credit +ℤ amount ≤ℤ total -ℤ discount
  within_due e =
      let max : sub c (sub c total discount) credit ≡ (total -ℤ discount) -ℤ credit =
        h.subtract_lem _ credit ∙ ap (λ a. a -ℤ credit) (h.subtract_lem total discount) in
      let fits : amount ≤ℤ (total -ℤ discount) -ℤ credit = ground (arith, rw max at e) in
      omega int_laws

  due_within :
      credit +ℤ amount ≤ℤ total -ℤ discount
      → ltb_ℤ (sub c (sub c total discount) credit) amount ≡ false
  due_within le =
      let max : sub c (sub c total discount) credit ≡ (total -ℤ discount) -ℤ credit =
        h.subtract_lem _ credit ∙ ap (λ a. a -ℤ credit) (h.subtract_lem total discount) in
      let fits : amount ≤ℤ (total -ℤ discount) -ℤ credit = omega int_laws in rw max (ground arith)

module _ (db : Mongoose) (c : Currency) (is_valid : Payment → Bool) (body : PaymentBody)
    (admin id now : ℕ) (s : Db) where
  -- A new payment is answered with 200, or leaves the database as it was: the refusals for a zero
  -- or too large amount, a missing invoice and an invalid document write nothing.
  create-Committed : Committed s (create db c is_valid body admin id now s)
  unfolding create
  create-Committed = elim (Bool-cases (body.amount ==ℤ pos 0)) [
    | inl e ↦ rw (e, create) (inl refl)
    | inr e ↦ elim (Option-cases (db.find_one (is_live body.invoice) s.invoices)) [
      | inl missing ↦ rw (e, create, missing) (inl refl)
      | inr (d, found) ↦
          let max = sub c (sub c d.total d.discount) d.credit in
          elim (Bool-cases (ltb_ℤ max body.amount)) [
            | inl over ↦ rw (e, create, found, over) (inl refl)
            | inr fits ↦ elim (Bool-cases (is_valid (new_payment body admin id now))) [
              | inl ok ↦ rw (e, create, found, fits, ok) (inr (_, refl, refl))
              | inr bad ↦ rw (e, create, found, fits, bad) (inl refl)
            ]
          ]
    ]
  ]

  -- A payment answered with 200 is not zero, its invoice is live, and with it the credit of that
  -- invoice is at most the total less the discount.
  pub create-Accepts :
      IsMongoose db
      → IsCurrency c
      → (r : Response Payment) → (create db c is_valid body admin id now s).0 ≡ respond r
      → r.status ≡ 200
      → (d : Invoice) × (first (is_live body.invoice) s.invoices ≡ some d) × Accepts body.amount d
  unfolding create
  create-Accepts m h r e code = elim (Bool-cases (body.amount ==ℤ pos 0)) [
    | inl z ↦ absurd (refused (rw (z, create) at e) code)
    | inr nz ↦ elim (Option-cases (db.find_one (is_live body.invoice) s.invoices)) [
      | inl missing ↦ cc (rw (nz, create, missing) at e)
      | inr (d, found) ↦
          let max = sub c (sub c d.total d.discount) d.credit in
          elim (Bool-cases (ltb_ℤ max body.amount)) [
            | inl over ↦ absurd (refused (rw (nz, create, found, over) at e) code)
            | inr fits ↦ (
              d,
              sym (m.find_one_lem Invoice (is_live body.invoice) s.invoices) ∙ found,
              (
                (λ z. cc ((==ℤ_iff body.amount (pos 0)).1 z)),
                within_due c h d.total d.discount d.credit body.amount fits,
              ),
            )
          ]
    ]
  ]
    where
      refused :
          {m : Message} → reply {R = Payment} 202 false none m ≡ respond r → r.status ≡ 200 → ⊥
      refused q code = ground arith

  -- The converse: a valid payment that is not zero, on a live invoice whose total less the discount
  -- is at least the credit with it, is answered with 200.
  pub create-Accepted :
      IsMongoose db
      → IsCurrency c
      → (d : Invoice) → first (is_live body.invoice) s.invoices ≡ some d
      → Accepts body.amount d
      → is_valid (new_payment body admin id now) ≡ true
      → (r : Response Payment) × ((create db c is_valid body admin id now s).0 ≡ respond r)
        × (r.status ≡ 200)
  unfolding create
  create-Accepted m h d found (nonzero, within) ok =
      let nz : (body.amount ==ℤ pos 0) ≡ false = ground (arith, ==ℤ_iff body.amount (pos 0)) in
      let here = m.find_one_lem Invoice (is_live body.invoice) s.invoices ∙ found in
      let fits = due_within c h d.total d.discount d.credit body.amount within in
      rw (nz, create, here, fits, ok) (_, refl, refl)
