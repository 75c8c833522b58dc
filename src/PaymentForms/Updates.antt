-- ===== src/PaymentForms/Updates.antt =====
-- What the form for a changed payment allows and submits, and what the server makes of it.
use dev_ops_projet.Base.{
  ℕ, ◌==◌, not, ℤ, pos, ltb_ℤ, ◌≡◌, refl, ap, ◌∙◌, ◌≢◌, ◌==ℤ◌, ==ℤ_iff, Bool, true, false, some,
  arith,
}
use dev_ops_projet.Http.{text, reply}
use dev_ops_projet.Mongo.{update_first, Mongoose, first, in_memory}
use dev_ops_projet.Mongo.Laws.{IsMongoose, eq-in_memory}
use dev_ops_projet.Calculate.{Currency, sub, add}
use dev_ops_projet.Documents.{Invoice, Payment, Db}
use dev_ops_projet.Mongo.Lookup.{first-update_first_self}
use dev_ops_projet.Payment.Create.{status_after_payment}
use dev_ops_projet.Payment.Update.{
  apply_change, is_zero, current_amount, adjust_invoice, PaymentChange, is_live_payment, update,
}
use dev_ops_projet.PaymentForms.{current_erp, update_on_submit, shown_fields}

-- What the server tests before an update of a payment.
abbrev pub fits_update : Currency → ℤ → Payment → Invoice → Bool
fits_update c amount p d =
    not (ltb_ℤ (sub c d.total (add c d.discount d.credit)) (sub c amount p.amount))

module _ (c : Currency) (body : PaymentChange) (now : ℕ) (p : Payment) (d : Invoice) (s : Db)
    (live : first (is_live_payment p.id) s.payments ≡ some p)
    (of_payment : first (λ x. x.id == p.invoice) s.invoices ≡ some d)
    (nonzero : is_zero body.amount ≡ false) where
  update-writes :
      fits_update c (current_amount body) p d ≡ true
      → update in_memory c body p.id now s ≡ (
        reply 200 true (some (apply_change body now p)) (text "Successfully updated the Payment "),
        record s {
          payments = update_first (is_live_payment p.id) (apply_change body now) s.payments;
          invoices =
              update_first
                (λ x. x.id == d.id)
                (adjust_invoice (sub c (current_amount body) p.amount) (
                  status_after_payment c d.total d.discount d.credit
                    (sub c (current_amount body) p.amount)))
                s.invoices;
        },
      )
  unfolding update
  update-writes fits =
      let within : ltb_ℤ (sub c d.total (add c d.discount d.credit))
            (sub c (current_amount body) p.amount)
          ≡ false =
        ground arith in
      rw (update, nonzero, live, of_payment, within) (rw live (rw of_payment refl))

-- If nothing is typed, the form for an update submits the invoice's number and date, so that an
-- accepted update of a payment replaces the payment's own by them.
pub shown_fields-update :
    (db : Mongoose) (c : Currency) (p : Payment) (d : Invoice) (mode now : ℕ) (s : Db)
    → IsMongoose db
    → first (is_live_payment p.id) s.payments ≡ some p
    → first (λ x. x.id == p.invoice) s.invoices ≡ some d
    → p.amount ≢ pos 0
    → fits_update c p.amount p d ≡ true
    → (q : Payment) × (first
          (is_live_payment p.id)
          (update db c
            (update_on_submit (shown_fields (current_erp p d) mode))
            p.id
            now
            s).1.payments
        ≡ some q)
      × (q.number ≡ d.number)
      × (q.date ≡ d.date)
      × (q.amount ≡ p.amount)
unfolding update_on_submit shown_fields current_erp
shown_fields-update db c p d mode now s m live of_payment nonzero fits =
    let body = update_on_submit (shown_fields (current_erp p d) mode) in
    let nz : (p.amount ==ℤ pos 0) ≡ false = ground (arith, ==ℤ_iff p.amount (pos 0)) in
    let kept =
      first-update_first_self (is_live_payment p.id) (apply_change body now) s.payments p
        (λ x. refl) live in
    rw (eq-in_memory m) (
      apply_change body now p,
      ap (λ x. first (is_live_payment p.id) x.1.payments)
            (update-writes c body now p d s live of_payment nz fits)
          ∙ kept,
      refl,
      refl,
      refl,
    )
