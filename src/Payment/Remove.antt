-- ===== src/Payment/Remove.antt =====
-- backend/src/controllers/appControllers/paymentController/remove.js and sendMail.js.
use dev_ops_projet.Base.{
  ℕ, ℤ, pos, ◌+ℤ◌, ◌-ℤ◌, neg, true, false, not, none, some, ltb_ℤ, ◌==ℤ◌, ◌==◌, if◌then◌else◌,
}
use dev_ops_projet.Http.{Outcome, reply, text, throw, type_error}
use dev_ops_projet.Mongo.{Mongoose, updated, select}
use dev_ops_projet.Documents.{Invoice, Payment, PaymentStatus, paid, unpaid, partially, Db}
use dev_ops_projet.Payment.Update.{is_live_payment, populate}

-- The ternary of `paymentStatus`, here with JavaScript's own `-`.
abbrev pub status_after_removal : ℤ → ℤ → ℤ → ℤ → PaymentStatus
status_after_removal total discount credit amount =
    if (total -ℤ discount) ==ℤ (credit -ℤ amount)
    then paid
    else if ltb_ℤ (pos 0) (credit -ℤ amount)
    then partially
    else unpaid

-- `$pull`, `$inc` and `$set`
abbrev pub debit_invoice : ℕ → ℤ → PaymentStatus → Invoice → Invoice
debit_invoice payment_id amount status d = record d {
  payment = select (λ k. not (k == payment_id)) d.payment;
  credit = d.credit +ℤ neg amount;
  payment_status = status;
}

module _ (db : Mongoose) where
  unfoldable pub remove : ℕ → Db → Outcome Payment × Db
  remove id s = elim (db.find_one (is_live_payment id) s.payments) [
    | none ↦ (reply 404 false none (text "No document found "), s)
    | some previous_payment ↦ elim (populate db s.invoices previous_payment) [
      | none ↦ (throw type_error, s)
      | some invoice ↦
          let amount = previous_payment.amount in
          let (result, payments) =
            db.find_one_and_update updated (is_live_payment id) (λ p. record p { removed = true })
              s.payments in
          let status = status_after_removal invoice.total invoice.discount invoice.credit amount in
          let (_, invoices) =
            db.find_one_and_update updated (λ d. d.id == invoice.id)
              (debit_invoice previous_payment.id amount status) s.invoices in
          (
            reply 200 true result (text "Successfully Deleted the document "),
            record s { payments = payments; invoices = invoices },
          )
    ]
  ]

unfoldable pub mail : Outcome Payment
mail = reply 200 true none (text "Please Upgrade to Premium  Version to have full features")
