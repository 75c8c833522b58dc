-- ===== src/Payment/Update.antt =====
-- backend/src/controllers/appControllers/paymentController/update.js.
use dev_ops_projet.Base.{
  ℕ, ℤ, pos, ◌+ℤ◌, String, Bool, true, false, not, ◌&&◌, Option, none, some, List, ltb_ℤ, ◌==ℤ◌,
  ◌==◌, if◌then◌else◌,
}
use dev_ops_projet.Http.{Outcome, reply, text, max_amount, throw, type_error}
use dev_ops_projet.Mongo.{Mongoose, updated}
use dev_ops_projet.Calculate.{Currency, add, sub}
use dev_ops_projet.Documents.{Invoice, Payment, PaymentStatus, Db}
use dev_ops_projet.Invoice.Create.{or_else}
use dev_ops_projet.Payment.Create.{status_after_payment}

-- A field that the body leaves out is undefined.
pub record PaymentChange : Type 0 where
  pub number : Option ℕ
  pub date : Option ℕ
  pub amount : Option ℤ
  pub payment_mode : Option ℕ
  pub ref : Option String
  pub description : Option String

-- `$set: updates`, of which mongoose leaves out what is undefined.
abbrev pub or_old : {A : Type 0} → Option A → Option A → Option A
or_old none old = old
or_old (some x) old = some x

abbrev pub apply_change : PaymentChange → ℕ → Payment → Payment
apply_change body now p = record p {
  number = or_else body.number p.number;
  date = or_else body.date p.date;
  amount = or_else body.amount p.amount;
  payment_mode = or_old body.payment_mode p.payment_mode;
  ref = or_old body.ref p.ref;
  description = or_old body.description p.description;
  updated = now;
}

abbrev pub adjust_invoice : ℤ → PaymentStatus → Invoice → Invoice
adjust_invoice changed status d = record d { credit = d.credit +ℤ changed; payment_status = status }

abbrev pub is_live_payment : ℕ → Payment → Bool
is_live_payment id p = p.id == id && not p.removed

-- mongoose-autopopulate replaces `invoice` by the document that it refers to, or by null.
abbrev pub populate : Mongoose → List Invoice → Payment → Option Invoice
populate db invoices p = db.find_one (λ d. d.id == p.invoice) invoices

-- `req.body.amount === 0`
abbrev pub is_zero : Option ℤ → Bool
is_zero none = false
is_zero (some a) = a ==ℤ pos 0

-- currency.js reads an undefined amount as 0.
abbrev pub current_amount : PaymentChange → ℤ
current_amount body = or_else body.amount (pos 0)

module _ (db : Mongoose) (c : Currency) where
  unfoldable pub update : PaymentChange → ℕ → ℕ → Db → Outcome Payment × Db
  update body id now s =
      if is_zero body.amount
      then (reply 202 false none (text "The Minimum Amount couldn't be 0"), s)
      else elim (db.find_one (is_live_payment id) s.payments) [
        | none ↦ (throw type_error, s)
        | some previous_payment ↦ elim (populate db s.invoices previous_payment) [
          | none ↦ (throw type_error, s)
          | some invoice ↦
              let changed = sub c (current_amount body) previous_payment.amount in
              let max = sub c invoice.total (add c invoice.discount invoice.credit) in
              if ltb_ℤ max changed
              then (reply 202 false none (max_amount (max +ℤ previous_payment.amount)), s)
              else (let status =
                    status_after_payment c invoice.total invoice.discount invoice.credit changed in
                  let (result, payments) =
                    db.find_one_and_update updated (is_live_payment id) (apply_change body now)
                      s.payments in
                  elim result [
                    | none ↦ (throw type_error, record s { payments = payments })
                    | some p ↦ elim (populate db s.invoices p) [
                      | none ↦ (throw type_error, record s { payments = payments })
                      | some of_result ↦
                          let (_, invoices) =
                            db.find_one_and_update updated (λ d. d.id == of_result.id)
                              (adjust_invoice changed status) s.invoices in
                          (
                            reply 200 true (some p) (text "Successfully updated the Payment "),
                            record s { payments = payments; invoices = invoices },
                          )
                    ]
                  ])
        ]
      ]
