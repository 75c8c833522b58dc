-- ===== src/Payment/Create.antt =====
-- backend/src/controllers/appControllers/paymentController/create.js.
use dev_ops_projet.Base.{
  ℕ, ℤ, pos, ◌+ℤ◌, String, Bool, true, false, not, ◌&&◌, Option, none, some, [], ◌∷◌, ◌++◌, ltb_ℤ,
  ◌==ℤ◌, ◌==◌, if◌then◌else◌,
}
use dev_ops_projet.Http.{Outcome, reply, text, max_amount, throw, type_error, validation_error}
use dev_ops_projet.Mongo.{Mongoose, updated}
use dev_ops_projet.Calculate.{Currency, add, sub}
use dev_ops_projet.Documents.{Invoice, Payment, PaymentStatus, paid, unpaid, partially, Db}
use dev_ops_projet.Invoice.Create.{or_else}
use dev_ops_projet.Invoice.Update.{is_live}

-- The fields of the schema that the body may give; the new document's id is an argument of the
-- handler. The currency is the text that the schema's `uppercase` makes of it.
pub record PaymentBody : Type 0 where
  pub removed : Option Bool
  pub number : ℕ
  pub client : ℕ
  pub invoice : ℕ
  pub date : Option ℕ
  pub amount : ℤ
  pub currency : Option String
  pub payment_mode : Option ℕ
  pub ref : Option String
  pub description : Option String

-- `Model.create(req.body)`: the schema's defaults; `now` is the time of the request.
abbrev pub new_payment : PaymentBody → ℕ → ℕ → ℕ → Payment
new_payment body admin id now = record {
  id = id;
  removed = or_else body.removed false;
  created_by = admin;
  number = body.number;
  client = body.client;
  invoice = body.invoice;
  date = or_else body.date now;
  amount = body.amount;
  currency = or_else body.currency "NA";
  payment_mode = body.payment_mode;
  ref = body.ref;
  description = body.description;
  updated = now;
}

-- The ternary of `paymentStatus`, for a change of the credit by `amount`.
abbrev pub status_after_payment : Currency → ℤ → ℤ → ℤ → ℤ → PaymentStatus
status_after_payment c total discount credit amount =
    if sub c total discount ==ℤ add c credit amount
    then paid
    else if ltb_ℤ (pos 0) (add c credit amount)
    then partially
    else unpaid

-- `$push`, `$inc` and `$set` on the invoice.
abbrev pub credit_invoice : ℕ → ℤ → PaymentStatus → Invoice → Invoice
credit_invoice payment_id amount status d = record d {
  payment = d.payment ++ payment_id ∷ [];
  credit = d.credit +ℤ amount;
  payment_status = status;
}

-- `admin`, `id` and `now` are `req.admin._id`, the new ObjectId and the time; `is_valid` stands for
-- the schema's validators. The second update sets `pdf`, which the payment's schema does not have.
module _ (db : Mongoose) (c : Currency) (is_valid : Payment → Bool) where
  unfoldable pub create : PaymentBody → ℕ → ℕ → ℕ → Db → Outcome Payment × Db
  create body admin id now s =
      if body.amount ==ℤ pos 0
      then (reply 202 false none (text "The Minimum Amount couldn't be 0"), s)
      else elim (db.find_one (is_live body.invoice) s.invoices) [
        | none ↦ (throw type_error, s)
        | some current_invoice ↦
            let total = current_invoice.total in
            let discount = current_invoice.discount in
            let credit = current_invoice.credit in
            let max = sub c (sub c total discount) credit in
            if ltb_ℤ max body.amount
            then (reply 202 false none (max_amount max), s)
            else if is_valid (new_payment body admin id now)
            then (let (update_path, payments) =
                  db.find_one_and_update updated (λ p. p.id == id && not p.removed) (λ p. p)
                    (db.save (new_payment body admin id now) s.payments) in
                let status = status_after_payment c total discount credit body.amount in
                let (_, invoices) =
                  db.find_one_and_update updated (λ d. d.id == body.invoice)
                    (credit_invoice id body.amount status) s.invoices in
                (
                  reply 200 true update_path (text "Payment Invoice created successfully"),
                  record s { payments = payments; invoices = invoices },
                ))
            else (throw validation_error, s)
      ]
