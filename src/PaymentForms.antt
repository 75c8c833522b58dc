-- ===== src/PaymentForms.antt =====
-- The client's forms for payments: frontend/src/forms/PaymentForm.jsx, and the two pages around it,
-- InvoiceModule/RecordPaymentModule/components/RecordPayment.jsx and
-- PaymentModule/UpdatePaymentModule/components (Payment.jsx, UpdatePayment.jsx). The document that a
-- page shows is the one that the server sent; its client is a reference to a client, here its id.
pub mod Limits
pub mod Updates
use dev_ops_projet.Base.{ℕ, ℤ, pos, String, Bool, not, ◌&&◌, ltb_ℤ, leb, Option, none, some}
use dev_ops_projet.Calculate.{Currency, sub}
use dev_ops_projet.Documents.{Invoice, Payment}
use dev_ops_projet.Payment.Create.{PaymentBody}
use dev_ops_projet.Payment.Update.{PaymentChange}

-- What the fields of PaymentForm hold when the form is submitted.
pub record PaymentFields : Type 0 where
  pub number : ℕ
  pub date : ℕ
  pub amount : ℤ
  pub payment_mode : ℕ
  pub ref : Option String
  pub description : Option String

-- The rules of PaymentForm: every field is there that is required, and the number and the amount are
-- in the ranges of their inputs (`min={1}`; `min={0} max={maxAmount}`).
abbrev pub is_allowed : ℤ → PaymentFields → Bool
is_allowed max_amount fields =
    leb 1 fields.number && not (ltb_ℤ fields.amount (pos 0)) && not (ltb_ℤ max_amount fields.amount)

module _ (c : Currency) where
  -- `maxAmount` of RecordPayment after its effect on the current invoice.
  unfoldable pub record_max_amount : ℤ → Option Invoice → ℤ
  record_max_amount max_amount none = max_amount
  record_max_amount max_amount (some current_invoice) =
      sub c (sub c current_invoice.total current_invoice.discount) current_invoice.credit

-- `onSubmit` of RecordPayment. Without an invoice, the fields that the server requires are missing.
unfoldable pub record_on_submit : Invoice → PaymentFields → PaymentBody
record_on_submit current_invoice fields = record {
  removed = none;
  number = fields.number;
  client = current_invoice.client;
  invoice = current_invoice.id;
  date = some fields.date;
  amount = fields.amount;
  currency = none;
  payment_mode = some fields.payment_mode;
  ref = fields.ref;
  description = fields.description;
}

-- `{ ...others, ...invoice, _id }` of Payment.jsx: the payment, with what its invoice has too taken
-- from the invoice. Only what UpdatePayment reads is listed.
pub record CurrentErp : Type 0 where
  pub id : ℕ
  pub number : ℕ
  pub date : ℕ
  pub client : ℕ
  pub total : ℤ
  pub discount : ℤ
  pub credit : ℤ
  pub amount : ℤ
  pub payment_mode : Option ℕ
  pub ref : Option String
  pub description : Option String

unfoldable pub current_erp : Payment → Invoice → CurrentErp
current_erp others invoice = record {
  id = others.id;
  number = invoice.number;
  date = invoice.date;
  client = invoice.client;
  total = invoice.total;
  discount = invoice.discount;
  credit = invoice.credit;
  amount = others.amount;
  payment_mode = others.payment_mode;
  ref = others.ref;
  description = others.description;
}

module _ (c : Currency) where
  -- `maxAmount` of UpdatePayment after its effect; `calculate.sub` of one argument subtracts
  -- undefined, which currency.js reads as 0.
  unfoldable pub update_max_amount : CurrentErp → ℤ
  update_max_amount e = sub c (sub c e.total e.discount) (sub c (sub c e.credit e.amount) (pos 0))

-- `form.setFieldsValue`: what the form shows before anything is typed, `payment_mode` for a payment
-- that has one.
unfoldable pub shown_fields : CurrentErp → ℕ → PaymentFields
shown_fields e payment_mode = record {
  number = e.number;
  date = e.date;
  amount = e.amount;
  payment_mode = payment_mode;
  ref = e.ref;
  description = e.description;
}

-- `onSubmit` of UpdatePayment; the server's update reads neither `invoice` nor `client`.
unfoldable pub update_on_submit : PaymentFields → PaymentChange
update_on_submit fields = record {
  number = some fields.number;
  date = some fields.date;
  amount = some fields.amount;
  payment_mode = some fields.payment_mode;
  ref = fields.ref;
  description = fields.description;
}
