-- ===== src/Invoice/Update.antt =====
-- backend/src/controllers/appControllers/invoiceController/update.js.
use dev_ops_projet.Base.{
  ℕ, ℤ, pos, Bool, true, false, not, ◌&&◌, none, some, [], ◌∷◌, ltb_ℤ, ◌==ℤ◌, ◌==◌, if◌then◌else◌,
}
use dev_ops_projet.Http.{Outcome, reply, text, throw, type_error}
use dev_ops_projet.Mongo.{Mongoose, updated}
use dev_ops_projet.Calculate.{Currency, sub}
use dev_ops_projet.Billing.{bill, tax_of, grand_total}
use dev_ops_projet.Documents.{Invoice, invoice_pdf, PaymentStatus, paid, unpaid, partially, Db}
use dev_ops_projet.Invoice.Create.{InvoiceBody, Schema, or_else}

-- The ternary of `paymentStatus`.
abbrev pub status_after_update : Currency → ℤ → ℤ → ℤ → PaymentStatus
status_after_update c total discount credit =
    if sub c total discount ==ℤ credit
    then paid
    else if ltb_ℤ (pos 0) credit
    then partially
    else unpaid

-- The fields of the body, over the stored document; `currency` is deleted from the body, and the
-- document keeps a discount that the body leaves out.
abbrev pub apply_body : Currency → InvoiceBody → ℕ → ℤ → Invoice → Invoice
apply_body c body id credit d =
    let b = bill c body.items in
    let tax = tax_of c b.sub_total body.tax_rate in
    let total = grand_total c b.sub_total tax in
    record d {
      client = body.client;
      number = body.number;
      year = body.year;
      status = body.status;
      notes = elim body.notes [ none ↦ d.notes | some n ↦ some n ];
      expired_date = body.expired_date;
      date = body.date;
      tax_rate = body.tax_rate;
      discount = or_else body.discount d.discount;
      sub_total = b.sub_total;
      tax_total = tax;
      total = total;
      items = b.lines;
      pdf = some (invoice_pdf id);
      payment_status = status_after_update c total (or_else body.discount (pos 0)) credit;
    }

abbrev pub is_live : ℕ → Invoice → Bool
is_live id d = d.id == id && not d.removed

-- `id` is `req.params.id`. A missing invoice makes the destructuring of null throw.
module _ (db : Mongoose) (c : Currency) (validate : Schema) where
  unfoldable pub update : InvoiceBody → ℕ → Db → Outcome Invoice × Db
  update body id s = elim (validate body) [
    | some details ↦ (reply 400 false none (text details), s)
    | none ↦ elim (db.find_one (is_live id) s.invoices) [
      | none ↦ (throw type_error, s)
      | some previous_invoice ↦ elim body.items [
        | [] ↦ (reply 400 false none (text "Items cannot be empty"), s)
        | _ ∷ _ ↦
            let (result, invoices) =
              db.find_one_and_update updated (is_live id)
                (apply_body c body id previous_invoice.credit) s.invoices in
            (
              reply 200 true result (text "we update this document "),
              record s { invoices = invoices },
            )
      ]
    ]
  ]
