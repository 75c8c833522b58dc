-- ===== src/Invoice/Create.antt =====
-- backend/src/controllers/appControllers/invoiceController/create.js and schemaValidate.js.
use dev_ops_projet.Base.{
  ℕ, ℤ, pos, String, Bool, true, false, Option, none, some, List, [], ◌≡◌, ◌==ℤ◌, ◌==◌,
  if◌then◌else◌,
}
use dev_ops_projet.Http.{Outcome, reply, text, throw, validation_error}
use dev_ops_projet.Mongo.{Mongoose, updated}
use dev_ops_projet.Calculate.{Currency, Decimal, sub}
use dev_ops_projet.Billing.{bill, tax_of, grand_total}
use dev_ops_projet.Settings.{increase_by_setting_key}
use dev_ops_projet.Documents.{Item, Invoice, invoice_pdf, paid, unpaid, Db}

-- The request's body. `discount` and `currency` are not in the Joi schema; the currency is the text
-- that the model's `uppercase` makes of it.
pub record InvoiceBody : Type 0 where
  pub client : ℕ
  pub number : ℕ
  pub year : ℕ
  pub status : String
  pub notes : Option String
  pub expired_date : ℕ
  pub date : ℕ
  pub items : List Item
  pub tax_rate : Decimal
  pub discount : Option ℤ
  pub currency : Option String

-- `schema.validate`, by Joi: the message of the first error, or none. Joi refuses keys that the
-- schema does not name.
abbrev pub Schema : Type 0
Schema = InvoiceBody → Option String

pub record IsSchema (validate : Schema) : Type 0 where
  pub no_discount : (b : InvoiceBody) → validate b ≡ none → b.discount ≡ none

abbrev pub or_else {ℓ} : {A : Type ℓ} → Option A → A → A
or_else none d = d
or_else (some a) d = a

-- `new Model(body)`: the schema's defaults, with the fields that the handler has set.
abbrev pub new_invoice : Currency → InvoiceBody → ℕ → ℕ → Invoice
new_invoice c body admin id =
    let b = bill c body.items in
    let tax = tax_of c b.sub_total body.tax_rate in
    let total = grand_total c b.sub_total tax in
    let discount = or_else body.discount (pos 0) in
    record {
      id = id;
      removed = false;
      created_by = admin;
      number = body.number;
      year = body.year;
      date = body.date;
      expired_date = body.expired_date;
      client = body.client;
      items = b.lines;
      tax_rate = body.tax_rate;
      sub_total = b.sub_total;
      tax_total = tax;
      total = total;
      currency = or_else body.currency "NA";
      credit = pos 0;
      discount = discount;
      payment = [];
      payment_status = if sub c total discount ==ℤ pos 0 then paid else unpaid;
      notes = body.notes;
      status = body.status;
      pdf = none;
    }

-- `admin` is `req.admin._id`, `id` the ObjectId of the new document, and `is_valid` the schema's
-- validators, which `save` runs. The counter's update is not awaited: here it is the last step.
module _ (db : Mongoose) (c : Currency) (validate : Schema) (is_valid : Invoice → Bool) where
  unfoldable pub create : InvoiceBody → ℕ → ℕ → Db → Outcome Invoice × Db
  create body admin id s = elim (validate body) [
    | some details ↦ (reply 400 false none (text details), s)
    | none ↦
        let doc = new_invoice c body admin id in
        if is_valid doc
        then (let (result, invoices) =
              db.find_one_and_update updated (λ d. d.id == id)
                (λ d. record d { pdf = some (invoice_pdf id) }) (db.save doc s.invoices) in
            let (_, settings) =
              increase_by_setting_key db (some "last_invoice_number") s.settings in
            (
              reply 200 true result (text "Invoice created successfully"),
              record s { invoices = invoices; settings = settings },
            ))
        else (throw validation_error, s)
  ]
