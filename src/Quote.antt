-- ===== src/Quote.antt =====
-- backend/src/controllers/appControllers/quoteController: create.js, update.js, read.js and
-- convertQuoteToInvoice.js.
pub mod Listing
use dev_ops_projet.Base.{
  ℕ, ℤ, pos, String, Bool, true, false, ◌&&◌, not, Option, none, some, List, [], ◌∷◌, ◌==◌,
  if◌then◌else◌,
}
use dev_ops_projet.Http.{Outcome, reply, text, throw, validation_error}
use dev_ops_projet.Mongo.{Mongoose, updated}
use dev_ops_projet.Calculate.{Currency, Decimal}
use dev_ops_projet.Billing.{bill, tax_of, grand_total}
use dev_ops_projet.Settings.{increase_by_setting_key}
use dev_ops_projet.Documents.{Item, Quote, quote_pdf, Db}
use dev_ops_projet.Invoice.Create.{or_else}

-- The body, which no schema of Joi restricts. Keys that the handlers compute are left out, and the
-- currency is the text that the schema's `uppercase` makes of it.
pub record QuoteBody : Type 0 where
  pub client : ℕ
  pub number : ℕ
  pub year : ℕ
  pub status : Option String
  pub notes : Option String
  pub expired_date : ℕ
  pub date : ℕ
  pub items : List Item
  pub tax_rate : Decimal
  pub discount : Option ℤ
  pub credit : Option ℤ
  pub currency : Option String

-- `new Model(body)`, with the schema's defaults.
abbrev pub new_quote : Currency → QuoteBody → ℕ → ℕ → Quote
new_quote c body admin id =
    let b = bill c body.items in
    let tax = tax_of c b.sub_total body.tax_rate in
    record {
      id = id;
      removed = false;
      created_by = admin;
      number = body.number;
      year = body.year;
      date = body.date;
      expired_date = body.expired_date;
      client = body.client;
      items = b.lines;
      tax_rate = body.tax_rate;
      sub_total = b.sub_total;
      tax_total = tax;
      total = grand_total c b.sub_total tax;
      credit = or_else body.credit (pos 0);
      currency = or_else body.currency "NA";
      discount = or_else body.discount (pos 0);
      notes = body.notes;
      status = or_else body.status "draft";
      pdf = none;
    }

abbrev pub is_live : ℕ → Quote → Bool
is_live id q = q.id == id && not q.removed

-- The update sets the body's keys, and not `currency`.
abbrev pub apply_body : Currency → QuoteBody → ℕ → Quote → Quote
apply_body c body id q =
    let b = bill c body.items in
    let tax = tax_of c b.sub_total body.tax_rate in
    record q {
      number = body.number;
      year = body.year;
      date = body.date;
      expired_date = body.expired_date;
      client = body.client;
      items = b.lines;
      tax_rate = body.tax_rate;
      sub_total = b.sub_total;
      tax_total = tax;
      total = grand_total c b.sub_total tax;
      credit = or_else body.credit q.credit;
      discount = or_else body.discount q.discount;
      notes = or_else (some_if body.notes) q.notes;
      status = or_else body.status q.status;
      pdf = some (quote_pdf id);
    }
  where
    some_if : Option String → Option (Option String)
    some_if none = none
    some_if (some n) = some (some n)

-- `is_valid` stands for the schema's validators, which `save` runs. The counter's update is not
-- awaited: here it is the last step.
module _ (db : Mongoose) (c : Currency) where
  unfoldable pub create : (Quote → Bool) → QuoteBody → ℕ → ℕ → Db → Outcome Quote × Db
  create is_valid body admin id s =
      let q = new_quote c body admin id in
      if is_valid q
      then (let (update_result, quotes) =
            db.find_one_and_update updated (λ d. d.id == id)
              (λ d. record d { pdf = some (quote_pdf id) }) (db.save q s.quotes) in
          let (_, settings) = increase_by_setting_key db (some "last_quote_number") s.settings in
          (
            reply 200 true update_result (text "Quote created successfully"),
            record s { quotes = quotes; settings = settings },
          ))
      else (throw validation_error, s)

  -- A quote that is not found is answered with 200 and a null result.
  unfoldable pub update : QuoteBody → ℕ → Db → Outcome Quote × Db
  update body id s = elim body.items [
    | [] ↦ (reply 400 false none (text "Items cannot be empty"), s)
    | item ∷ rest ↦
        let (result, quotes) =
          db.find_one_and_update updated (is_live id) (apply_body c body id) s.quotes in
        (reply 200 true result (text "we update this document "), record s { quotes = quotes })
  ]

unfoldable pub read : Mongoose → ℕ → Db → Outcome Quote
read db id s = elim (db.find_one (is_live id) s.quotes) [
  | none ↦ reply 404 false none (text "No document found ")
  | some result ↦ reply 200 true (some result) (text "we found this document ")
]

pub convert_quote_to_invoice : Outcome Quote
convert_quote_to_invoice =
    reply 200 true none (text "Please Upgrade to Premium  Version to have full features")
