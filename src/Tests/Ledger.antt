-- ===== src/Tests/Ledger.antt =====
-- Invoices and payments: one invoice of 22.00, paid, changed and removed.
use dev_ops_projet.Base.{
  arith, pos, ◌≡◌, ◌≢◌, refl, true, false, none, some, [], ◌∷◌, All, map, ◌+ℤ◌, ◌-ℤ◌,
}
use dev_ops_projet.Http.{Outcome, Response, json, respond, text}
use dev_ops_projet.Mongo.{in_memory, first}
use dev_ops_projet.Calculate.{of_cents}
use dev_ops_projet.Documents.{Item, Invoice, Payment, Db, invoice_pdf}
use dev_ops_projet.Billing.{bill, tax_of, grand_total}
use dev_ops_projet.Invoice.Create.{InvoiceBody, Schema, IsSchema, new_invoice}
use dev_ops_projet.Invoice.Create.{create as create_inv}
use dev_ops_projet.Invoice.Update.{is_live}
use dev_ops_projet.Payment.Create.{PaymentBody}
use dev_ops_projet.Payment.Create.{create as create_pay}
use dev_ops_projet.Payment.Update.{PaymentChange}
use dev_ops_projet.Ledger.{IsConsistent}
use dev_ops_projet.Ledger.Invoices.{IsUnused}
use dev_ops_projet.Ledger.Reach.{
  empty_db, Reach, here, next, Step-IsConsistent, reachable-IsConsistent,
}
use dev_ops_projet.Ledger.Reach.{create_invoice, create_payment}
use dev_ops_projet.Ledger.Limits.{Accepts, create-Accepts, create-Accepted}
use dev_ops_projet.Tests.Models.{in_memory-IsMongoose, cents, cents-IsCurrency}

abbrev pub item : Item
item = record {
  item_name = "chair";
  description = none;
  quantity = record { units = pos 2; scale = 0 };
  price = of_cents (pos 1000);
  total = pos 0;
}

abbrev body : InvoiceBody
body = record {
  client = 5;
  number = 1;
  year = 2024;
  status = "draft";
  notes = none;
  expired_date = 20;
  date = 10;
  items = item ∷ [];
  tax_rate = record { units = pos 10; scale = 0 };
  discount = none;
  currency = none;
}

-- Joi, as far as the discount goes.
abbrev validate : Schema
validate b = elim b.discount [ none ↦ none | some d ↦ some "\"discount\" is not allowed" ]

no_discount : (b : InvoiceBody) → validate b ≡ none → b.discount ≡ none
no_discount b h = ground arith

validate-IsSchema : IsSchema validate
validate-IsSchema = record { no_discount = no_discount }

empty-IsConsistent : IsConsistent empty_db
empty-IsConsistent = record {
  invoice_ids = tt;
  payment_ids = tt;
  balanced = tt;
  settled = tt;
  undiscounted = tt;
}

empty-IsUnused : IsUnused 1 empty_db
empty-IsUnused = record { invoices = tt; payments = tt }

abbrev with_invoice : Db
with_invoice = (create_inv in_memory cents validate (λ _. true) body 7 1 empty_db).1

with_invoice-IsConsistent : IsConsistent with_invoice
with_invoice-IsConsistent =
    Step-IsConsistent in_memory cents validate (λ _. true) (λ _. true) in_memory-IsMongoose
      cents-IsCurrency validate-IsSchema (create_invoice body 7 1 empty-IsUnused) empty-IsConsistent

abbrev payment : PaymentBody
payment = record {
  removed = none;
  number = 1;
  client = 5;
  invoice = 1;
  date = none;
  amount = pos 700;
  currency = none;
  payment_mode = none;
  ref = none;
  description = none;
}

with_invoice-fresh : All (λ p. p.id ≢ 3) with_invoice.payments
unfolding create_inv
with_invoice-fresh = tt

kept_payment : payment.removed ≢ some true
kept_payment e = cc

abbrev pub with_payment : Db
with_payment = (create_pay in_memory cents (λ _. true) payment 7 3 12 with_invoice).1

with_payment-Reach : Reach in_memory cents validate (λ _. true) (λ _. true) empty_db with_payment
with_payment-Reach =
    next (next here (create_invoice body 7 1 empty-IsUnused))
      (create_payment payment 7 3 12 kept_payment with_invoice-fresh)

reachable_example : IsConsistent with_payment
reachable_example =
    reachable-IsConsistent in_memory cents validate (λ _. true) (λ _. true) in_memory-IsMongoose
      cents-IsCurrency validate-IsSchema with_payment with_payment-Reach

pub with_payment-IsConsistent : IsConsistent with_payment
with_payment-IsConsistent =
    Step-IsConsistent in_memory cents validate (λ _. true) (λ _. true) in_memory-IsMongoose
      cents-IsCurrency validate-IsSchema
      (create_payment payment 7 3 12 kept_payment with_invoice-fresh) with_invoice-IsConsistent

abbrev change : PaymentChange
change = record {
  number = some 1;
  date = some 13;
  amount = some (pos 2200);
  payment_mode = none;
  ref = none;
  description = none;
}

abbrev answer_of : {R : Type 0} → Outcome R → Response R
answer_of (respond r) = r
answer_of _ = json 0 false none (text "")

abbrev paid_answer : Response Payment
paid_answer = answer_of (create_pay in_memory cents (λ _. true) payment 7 3 12 with_invoice).0

paid_answer-eq :
    (create_pay in_memory cents (λ _. true) payment 7 3 12 with_invoice).0 ≡ respond paid_answer
unfolding create_inv create_pay bill tax_of grand_total ◌+ℤ◌ ◌-ℤ◌
paid_answer-eq = refl

paid_answer-200 : paid_answer.status ≡ 200
unfolding create_inv create_pay bill tax_of grand_total ◌+ℤ◌ ◌-ℤ◌
paid_answer-200 = refl

create-Accepts_example :
    (d : Invoice) × (first (is_live 1) with_invoice.invoices ≡ some d) × Accepts (pos 700) d
create-Accepts_example =
    create-Accepts in_memory cents (λ _. true) payment 7 3 12 with_invoice in_memory-IsMongoose
      cents-IsCurrency paid_answer paid_answer-eq paid_answer-200

-- 22.00 are due, 7.00 paid.
with_payment-total : map (λ d. d.total) with_payment.invoices ≡ pos 2200 ∷ []
unfolding create_inv create_pay bill tax_of grand_total ◌+ℤ◌ ◌-ℤ◌
with_payment-total = refl

with_payment-credit : map (λ d. d.credit) with_payment.invoices ≡ pos 700 ∷ []
unfolding create_inv create_pay bill tax_of grand_total ◌+ℤ◌ ◌-ℤ◌
with_payment-credit = refl

abbrev open_invoice : Invoice
open_invoice = record (new_invoice cents body 7 1) { pdf = some (invoice_pdf 1) }

open_invoice-found : first (is_live 1) with_invoice.invoices ≡ some open_invoice
unfolding create_inv
open_invoice-found = refl

some_due : Accepts (pos 700) open_invoice
unfolding bill tax_of grand_total ◌+ℤ◌ ◌-ℤ◌
some_due = ((λ e. not_zero e), omega arith)
  where
    not_zero : pos 700 ≡ pos 0 → ⊥
    not_zero e = ground arith

create-Accepted_example :
    (r : Response Payment) × ((create_pay in_memory cents (λ _. true) payment 7 3 12 with_invoice).0
      ≡ respond r)
    × (r.status ≡ 200)
create-Accepted_example =
    create-Accepted in_memory cents (λ _. true) payment 7 3 12 with_invoice in_memory-IsMongoose
      cents-IsCurrency open_invoice open_invoice-found some_due refl
