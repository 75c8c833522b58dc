-- ===== src/Tests/Payments.antt =====
-- The forms for payments: an invoice of 22.00, of which 7.00 are paid.
use dev_ops_projet.Base.{
  ℕ, ◌+◌, pos, ◌≡◌, ◌≢◌, ◌↔◌, ◌+ℤ◌, ◌-ℤ◌, refl, true, false, none, some, [], ◌∷◌, arith,
}
use dev_ops_projet.Mongo.{in_memory}
use dev_ops_projet.Documents.{Invoice, Payment, Db, partially}
use dev_ops_projet.Payment.Create.{create}
use dev_ops_projet.PaymentForms.{PaymentFields, is_allowed, record_max_amount, record_on_submit}
use dev_ops_projet.PaymentForms.Limits.{IsAccepted, record_on_submit-create}
use dev_ops_projet.PaymentForms.Updates.{fits_update}
use dev_ops_projet.Tests.Models.{in_memory-IsMongoose, cents, cents-IsCurrency}
use dev_ops_projet.Tests.Ledger.{item}

abbrev invoice : Invoice
invoice = record {
  id = 1;
  removed = false;
  created_by = 7;
  number = 41;
  year = 2024;
  date = 10;
  expired_date = 20;
  client = 5;
  items = item ∷ [];
  tax_rate = record { units = pos 10; scale = 0 };
  sub_total = pos 2000;
  tax_total = pos 200;
  total = pos 2200;
  currency = "NA";
  credit = pos 700;
  discount = pos 0;
  payment = 3 ∷ [];
  payment_status = partially;
  notes = none;
  status = "sent";
  pdf = none;
}

abbrev payment : Payment
payment = record {
  id = 3;
  removed = false;
  created_by = 7;
  number = 1;
  client = 5;
  invoice = 1;
  date = 12;
  amount = pos 700;
  currency = "NA";
  payment_mode = some 2;
  ref = none;
  description = none;
  updated = 12;
}

abbrev database : Db
database = record { invoices = invoice ∷ []; payments = payment ∷ []; quotes = []; settings = [] }

abbrev fields : PaymentFields
fields = record {
  number = 2;
  date = 13;
  amount = pos 1500;
  payment_mode = 2;
  ref = none;
  description = none;
}

some_amount : (n : ℕ) → pos (n + 1) ≢ pos 0
some_amount n e = ground arith

record_payment_example :
    (is_allowed (record_max_amount cents (pos 0) (some invoice)) fields ≡ true)
    ↔ IsAccepted
        (create in_memory cents (λ _. true) (record_on_submit invoice fields) 7 4 14 database).0
unfolding record_on_submit
record_payment_example =
    record_on_submit-create in_memory cents (λ _. true) invoice fields (pos 0) 7 4 14 database
      in_memory-IsMongoose cents-IsCurrency refl (omega arith) (omega arith) (some_amount 1499) refl

-- The whole rest may be paid, and no cent more.
rest_allowed : is_allowed (record_max_amount cents (pos 0) (some invoice)) fields ≡ true
unfolding record_max_amount ◌+ℤ◌ ◌-ℤ◌
rest_allowed = refl

more_refused :
    is_allowed
      (record_max_amount cents (pos 0) (some invoice))
      (record fields { amount = pos 1501 })
    ≡ false
unfolding record_max_amount ◌+ℤ◌ ◌-ℤ◌
more_refused = refl

unchanged_fits : fits_update cents (pos 700) payment invoice ≡ true
unfolding ◌+ℤ◌ ◌-ℤ◌
unchanged_fits = refl
