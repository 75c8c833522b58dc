-- ===== src/Documents.antt =====
-- The mongoose schemas of backend/src/models/appModels (Invoice.js, Payment.js, Quote.js) as
-- records. An ObjectId is a number, a date its time stamp. Fields that no handler reads or writes
-- (content, recurring, converted, files, approved, isOverdue, isExpired, created) are left out.
use dev_ops_projet.Base.{ℕ, ℤ, String, Bool, Option, List}
use dev_ops_projet.Calculate.{Decimal}
use dev_ops_projet.Settings.{Setting}

-- 'invoice-' + id + '.pdf' and 'quote-' + id + '.pdf'.
pub data FileId : Type 0 where
  invoice_pdf quote_pdf : ℕ → FileId

pub data PaymentStatus : Type 0 where
  unpaid paid partially : PaymentStatus

pub record Item : Type 0 where
  pub item_name : String
  pub description : Option String
  pub quantity : Decimal
  pub price : Decimal
  pub total : ℤ

pub record Invoice : Type 0 where
  pub id : ℕ
  pub removed : Bool
  pub created_by : ℕ
  pub number : ℕ
  pub year : ℕ
  pub date : ℕ
  pub expired_date : ℕ
  pub client : ℕ
  pub items : List Item
  pub tax_rate : Decimal
  pub sub_total : ℤ
  pub tax_total : ℤ
  pub total : ℤ
  pub currency : String
  pub credit : ℤ
  pub discount : ℤ
  pub payment : List ℕ
  pub payment_status : PaymentStatus
  pub notes : Option String
  pub status : String
  pub pdf : Option FileId

-- The schema has no `pdf`: mongoose drops that field from an update.
pub record Payment : Type 0 where
  pub id : ℕ
  pub removed : Bool
  pub created_by : ℕ
  pub number : ℕ
  pub client : ℕ
  pub invoice : ℕ
  pub date : ℕ
  pub amount : ℤ
  pub currency : String
  pub payment_mode : Option ℕ
  pub ref : Option String
  pub description : Option String
  pub updated : ℕ

pub record Quote : Type 0 where
  pub id : ℕ
  pub removed : Bool
  pub created_by : ℕ
  pub number : ℕ
  pub year : ℕ
  pub date : ℕ
  pub expired_date : ℕ
  pub client : ℕ
  pub items : List Item
  pub tax_rate : Decimal
  pub sub_total : ℤ
  pub tax_total : ℤ
  pub total : ℤ
  pub credit : ℤ
  pub currency : String
  pub discount : ℤ
  pub notes : Option String
  pub status : String
  pub pdf : Option FileId

-- The collections that the handlers share.
pub record Db : Type 0 where
  pub invoices : List Invoice
  pub payments : List Payment
  pub quotes : List Quote
  pub settings : List Setting
