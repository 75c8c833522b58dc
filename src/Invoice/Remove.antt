-- ===== src/Invoice/Remove.antt =====
-- backend/src/controllers/appControllers/invoiceController/remove.js, read.js and sendMail.js.
use dev_ops_projet.Base.{ℕ, true, false, none, some, ◌==◌}
use dev_ops_projet.Http.{Outcome, reply, text}
use dev_ops_projet.Mongo.{Mongoose, original}
use dev_ops_projet.Documents.{Invoice, Db}
use dev_ops_projet.Invoice.Update.{is_live}

module _ (db : Mongoose) where
  unfoldable pub remove : ℕ → Db → Outcome Invoice × Db
  remove id s =
      let (deleted_invoice, invoices) =
        db.find_one_and_update original (is_live id) (λ d. record d { removed = true })
          s.invoices in
      elim deleted_invoice [
        | none ↦ (reply 404 false none (text "Invoice not found"), record s { invoices = invoices })
        | some deleted ↦ (
          reply 200 true (some deleted) (text "Invoice deleted successfully"),
          record s {
            invoices = invoices;
            payments =
                db.update_many (λ p. p.invoice == deleted.id) (λ p. record p { removed = true })
                  s.payments;
          },
        )
      ]

  -- `createdBy` is populated for the client, which changes no field that is modelled.
  unfoldable pub read : ℕ → Db → Outcome Invoice
  read id s = elim (db.find_one (is_live id) s.invoices) [
    | none ↦ reply 404 false none (text "No document found ")
    | some result ↦ reply 200 true (some result) (text "we found this document ")
  ]

-- The mail handler of invoices, payments and quotes, and the conversion of quotes.
unfoldable pub mail : Outcome Invoice
mail = reply 200 true none (text "Please Upgrade to Premium  Version to have full features")
