-- ===== src/Ledger/Invoices.antt =====
-- invoiceController keeps the ledger consistent: create.js, update.js and remove.js.
use dev_ops_projet.Base.{
  ℕ, pos, ◌-ℤ◌, ◌≡◌, refl, sym, ◌∙◌, ◌≢◌, Bool, true, false, none, some, [], ◌∷◌, ◌++◌, arith, All,
  All-append, ◌==◌, Bool-cases, Option-cases, inl, inr, List,
}
use dev_ops_projet.Mongo.{Mongoose, in_memory, first, update_first, update_all}
use dev_ops_projet.Mongo.Laws.{IsMongoose, eq-in_memory}
use dev_ops_projet.Calculate.{Currency, IsCurrency}
use dev_ops_projet.Settings.{Setting}
use dev_ops_projet.Documents.{Invoice, Payment, invoice_pdf, Db}
use dev_ops_projet.Invoice.Create.{InvoiceBody, Schema, IsSchema, or_else, new_invoice, create}
use dev_ops_projet.Invoice.Update.{is_live, apply_body, update}
use dev_ops_projet.Invoice.Remove.{remove}
use dev_ops_projet.Mongo.Keys.{
  Distinct-snoc, All-update_first, All-update_first_any, Distinct-update_first, Distinct-update_all,
  All-both, first_unique, first-eq-true, update_first-none, empty_or_not,
}
use dev_ops_projet.Ledger.Credits.{credits-unused, credits-remove_all}
use dev_ops_projet.Ledger.Status.{choose-Means, status_on_create-choose, status_after_update-choose}
use dev_ops_projet.Ledger.Invariant.{IsBalanced, IsSettled, IsConsistent}

-- The id of a document to be made: no invoice has it, and no payment refers to it.
pub record IsUnused (id : ℕ) (s : Db) : Type 0 where
  pub invoices : All (λ d. d.id ≢ id) s.invoices
  pub payments : All (λ p. p.invoice ≢ id) s.payments

is_live-fixes : (k : ℕ) (d : Invoice) → is_live k d ≡ true → d.id ≡ k
is_live-fixes k d e = ground arith

module _ (c : Currency) (h : IsCurrency c) (validate : Schema) (schema : IsSchema validate)
    (body : InvoiceBody) (s : Db) (v : IsConsistent s) (accepted : validate body ≡ none) where
  no_discount : or_else body.discount (pos 0) ≡ pos 0
  no_discount = rw (schema.no_discount body accepted)

  module _ (admin id : ℕ) (unused : IsUnused id s) where
    abbrev doc : Invoice
    doc = new_invoice c body admin id

    abbrev with_pdf : Invoice → Invoice
    with_pdf d = record d { pdf = some (invoice_pdf id) }

    kept :
        (P : Invoice → Type 0)
        → ((d : Invoice) → P d → P (with_pdf d))
        → P doc
        → All P s.invoices
        → All P (update_first (λ d. d.id == id) with_pdf (s.invoices ++ doc ∷ []))
    kept P stays new old =
        All-update_first_any (λ d. d.id == id) with_pdf P (s.invoices ++ doc ∷ []) stays
          (All-append P s.invoices (doc ∷ []) old (new, tt))

    doc-IsSettled : IsSettled doc
    doc-IsSettled =
        rw (status_on_create-choose c h doc.total doc.discount)
          (choose-Means (doc.total -ℤ doc.discount) (pos 0))

    created :
        (settings : List Setting)
        → IsConsistent (record s {
          invoices = update_first (λ d. d.id == id) with_pdf (s.invoices ++ doc ∷ []);
          settings = settings;
        })
    created settings = record {
      invoice_ids =
          Distinct-update_first (λ d. d.id == id) with_pdf (λ d. d.id) (λ d. refl) _
            (Distinct-snoc (λ d. d.id) s.invoices doc unused.invoices v.invoice_ids);
      payment_ids = v.payment_ids;
      balanced =
          kept (IsBalanced s.payments) (λ d b. b)
            (λ _. sym (credits-unused id s.payments unused.payments)) v.balanced;
      settled = kept IsSettled (λ d m. m) doc-IsSettled v.settled;
      undiscounted = kept (λ d. d.discount ≡ pos 0) (λ d e. e) no_discount v.undiscounted;
    }

  module _ (id : ℕ) (d : Invoice) (found : first (is_live id) s.invoices ≡ some d) where
    abbrev edit : Invoice → Invoice
    edit = apply_body c body id d.credit

    edit-IsSettled : (x : Invoice) → x ≡ d → x.discount ≡ pos 0 → IsSettled (edit x)
    edit-IsSettled x q z = rw (schema.no_discount body accepted) (
        rw (z, status_after_update-choose c h (edit x).total (pos 0) d.credit, q)
          (choose-Means ((edit x).total -ℤ pos 0) d.credit))

    edited : IsConsistent (record s { invoices = update_first (is_live id) edit s.invoices })
    edited = record {
      invoice_ids =
          Distinct-update_first (is_live id) edit (λ x. x.id) (λ x. refl) s.invoices v.invoice_ids;
      payment_ids = v.payment_ids;
      balanced = All-update_first_any (is_live id) edit _ s.invoices (λ x b. b) v.balanced;
      settled =
          All-update_first (is_live id) edit (λ x. x.id) id (is_live-fixes id)
            (λ x. IsSettled x × ((x.discount ≡ pos 0) × (x.id ≡ id → x ≡ d))) IsSettled s.invoices
            v.invoice_ids (λ x e (_, (z, same)). edit-IsSettled x (same (is_live-fixes id x e)) z)
            (λ x e (m, _). m)
            (All-both _ _ s.invoices v.settled (
              All-both _ _ s.invoices v.undiscounted (
                first_unique (is_live id) (λ x. x.id) id s.invoices d v.invoice_ids
                  (is_live-fixes id) found)));
      undiscounted =
          All-update_first_any (is_live id) edit (λ x. x.discount ≡ pos 0) s.invoices
            (λ x z. rw (schema.no_discount body accepted) z) v.undiscounted;
    }

-- Removal: the invoice leaves the balance, and the payments that go with it belong to no other.
module _ (s : Db) (id : ℕ) (v : IsConsistent s) where
  abbrev removed_payments : List Payment
  removed_payments = update_all (λ p. p.invoice == id) (λ p. record p { removed = true }) s.payments

  other_IsBalanced :
      (x : Invoice) → is_live id x ≡ false → IsBalanced s.payments x → IsBalanced removed_payments x
  other_IsBalanced x e b live = b live ∙ sym (credits-remove_all x.id id s.payments (ground arith))

  removed_from : IsConsistent (record s {
    invoices = update_first (is_live id) (λ d. record d { removed = true }) s.invoices;
    payments = removed_payments;
  })
  removed_from = record {
    invoice_ids =
        Distinct-update_first (is_live id) (λ d. record d { removed = true }) (λ x. x.id)
          (λ x. refl) s.invoices v.invoice_ids;
    payment_ids =
        Distinct-update_all (λ p. p.invoice == id) (λ p. record p { removed = true }) (λ p. p.id)
          (λ p. refl) s.payments v.payment_ids;
    balanced =
        All-update_first (is_live id) (λ d. record d { removed = true }) (λ x. x.id) id
          (is_live-fixes id) (IsBalanced s.payments) (IsBalanced removed_payments) s.invoices
          v.invoice_ids (λ x e b live. cc) other_IsBalanced v.balanced;
    settled =
        All-update_first_any (is_live id) (λ d. record d { removed = true }) IsSettled s.invoices
          (λ x m. m) v.settled;
    undiscounted =
        All-update_first_any (is_live id) (λ d. record d { removed = true })
          (λ x. x.discount ≡ pos 0) s.invoices (λ x z. z) v.undiscounted;
  }

  untouched :
      first (is_live id) s.invoices ≡ none
      → update_first (is_live id) (λ d. record d { removed = true }) s.invoices ≡ s.invoices
  untouched e = update_first-none (is_live id) (λ d. record d { removed = true }) s.invoices e

  remove-in_memory : IsConsistent (remove in_memory id s).1
  unfolding remove
  remove-in_memory = elim (Option-cases (first (is_live id) s.invoices)) [
    | inl missing ↦ rw (remove, missing, untouched missing) v
    | inr (d, found) ↦
        rw (remove, found, is_live-fixes id d (first-eq-true (is_live id) s.invoices d found))
          removed_from
  ]

module _ (c : Currency) (validate : Schema) (h : IsCurrency c) (schema : IsSchema validate)
    (body : InvoiceBody) (id : ℕ) (s : Db) (v : IsConsistent s) where
  create-in_memory :
      (is_valid : Invoice → Bool) (admin : ℕ)
      → IsUnused id s
      → IsConsistent (create in_memory c validate is_valid body admin id s).1
  unfolding create
  create-in_memory is_valid admin unused = elim (Option-cases (validate body)) [
    | inr (details, refused) ↦ rw (create, refused) v
    | inl accepted ↦ elim (Bool-cases (is_valid (new_invoice c body admin id))) [
      | inl ok ↦
          rw (create, accepted, ok)
            (created c h validate schema body s v accepted admin id unused _)
      | inr bad ↦ rw (create, accepted, bad) v
    ]
  ]

  update-in_memory : IsConsistent (update in_memory c validate body id s).1
  unfolding update
  update-in_memory = elim (Option-cases (validate body)) [
    | inr (details, refused) ↦ rw (update, refused) v
    | inl accepted ↦ elim (Option-cases (first (is_live id) s.invoices)) [
      | inl missing ↦ rw (update, accepted, missing) v
      | inr (d, found) ↦ elim (empty_or_not body.items) [
        | inl empty ↦ rw (update, accepted, found, empty) v
        | inr (i, is, more) ↦
            rw (update, accepted, found, more)
              (edited c h validate schema body s v accepted id d found)
      ]
    ]
  ]

-- Whatever it answers, the creation of an invoice keeps the ledger consistent, if no invoice has the
-- new document's id and no payment refers to it, and the libraries do as documented.
pub create_invoice-IsConsistent :
    (db : Mongoose) (c : Currency) (validate : Schema) (is_valid : Invoice → Bool)
    (body : InvoiceBody) (admin id : ℕ) (s : Db)
    → IsMongoose db
    → IsCurrency c
    → IsSchema validate
    → IsUnused id s
    → IsConsistent s
    → IsConsistent (create db c validate is_valid body admin id s).1
create_invoice-IsConsistent db c validate is_valid body admin id s m h schema unused v =
    rw (eq-in_memory m) (create-in_memory c validate h schema body id s v is_valid admin unused)

-- Whatever it answers, the update of an invoice keeps the ledger consistent, if the libraries do as
-- documented.
pub update_invoice-IsConsistent :
    (db : Mongoose) (c : Currency) (validate : Schema) (body : InvoiceBody) (id : ℕ) (s : Db)
    → IsMongoose db
    → IsCurrency c
    → IsSchema validate
    → IsConsistent s
    → IsConsistent (update db c validate body id s).1
update_invoice-IsConsistent db c validate body id s m h schema v =
    rw (eq-in_memory m) (update-in_memory c validate h schema body id s v)

-- Whatever it answers, the removal of an invoice keeps the ledger consistent, if mongoose does as
-- documented.
pub remove_invoice-IsConsistent :
    (db : Mongoose) (id : ℕ) (s : Db)
    → IsMongoose db
    → IsConsistent s
    → IsConsistent (remove db id s).1
remove_invoice-IsConsistent db id s m v = rw (eq-in_memory m) (remove-in_memory s id v)
