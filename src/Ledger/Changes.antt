-- ===== src/Ledger/Changes.antt =====
-- paymentController keeps the ledger consistent when a payment changes: update.js and remove.js.
use dev_ops_projet.Base.{
  ℕ, ℤ, pos, neg, ◌+ℤ◌, ◌-ℤ◌, ◌≡◌, refl, sym, ◌∙◌, ap, ◌≢◌, true, false, some, arith, ◌==◌, ==_iff,
  Bool-cases, Option-cases, inl, inr, ltb_ℤ, int_laws, List, subst, +ℤ_zero,
}
use dev_ops_projet.Mongo.{Mongoose, in_memory, first, update_first}
use dev_ops_projet.Mongo.Laws.{IsMongoose, eq-in_memory}
use dev_ops_projet.Calculate.{Currency, IsCurrency, add, sub}
use dev_ops_projet.Documents.{Invoice, Payment, PaymentStatus, Db}
use dev_ops_projet.Payment.Create.{status_after_payment}
use dev_ops_projet.Payment.Update.{
  PaymentChange, is_zero, current_amount, apply_change, adjust_invoice, is_live_payment, update,
}
use dev_ops_projet.Payment.Remove.{debit_invoice, status_after_removal, remove}
use dev_ops_projet.Mongo.Keys.{Distinct-update_first, first-eq-true}
use dev_ops_projet.Ledger.Credits.{share, credits, credits-update_first}
use dev_ops_projet.Ledger.Status.{choose, status_after_payment-choose, status_after_removal-choose}
use dev_ops_projet.Ledger.Invariant.{IsConsistent}
use dev_ops_projet.Ledger.Writes.{IsCredit, credit-IsConsistent}

-- A change `f` of the live payment `p` that moves what it gives to its own invoice by `amount`.
module _ (s : Db) (id : ℕ) (p : Payment) (d : Invoice) (amount : ℤ) (f : Payment → Payment)
    (v : IsConsistent s) (paying : first (is_live_payment id) s.payments ≡ some p)
    (owner : first (λ x. x.id == p.invoice) s.invoices ≡ some d)
    (keeps : (q : Payment) → (f q).id ≡ q.id)
    (mine : share p.invoice (f p) -ℤ share p.invoice p ≡ amount)
    (others : (j : ℕ) → j ≢ p.invoice → share j (f p) -ℤ share j p ≡ pos 0) where
  abbrev changed : List Payment
  changed = update_first (is_live_payment id) f s.payments

  owner_id : d.id ≡ p.invoice
  owner_id = (==_iff _ _).0 (first-eq-true (λ x. x.id == p.invoice) s.invoices d owner)

  moved : (j : ℕ) → credits j changed ≡ credits j s.payments +ℤ (share j (f p) -ℤ share j p)
  moved j = credits-update_first j (is_live_payment id) f s.payments p paying

  change-IsConsistent :
      (g : Invoice → Invoice) (status : PaymentStatus)
      → IsCredit g amount status
      → status ≡ choose (d.total -ℤ d.discount) (d.credit +ℤ amount)
      → IsConsistent (record s {
        invoices = update_first (λ x. x.id == d.id) g s.invoices;
        payments = changed;
      })
  change-IsConsistent g status w e =
      credit-IsConsistent s d.id amount d g (λ x. x.id == p.invoice) changed v
        (λ x t. (==_iff _ _).0 t ∙ sym owner_id) owner (subst (IsCredit g amount) e w)
        (Distinct-update_first (is_live_payment id) f (λ q. q.id) keeps s.payments v.payment_ids)
        (rw owner_id (moved p.invoice ∙ ap (λ a. credits p.invoice s.payments +ℤ a) mine))
        (λ j ne.
          moved j
          ∙ ap (λ a. credits j s.payments +ℤ a) (others j (λ q. ne (q ∙ sym owner_id)))
          ∙ +ℤ_zero _)

-- What a change of the amount, and a removal, moves.
module _ (body : PaymentChange) (now : ℕ) (p : Payment) (a : ℤ) (given : body.amount ≡ some a)
    (live : p.removed ≡ false) where
  change_mine :
      share p.invoice (apply_change body now p) -ℤ share p.invoice p
      ≡ current_amount body -ℤ p.amount
  change_mine = ground arith

  change_others : (j : ℕ) → j ≢ p.invoice → share j (apply_change body now p) -ℤ share j p ≡ pos 0
  unfolding ◌-ℤ◌
  change_others j ne = ground arith

module _ (p : Payment) (live : p.removed ≡ false) where
  remove_mine : share p.invoice (record p { removed = true }) -ℤ share p.invoice p ≡ neg p.amount
  remove_mine =
      let before : share p.invoice p ≡ p.amount = ground arith in
      let after : share p.invoice (record p { removed = true }) ≡ pos 0 = ground arith in
      rw (before, after) (omega int_laws)

  remove_others :
      (j : ℕ) → j ≢ p.invoice → share j (record p { removed = true }) -ℤ share j p ≡ pos 0
  unfolding ◌-ℤ◌
  remove_others j ne = ground arith

is_live_payment-removed : (id : ℕ) (p : Payment) → is_live_payment id p ≡ true → p.removed ≡ false
is_live_payment-removed id p e = ground arith

adjust_invoice-IsCredit : (a : ℤ) (t : PaymentStatus) → IsCredit (adjust_invoice a t) a t
adjust_invoice-IsCredit a t = record {
  id = λ d. refl;
  removed = λ d. refl;
  total = λ d. refl;
  discount = λ d. refl;
  credit = λ d. refl;
  payment_status = λ d. refl;
}

debit_invoice-IsCredit :
    (k : ℕ) (a : ℤ) (t : PaymentStatus) → IsCredit (debit_invoice k a t) (neg a) t
debit_invoice-IsCredit k a t = record {
  id = λ d. refl;
  removed = λ d. refl;
  total = λ d. refl;
  discount = λ d. refl;
  credit = λ d. refl;
  payment_status = λ d. refl;
}

module _ (s : Db) (id : ℕ) (v : IsConsistent s) where
  update-in_memory :
      (c : Currency) (body : PaymentChange) (now : ℕ) (a : ℤ)
      → IsCurrency c
      → body.amount ≡ some a
      → IsConsistent (update in_memory c body id now s).1
  unfolding update
  update-in_memory c body now a h given = elim (Bool-cases (is_zero body.amount)) [
    | inl e ↦ rw (update, e) v
    | inr e ↦ elim (Option-cases (first (is_live_payment id) s.payments)) [
      | inl missing ↦ rw (update, e, missing) v
      | inr (p, paying) ↦ elim (Option-cases (first (λ x. x.id == p.invoice) s.invoices)) [
        | inl unowned ↦ rw (update, e, paying, unowned) v
        | inr (d, owner) ↦
            let changed = sub c (current_amount body) p.amount in
            let max = sub c d.total (add c d.discount d.credit) in
            elim (Bool-cases (ltb_ℤ max changed)) [
              | inl over ↦ rw (update, e, paying, owner, over) v
              | inr fits ↦
                  let live = is_live_payment-removed id p (first-eq-true _ s.payments p paying) in
                  rw (update, e, paying, owner, fits, paying, owner)
                    (change-IsConsistent s id p d changed (apply_change body now) v paying owner
                      (λ q. refl)
                      (change_mine body now p a given live
                        ∙ sym (h.subtract_lem (current_amount body) p.amount))
                      (change_others body now p a given live)
                      (adjust_invoice changed
                        (status_after_payment c d.total d.discount d.credit changed))
                      _ (adjust_invoice-IsCredit changed _)
                      (status_after_payment-choose c h d.total d.discount d.credit changed))
            ]
      ]
    ]
  ]

  remove-in_memory : IsConsistent (remove in_memory id s).1
  unfolding remove
  remove-in_memory = elim (Option-cases (first (is_live_payment id) s.payments)) [
    | inl missing ↦ rw (remove, missing) v
    | inr (p, paying) ↦ elim (Option-cases (first (λ x. x.id == p.invoice) s.invoices)) [
      | inl unowned ↦ rw (remove, paying, unowned) v
      | inr (d, owner) ↦
          let live = is_live_payment-removed id p (first-eq-true _ s.payments p paying) in
          rw (remove, paying, owner)
            (change-IsConsistent s id p d (neg p.amount) (λ q. record q { removed = true }) v paying
              owner (λ q. refl) (remove_mine p live) (remove_others p live)
              (debit_invoice p.id p.amount
                (status_after_removal d.total d.discount d.credit p.amount))
              _ (debit_invoice-IsCredit p.id p.amount _)
              (status_after_removal-choose d.total d.discount d.credit p.amount))
    ]
  ]

-- Whatever it answers, the update of a payment with a given amount keeps the ledger consistent, if
-- mongoose and currency.js do as documented.
pub update_payment-IsConsistent :
    (db : Mongoose) (c : Currency) (body : PaymentChange) (id now : ℕ) (a : ℤ) (s : Db)
    → IsMongoose db
    → IsCurrency c
    → body.amount ≡ some a
    → IsConsistent s
    → IsConsistent (update db c body id now s).1
update_payment-IsConsistent db c body id now a s m h given v =
    rw (eq-in_memory m) (update-in_memory s id v c body now a h given)

-- Whatever it answers, the removal of a payment keeps the ledger consistent, if mongoose does as
-- documented.
pub remove_payment-IsConsistent :
    (db : Mongoose) (id : ℕ) (s : Db)
    → IsMongoose db
    → IsConsistent s
    → IsConsistent (remove db id s).1
remove_payment-IsConsistent db id s m v = rw (eq-in_memory m) (remove-in_memory s id v)
