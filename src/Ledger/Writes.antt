-- ===== src/Ledger/Writes.antt =====
-- The pair of writes by which a payment handler changes a payment and the credit of its invoice
-- keeps the invariant, whatever the payments become, if the invoice's sum changes by as much.
use dev_ops_projet.Base.{
  ℕ, ℤ, pos, ◌+ℤ◌, ◌-ℤ◌, ◌≡◌, sym, ◌∙◌, ap, ◌≢◌, Bool, true, some, List, All, ◌==◌, ==_iff,
}
use dev_ops_projet.Mongo.{first, update_first}
use dev_ops_projet.Documents.{Invoice, Payment, PaymentStatus, Db}
use dev_ops_projet.Mongo.Keys.{
  Distinct, All-update_first, All-update_first_any, Distinct-update_first, All-both, first_unique,
}
use dev_ops_projet.Ledger.Credits.{credits}
use dev_ops_projet.Ledger.Status.{choose, choose-Means}
use dev_ops_projet.Ledger.Invariant.{IsBalanced, IsSettled, IsConsistent}

-- The write leaves all but the credit, the status and the list of payments as it was.
pub record IsCredit (f : Invoice → Invoice) (amount : ℤ) (status : PaymentStatus) : Type 0 where
  pub id : (d : Invoice) → (f d).id ≡ d.id
  pub removed : (d : Invoice) → (f d).removed ≡ d.removed
  pub total : (d : Invoice) → (f d).total ≡ d.total
  pub discount : (d : Invoice) → (f d).discount ≡ d.discount
  pub credit : (d : Invoice) → (f d).credit ≡ d.credit +ℤ amount
  pub payment_status : (d : Invoice) → (f d).payment_status ≡ status

module _ (s : Db) (k : ℕ) (amount : ℤ) (d : Invoice) (f : Invoice → Invoice) (t : Invoice → Bool)
    (ps : List Payment) (v : IsConsistent s) (fixes : (x : Invoice) → t x ≡ true → x.id ≡ k)
    (found : first t s.invoices ≡ some d)
    (w : IsCredit f amount (choose (d.total -ℤ d.discount) (d.credit +ℤ amount)))
    (ids : Distinct (λ p. p.id) ps) (here : credits k ps ≡ credits k s.payments +ℤ amount)
    (elsewhere : (j : ℕ) → j ≢ k → credits j ps ≡ credits j s.payments) where
  abbrev at_k : Invoice → Bool
  at_k x = x.id == k

  at_k-fixes : (x : Invoice) → at_k x ≡ true → x.id ≡ k
  at_k-fixes x e = (==_iff x.id k).0 e

  IsBalanced-after : All (IsBalanced ps) (update_first at_k f s.invoices)
  IsBalanced-after =
      All-update_first at_k f (λ x. x.id) k at_k-fixes (IsBalanced s.payments) (IsBalanced ps)
        s.invoices v.invoice_ids
        (λ x e b live.
          let q = at_k-fixes x e in
          w.credit x
          ∙ ap (λ c. c +ℤ amount) (b (sym (w.removed x) ∙ live))
          ∙ ap (λ j. credits j s.payments +ℤ amount) q
          ∙ sym here
          ∙ ap (λ j. credits j ps) (sym q ∙ sym (w.id x)))
        (λ x e b live. b live ∙ sym (elsewhere x.id (λ q. cc ((==_iff x.id k).1 q)))) v.balanced

  settled_after : All IsSettled (update_first at_k f s.invoices)
  settled_after =
      All-update_first at_k f (λ x. x.id) k at_k-fixes (λ x. IsSettled x × (x.id ≡ k → x ≡ d))
        IsSettled s.invoices v.invoice_ids
        (λ x e (h, unique).
          let q = unique (at_k-fixes x e) in
          rw (w.payment_status x, w.total x, w.discount x, w.credit x, q)
            (choose-Means (d.total -ℤ d.discount) (d.credit +ℤ amount)))
        (λ x e (h, _). h)
        (All-both IsSettled _ s.invoices v.settled
          (first_unique t (λ x. x.id) k s.invoices d v.invoice_ids fixes found))

  pub credit-IsConsistent :
      IsConsistent (record s { invoices = update_first at_k f s.invoices; payments = ps })
  credit-IsConsistent = record {
    invoice_ids = Distinct-update_first at_k f (λ x. x.id) w.id s.invoices v.invoice_ids;
    payment_ids = ids;
    balanced = IsBalanced-after;
    settled = settled_after;
    undiscounted =
        All-update_first_any at_k f (λ x. x.discount ≡ pos 0) s.invoices (λ x h. w.discount x ∙ h)
          v.undiscounted;
  }
