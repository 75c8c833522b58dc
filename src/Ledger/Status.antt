-- ===== src/Ledger/Status.antt =====
-- What a payment status means, independently of the ternaries of the four handlers that write it.
use dev_ops_projet.Base.{
  ℤ, pos, ◌+ℤ◌, ◌-ℤ◌, neg, ◌≡◌, ◌≢◌, arith, ltb_ℤ, ◌==ℤ◌, ◌<ℤ◌, ◌≤ℤ◌, if◌then◌else◌, ==ℤ_iff,
  int_laws,
}
use dev_ops_projet.Calculate.{Currency, IsCurrency, sub}
use dev_ops_projet.Documents.{PaymentStatus, paid, unpaid, partially}
use dev_ops_projet.Invoice.Update.{status_after_update}
use dev_ops_projet.Payment.Create.{status_after_payment}
use dev_ops_projet.Payment.Remove.{status_after_removal}

-- `due` is the total less the discount.
abbrev pub Means : PaymentStatus → ℤ → ℤ → Type 0
Means paid due credit = credit ≡ due
Means partially due credit = (credit ≢ due) × (pos 0 <ℤ credit)
Means unpaid due credit = (credit ≢ due) × (credit ≤ℤ pos 0)

abbrev pub choose : ℤ → ℤ → PaymentStatus
choose due credit =
    if due ==ℤ credit then paid else if ltb_ℤ (pos 0) credit then partially else unpaid

pub choose-Means : (due credit : ℤ) → Means (choose due credit) due credit
choose-Means due credit = ground (arith, ==ℤ_iff due credit)

-- Each handler's ternary is that choice, for the credit after its write.
module _ (c : Currency) (h : IsCurrency c) where
  pub status_after_update-choose :
      (total discount credit : ℤ)
      → status_after_update c total discount credit ≡ choose (total -ℤ discount) credit
  status_after_update-choose total discount credit = rw (h.subtract_lem total discount)

  pub status_after_payment-choose :
      (total discount credit amount : ℤ)
      → status_after_payment c total discount credit amount
        ≡ choose (total -ℤ discount) (credit +ℤ amount)
  status_after_payment-choose total discount credit amount =
      rw (h.subtract_lem total discount, h.add_lem credit amount)

  pub status_on_create-choose :
      (total discount : ℤ)
      → (if sub c total discount ==ℤ pos 0 then paid else unpaid)
        ≡ choose (total -ℤ discount) (pos 0)
  status_on_create-choose total discount = rw (h.subtract_lem total discount) (ground arith)

pub status_after_removal-choose :
    (total discount credit amount : ℤ)
    → status_after_removal total discount credit amount
      ≡ choose (total -ℤ discount) (credit +ℤ neg amount)
status_after_removal-choose total discount credit amount =
    let e : credit -ℤ amount ≡ credit +ℤ neg amount = omega int_laws in rw e
