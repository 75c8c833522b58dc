-- ===== src/Billing.antt =====
-- The loop over the items, the same in invoiceController and quoteController, create.js and
-- update.js: it sets every item's total and adds the totals up.
use dev_ops_projet.Base.{ℤ, pos, ◌+ℤ◌, ◌≡◌, ◌∙◌, ap, List, [], ◌∷◌, int_laws, +ℤ_assoc}
use dev_ops_projet.Calculate.{Currency, IsCurrency, Decimal, of_cents, percent, add, multiply}
use dev_ops_projet.Documents.{Item}

pub record Bill : Type 0 where
  pub lines : List Item
  pub sub_total : ℤ

-- Independent of the loop: the items' totals, summed from the right.
abbrev pub sum_totals : List Item → ℤ
sum_totals [] = pos 0
sum_totals (i ∷ is) = i.total +ℤ sum_totals is

module _ (c : Currency) where
  abbrev price_item : Item → Item
  price_item item = record item { total = multiply c item.quantity item.price }

  unfoldable pub bill_from : ℤ → List Item → Bill
  bill_from sub_total [] = record { lines = []; sub_total = sub_total }
  bill_from sub_total (item ∷ rest) =
      let b = bill_from (add c sub_total (price_item item).total) rest in
      record { lines = price_item item ∷ b.lines; sub_total = b.sub_total }

  unfoldable pub bill : List Item → Bill
  unfolding bill_from
  bill items = bill_from (pos 0) items

  -- `taxTotal` and `total`.
  unfoldable pub tax_of : ℤ → Decimal → ℤ
  tax_of sub_total tax_rate = multiply c (of_cents sub_total) (percent tax_rate)

  unfoldable pub grand_total : ℤ → ℤ → ℤ
  grand_total sub_total tax_total = add c sub_total tax_total

  module _ (h : IsCurrency c) where
    bill_from-sub_total :
        (acc : ℤ) (items : List Item)
        → (bill_from acc items).sub_total ≡ acc +ℤ sum_totals (bill_from acc items).lines
    unfolding bill_from
    bill_from-sub_total acc [] = omega int_laws
    bill_from-sub_total acc (i ∷ is) =
        let t = multiply c i.quantity i.price in
        bill_from-sub_total (add c acc t) is
        ∙ ap (λ s. s +ℤ sum_totals (bill_from (add c acc t) is).lines) (h.add_lem acc t)
        ∙ +ℤ_assoc acc t _

    -- The subtotal that the loop adds up is the sum of the totals that it stores in the items, where
    -- sums of cents are exact.
    bill-sub_total : (items : List Item) → (bill items).sub_total ≡ sum_totals (bill items).lines
    unfolding bill
    bill-sub_total items = bill_from-sub_total (pos 0) items ∙ omega int_laws
