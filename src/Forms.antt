-- ===== src/Forms.antt =====
-- The totals that the client's forms show while an invoice or a quote is typed in, and what they
-- submit: frontend/src/modules/ErpPanelModule/CreateItem.jsx and UpdateItem.jsx, and the totals of
-- InvoiceModule/Forms/InvoiceForm.jsx and QuoteModule/Forms/QuoteForm.jsx. `calculate` is
-- frontend/src/utils/calculate.js, the same as the server's.
pub mod Totals
use dev_ops_projet.Base.{
  ◌+◌, ℤ, pos, String, Bool, true, false, not, ◌&&◌, ◌==ℤ◌, Option, none, some, List, [], ◌∷◌, map,
  if◌then◌else◌,
}
use dev_ops_projet.Calculate.{Currency, Decimal, of_cents, add, multiply}
use dev_ops_projet.Documents.{Item}

-- A row of the form; a field that is not filled in is none.
pub record Row : Type 0 where
  pub item_name : String
  pub description : Option String
  pub quantity : Option Decimal
  pub price : Option Decimal
  pub offer_price : Option Decimal

-- The state of CreateItem: `subTotal` and `offerSubTotal`.
pub record FormTotals : Type 0 where
  pub sub_total : ℤ
  pub offer_sub_total : ℤ

-- `x && y` on two numbers that may be missing: both are there and neither is 0.
abbrev pub both : Option Decimal → Option Decimal → Option (Decimal × Decimal)
both none y = none
both (some x) none = none
both (some x) (some y) =
    if not (x.units ==ℤ pos 0) && not (y.units ==ℤ pos 0) then some (x, y) else none

module _ (c : Currency) where
  abbrev pub add_product : ℤ → Option (Decimal × Decimal) → ℤ
  add_product acc none = acc
  add_product acc (some (x, y)) = add c acc (multiply c x y)

  -- The loop of `handelValuesChange`; a row may be undefined.
  abbrev pub sum_rows : List (Option Row) → FormTotals → FormTotals
  sum_rows [] t = t
  sum_rows (none ∷ rows) t = sum_rows rows t
  sum_rows (some item ∷ rows) t = sum_rows rows (record {
    sub_total = add_product t.sub_total (both item.quantity item.price);
    offer_sub_total = offer_product t.offer_sub_total (both item.offer_price item.quantity);
  })
    where
      offer_product : ℤ → Option (Decimal × Decimal) → ℤ
      offer_product acc none = acc
      offer_product acc (some (x, y)) = add c acc (multiply c y x)

  -- `handelValuesChange` of CreateItem: the new state, from zero if the form has items.
  unfoldable pub handel_values_change : Option (List (Option Row)) → FormTotals → FormTotals
  handel_values_change none t = t
  handel_values_change (some items) t =
      sum_rows items (record { sub_total = pos 0; offer_sub_total = pos 0 })

  -- `handelValuesChange` of UpdateItem, which has no offers.
  abbrev pub sum_priced : List (Option Row) → ℤ → ℤ
  sum_priced [] sub_total = sub_total
  sum_priced (none ∷ rows) sub_total = sum_priced rows sub_total
  sum_priced (some item ∷ rows) sub_total =
      sum_priced rows (add_product sub_total (both item.quantity item.price))

  unfoldable pub update_values_change : Option (List (Option Row)) → ℤ → ℤ
  update_values_change none sub_total = sub_total
  update_values_change (some items) sub_total = sum_priced items (pos 0)

  -- `onSubmit` of CreateItem sets the total of every item.
  unfoldable pub on_submit : List Item → List Item
  on_submit items =
      map {A = Item} (λ item. record item { total = multiply c item.quantity item.price }) items

  -- `handelTaxChange`, and the effect on `[subTotal, taxRate]`: `taxTotal` and `total`.
  abbrev pub handel_tax_change : Decimal → Decimal
  handel_tax_change value = record value { scale = value.scale + 2 }

  unfoldable pub tax_effect : ℤ → Decimal → ℤ × ℤ
  tax_effect sub_total tax_rate =
      let current_total = add c (multiply c (of_cents sub_total) tax_rate) sub_total in
      (multiply c (of_cents sub_total) tax_rate, current_total)
