-- ===== src/Forms/Totals.antt =====
-- The totals that the form shows and those that the server stores.
use dev_ops_projet.Base.{
  Option, ℤ, pos, ◌≡◌, refl, sym, ap, ◌∙◌, ◌⊎◌, inl, inr, ◌==ℤ◌, none, some, List, [], ◌∷◌, map,
  Bool-cases, ==ℤ_iff, +ℤ_comm, +ℤ_zero,
}
use dev_ops_projet.Calculate.{Currency, IsCurrency, Decimal, add, multiply}
use dev_ops_projet.Documents.{Item}
use dev_ops_projet.Billing.{bill_from, bill, tax_of, grand_total}
use dev_ops_projet.Forms.{
  Row, FormTotals, both, add_product, sum_rows, handel_values_change, on_submit, handel_tax_change,
  tax_effect, sum_priced, update_values_change,
}

-- currency.js gives 0 for a product with 0.
abbrev pub IsZeroed : Currency → Type 0
IsZeroed c = (x y : Decimal) → (x.units ≡ pos 0) ⊎ (y.units ≡ pos 0) → c.multiply x y ≡ pos 0

-- The row that shows an item, without an offer's price.
abbrev pub row_of : Item → Row
row_of item = record {
  item_name = item.item_name;
  description = item.description;
  quantity = some item.quantity;
  price = some item.price;
  offer_price = none;
}

module _ (c : Currency) (h : IsCurrency c) (z : IsZeroed c) where
  -- The form leaves out a product with a zero, the server adds it.
  add_product-both :
      (acc : ℤ) (x y : Decimal)
      → add_product c acc (both (some x) (some y)) ≡ add c acc (multiply c x y)
  add_product-both acc x y = elim (Bool-cases (x.units ==ℤ pos 0)) [
    | inl e ↦ rw e (skipped (inl ((==ℤ_iff x.units (pos 0)).0 e)))
    | inr e ↦ elim (Bool-cases (y.units ==ℤ pos 0)) [
      | inl f ↦ rw (e, f) (skipped (inr ((==ℤ_iff y.units (pos 0)).0 f)))
      | inr f ↦ rw (e, f) refl
    ]
  ]
    where
      skipped : (x.units ≡ pos 0) ⊎ (y.units ≡ pos 0) → acc ≡ add c acc (multiply c x y)
      skipped p = sym (ap (add c acc) (z x y p) ∙ h.add_lem acc (pos 0) ∙ +ℤ_zero acc)

  sum_rows-bill_from :
      (items : List Item) (t : FormTotals)
      → (sum_rows c (map (λ i. some (row_of i)) items) t).sub_total
        ≡ (bill_from c t.sub_total items).sub_total
  unfolding bill_from
  sum_rows-bill_from [] t = refl
  sum_rows-bill_from (i ∷ is) t =
      sum_rows-bill_from is _
      ∙ ap (λ s. (bill_from c s is).sub_total) (add_product-both t.sub_total i.quantity i.price)

sum_priced-sum_rows :
    (c : Currency) (rows : List (Option Row)) (t : FormTotals)
    → sum_priced c rows t.sub_total ≡ (sum_rows c rows t).sub_total
sum_priced-sum_rows c [] t = refl
sum_priced-sum_rows c (none ∷ rows) t = sum_priced-sum_rows c rows t
sum_priced-sum_rows c (some item ∷ rows) t = sum_priced-sum_rows c rows _

-- Where sums of cents are exact and a product with zero is zero: for filled in rows, the subtotal that
-- the forms of a new and of an old document show, and the tax and the total that they show with it,
-- are those that the server computes from the same items and the same tax rate, whatever the forms
-- showed before.
pub handel_values_change-bill :
    (c : Currency) (items : List Item) (tax_rate : Decimal) (t : FormTotals)
    → IsCurrency c
    → IsZeroed c
    → ((handel_values_change c (some (map (λ i. some (row_of i)) items)) t).sub_total
        ≡ (bill c items).sub_total)
      × (update_values_change c (some (map (λ i. some (row_of i)) items)) t.sub_total
          ≡ (bill c items).sub_total)
      × (tax_effect c (bill c items).sub_total (handel_tax_change c tax_rate) ≡ (
        tax_of c (bill c items).sub_total tax_rate,
        grand_total c (bill c items).sub_total (tax_of c (bill c items).sub_total tax_rate),
      ))
unfolding handel_values_change update_values_change bill tax_of grand_total tax_effect
handel_values_change-bill c items tax_rate t h z =
    let sub = (bill c items).sub_total in
    let tax = tax_of c sub tax_rate in
    let rows : List (Option Row) = map (λ i. some (row_of i)) items in
    let nothing : FormTotals = record { sub_total = pos 0; offer_sub_total = pos 0 } in
    let created = sum_rows-bill_from c h z items nothing in
    (
      created,
      sum_priced-sum_rows c rows nothing ∙ created,
      ap (λ total. (tax, total)) (h.add_lem tax sub ∙ +ℤ_comm tax sub ∙ sym (h.add_lem sub tax)),
    )

on_submit-bill_from :
    (c : Currency) (acc : ℤ) (items : List Item)
    → (bill_from c acc (on_submit c items)).lines ≡ on_submit c items
unfolding bill_from on_submit
on_submit-bill_from c acc [] = refl
on_submit-bill_from c acc (i ∷ is) =
    ap (λ ls. record i { total = multiply c i.quantity i.price } ∷ ls)
      (on_submit-bill_from c (add c acc (multiply c i.quantity i.price)) is)

-- The totals that the form puts in the items it submits are those that the server puts in them.
pub on_submit-bill :
    (c : Currency) (items : List Item) → (bill c (on_submit c items)).lines ≡ on_submit c items
unfolding bill
on_submit-bill c items = on_submit-bill_from c (pos 0) items
