-- ===== src/Calculate.antt =====
-- `calculate` of backend/src/helpers.js, over currency.js as a parameter. Amounts of money are
-- integers of cents; other numbers (quantities, prices, rates) are decimals.
use dev_ops_projet.Base.{ℕ, ℤ, ◌+◌, ◌≡◌, ◌+ℤ◌, ◌-ℤ◌}

-- units / 10 ^ scale
pub record Decimal : Type 0 where
  pub units : ℤ
  pub scale : ℕ

abbrev pub of_cents : ℤ → Decimal
of_cents a = record { units = a; scale = 2 }

-- JavaScript's `r / 100`.
abbrev pub percent : Decimal → Decimal
percent r = record r { scale = r.scale + 2 }

-- `currency(a).op(b).value` of currency.js, which rounds to cents.
pub record Currency : Type 0 where
  pub add : ℤ → ℤ → ℤ
  pub subtract : ℤ → ℤ → ℤ
  pub multiply : Decimal → Decimal → ℤ
  pub divide : Decimal → Decimal → ℤ

-- Sums and differences of cents are exact. Nothing is said of products and their rounding.
pub record IsCurrency (c : Currency) : Type 0 where
  pub add_lem : (a b : ℤ) → c.add a b ≡ a +ℤ b
  pub subtract_lem : (a b : ℤ) → c.subtract a b ≡ a -ℤ b

module _ (c : Currency) where
  abbrev pub add : ℤ → ℤ → ℤ
  add first_value second_value = c.add first_value second_value

  abbrev pub sub : ℤ → ℤ → ℤ
  sub first_value second_value = c.subtract first_value second_value

  abbrev pub multiply : Decimal → Decimal → ℤ
  multiply first_value second_value = c.multiply first_value second_value

  abbrev pub divide : Decimal → Decimal → ℤ
  divide first_value second_value = c.divide first_value second_value
