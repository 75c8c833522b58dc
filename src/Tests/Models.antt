-- ===== src/Tests/Models.antt =====
-- A currency, cryptography and a collection driver that behave as documented.
use Prim.Native.Nat.{◌^◌}
use native.Mathlib.Nat.{zero-mul, mul-zero, zero-div}
use dev_ops_projet.Base.{
  ℕ, zero, suc, ◌+◌, ◌*◌, ◌/◌, ◌≡◌, refl, ap, ℤ, pos, pos_part, ◌+ℤ◌, ◌-ℤ◌, String, str_eq, eq_iff,
  ◌⊎◌, inl, inr,
}
use dev_ops_projet.Mongo.{in_memory}
use dev_ops_projet.Mongo.Laws.{IsMongoose}
use dev_ops_projet.Calculate.{Currency, IsCurrency, Decimal}
use dev_ops_projet.Forms.Totals.{IsZeroed}
use dev_ops_projet.Auth.{Crypto, IsCrypto, holds}

pub in_memory-IsMongoose : IsMongoose in_memory
in_memory-IsMongoose = record {
  find_one_lem = λ A p xs. refl;
  find_lem = λ A p xs. refl;
  count_documents_lem = λ A p xs. refl;
  find_one_and_update_lem = λ A v p f xs. refl;
  update_many_lem = λ A p f xs. refl;
  save_lem = λ A x xs. refl;
}

-- Products and quotients of amounts that are not negative, rounded down to cents.
abbrev times : Decimal → Decimal → ℤ
times a b = pos (pos_part a.units * pos_part b.units * 100 / 10 ^ (a.scale + b.scale))

abbrev per : Decimal → Decimal → ℤ
per a b = pos (pos_part a.units * 100 * 10 ^ b.scale / (pos_part b.units * 10 ^ a.scale))

abbrev pub cents : Currency
cents = record { add = λ a b. a +ℤ b; subtract = λ a b. a -ℤ b; multiply = times; divide = per }

pub cents-IsCurrency : IsCurrency cents
cents-IsCurrency = record { add_lem = λ a b. refl; subtract_lem = λ a b. refl }

pub cents-IsZeroed : IsZeroed cents
cents-IsZeroed x y z = ap pos (rw (product z, zero-mul 100) (zero-div (10 ^ (x.scale + y.scale))))
  where
    product : (x.units ≡ pos 0) ⊎ (y.units ≡ pos 0) → pos_part x.units * pos_part y.units ≡ 0
    product (inl e) = rw (ap pos_part e) (zero-mul (pos_part y.units))
    product (inr e) = rw (ap pos_part e) (mul-zero (pos_part x.units))

-- A token for `id` is a text of that length, and a hash is the text itself.
abbrev pub unary : ℕ → String
unary zero = ""
unary (suc n) = String.◌∷◌ "a" (unary n)

abbrev pub size : String → ℕ
size String.[] = 0
size (String.◌∷◌ c s) = suc (size s)

pub size-unary : (n : ℕ) → size (unary n) ≡ n
size-unary zero = refl
size-unary (suc n) = ap suc (size-unary n)

abbrev pub plain : Crypto
plain = record {
  compare = str_eq;
  hash_sync = λ s. s;
  sign = λ id expires. unary id;
  verify = λ s. holds (size s);
}

pub plain-IsCrypto : IsCrypto plain
plain-IsCrypto = record {
  compare-hash_sync = λ s. (eq_iff s s).1 refl;
  verify-sign = λ id expires. ap holds (size-unary id);
}
