-- ===== src/Mongo.antt =====
-- The operations of a mongoose model that the controllers call, as a parameter: mongoose and the
-- database are third-party code. A collection is the list of its documents in natural order.
pub mod Laws
pub mod Keys
pub mod Lookup
use dev_ops_projet.Base.{
  ℕ, suc, Bool, true, false, Option, none, some, List, [], ◌∷◌, ◌++◌, length, if◌then◌else◌,
}

-- Which version `findOneAndUpdate` returns: `{ new: true }` or the default.
pub data Version : Type 0 where
  original updated : Version

abbrev pub pick : {A : Type 0} → Version → A → A → A
pick original before after = before
pick updated before after = after

pub record Mongoose : Type 1 where
  pub find_one : {A : Type 0} → (A → Bool) → List A → Option A
  pub find : {A : Type 0} → (A → Bool) → List A → List A
  pub count_documents : {A : Type 0} → (A → Bool) → List A → ℕ
  pub find_one_and_update :
      {A : Type 0} → Version → (A → Bool) → (A → A) → List A → Option A × List A
  pub update_many : {A : Type 0} → (A → Bool) → (A → A) → List A → List A
  pub save : {A : Type 0} → A → List A → List A

-- The documented behaviour, over lists.
module _ {A : Type 0} (p : A → Bool) where
  abbrev pub first : List A → Option A
  first [] = none
  first (x ∷ xs) = if p x then some x else first xs

  abbrev pub select : List A → List A
  select [] = []
  select (x ∷ xs) = let rest = select xs in if p x then x ∷ rest else rest

  abbrev pub update_first : (A → A) → List A → List A
  update_first f [] = []
  update_first f (x ∷ xs) = let rest = update_first f xs in if p x then f x ∷ xs else x ∷ rest

  abbrev pub update_all : (A → A) → List A → List A
  update_all f [] = []
  update_all f (x ∷ xs) = (if p x then f x else x) ∷ update_all f xs

abbrev pub returned : {A : Type 0} → Version → (A → A) → Option A → Option A
returned v f none = none
returned v f (some x) = some (pick v x (f x))

-- mongoose over a collection whose natural order is that of insertion.
abbrev pub in_memory : Mongoose
in_memory = record {
  find_one = first;
  find = select;
  count_documents = λ p xs. length (select p xs);
  find_one_and_update = λ v p f xs. (returned v f (first p xs), update_first p f xs);
  update_many = update_all;
  save = λ x xs. xs ++ x ∷ [];
}
