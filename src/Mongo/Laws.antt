-- ===== src/Mongo/Laws.antt =====
-- What the controllers rely on: `findOne` gives the first match in natural order or null, `find` all
-- matches, `countDocuments` their number, `findOneAndUpdate` changes the first match alone and gives
-- it back, `updateMany` changes every match, and `save` appends.
use dev_ops_projet.Base.{◌≡◌, Bool, List, [], ◌∷◌, ◌++◌, length}
use dev_ops_projet.Mongo.{Version, Mongoose, first, select, update_first, update_all, returned}
use dev_ops_projet.Mongo.{in_memory}

pub record IsMongoose (db : Mongoose) : Type 1 where
  pub find_one_lem : (A : Type 0) (p : A → Bool) (xs : List A) → db.find_one p xs ≡ first p xs
  pub find_lem : (A : Type 0) (p : A → Bool) (xs : List A) → db.find p xs ≡ select p xs
  pub count_documents_lem :
      (A : Type 0) (p : A → Bool) (xs : List A) → db.count_documents p xs ≡ length (select p xs)
  pub find_one_and_update_lem :
      (A : Type 0) (v : Version) (p : A → Bool) (f : A → A) (xs : List A)
      → db.find_one_and_update v p f xs ≡ (returned v f (first p xs), update_first p f xs)
  pub update_many_lem :
      (A : Type 0) (p : A → Bool) (f : A → A) (xs : List A)
      → db.update_many p f xs ≡ update_all p f xs
  pub save_lem : (A : Type 0) (x : A) (xs : List A) → db.save x xs ≡ xs ++ x ∷ []

-- So any such library is, as a function, the one in memory.
pub eq-in_memory : {db : Mongoose} → IsMongoose db → db ≡ in_memory
eq-in_memory h = λ i. record {
  find_one = λ {A} p xs. h.find_one_lem A p xs i;
  find = λ {A} p xs. h.find_lem A p xs i;
  count_documents = λ {A} p xs. h.count_documents_lem A p xs i;
  find_one_and_update = λ {A} v p f xs. h.find_one_and_update_lem A v p f xs i;
  update_many = λ {A} p f xs. h.update_many_lem A p f xs i;
  save = λ {A} x xs. h.save_lem A x xs i;
}
