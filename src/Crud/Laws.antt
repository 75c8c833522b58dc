-- ===== src/Crud/Laws.antt =====
-- What the generic handlers promise each other.
use dev_ops_projet.Base.{
  ℕ, ◌≡◌, ◌≢◌, refl, subst, Bool, true, false, none, some, inl, inr, List, [], ◌∷◌, ◌++◌, All,
  Bool-cases, Option-cases, ◌==◌, ==_iff, ==_refl, ==_ne,
}
use dev_ops_projet.Http.{reply, text}
use dev_ops_projet.Mongo.{Mongoose, in_memory, first, update_first}
use dev_ops_projet.Mongo.Laws.{IsMongoose, eq-in_memory}
use dev_ops_projet.Mongo.Keys.{Distinct}
use dev_ops_projet.Crud.{Doc, is_live, create, read, remove}

module _ {X : Type 0} (id : ℕ) where
  pub first_live-fresh : (s : List (Doc X)) → All (λ d. d.id ≢ id) s → first (is_live id) s ≡ none
  first_live-fresh [] _ = refl
  first_live-fresh (d ∷ s) (n, h) = rw (==_ne d.id id n) (first_live-fresh s h)

  first_live-snoc :
      (s : List (Doc X)) (d : Doc X)
      → All (λ x. x.id ≢ id) s
      → first (is_live id) (s ++ d ∷ []) ≡ first (is_live id) (d ∷ [])
  first_live-snoc [] d _ = refl
  first_live-snoc (x ∷ s) d (n, h) = rw (==_ne x.id id n) (first_live-snoc s d h)

  bury : Doc X → Doc X
  bury d = record d { removed = true }

  first_live-bury :
      (s : List (Doc X))
      → Distinct (λ d. d.id) s
      → first (is_live id) (update_first (λ d. d.id == id) bury s) ≡ none
  unfolding bury
  first_live-bury [] _ = refl
  first_live-bury (d ∷ s) (apart, u) = elim (Bool-cases (d.id == id)) [
    | inl at ↦
        rw (at, at)
          (first_live-fresh s (subst (λ k. All (λ x. x.id ≢ k) s) ((==_iff d.id id).0 at) apart))
    | inr away ↦ rw (away, away) (first_live-bury s u)
  ]

-- After `remove`, whatever it answers, `read` of the same id answers 404, in a collection with
-- distinct ids.
remove-read :
    {X : Type 0} (db : Mongoose) (id : ℕ) (s : List (Doc X))
    → IsMongoose db
    → Distinct (λ d. d.id) s
    → read db id (remove db id s).1 ≡ reply 404 false none (text "No document found ")
unfolding read remove bury
remove-read db id s m u = rw (eq-in_memory m) (in_mem id s u)
  where
    in_mem :
        {X : Type 0} (id : ℕ) (s : List (Doc X))
        → Distinct (λ d. d.id) s
        → read in_memory id (remove in_memory id s).1
          ≡ reply 404 false none (text "No document found ")
    in_mem id s u = elim (Option-cases (first (λ d. d.id == id) s)) [
      | inl absent ↦ rw (remove, absent, read, first_live-bury id s u) refl
      | inr (d, found) ↦ rw (remove, found, read, first_live-bury id s u) refl
    ]

-- A document that `create` accepts, under an id that no document has, is what `read` then finds.
create-read :
    {X : Type 0} (db : Mongoose) (is_valid : X → Bool) (body : X) (id : ℕ) (s : List (Doc X))
    → IsMongoose db
    → is_valid body ≡ true
    → All (λ d. d.id ≢ id) s
    → read db id (create db is_valid body id s).1
      ≡ reply 200 true
          (some (record { id = id; removed = false; fields = body }))
          (text "we found this document ")
unfolding read create
create-read db is_valid body id s m valid fresh =
    rw (eq-in_memory m) (in_mem is_valid body id s valid fresh)
  where
    in_mem :
        {X : Type 0} (is_valid : X → Bool) (body : X) (id : ℕ) (s : List (Doc X))
        → is_valid body ≡ true
        → All (λ d. d.id ≢ id) s
        → read in_memory id (create in_memory is_valid body id s).1
          ≡ reply 200 true
              (some (record { id = id; removed = false; fields = body }))
              (text "we found this document ")
    in_mem is_valid body id s valid fresh =
        rw
          (
            create,
            valid,
            read,
            first_live-snoc id s (record { id = id; removed = false; fields = body }) fresh,
            ==_refl id,
          )
          refl
