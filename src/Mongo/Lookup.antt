-- ===== src/Mongo/Lookup.antt =====
-- Finding a document again: by its key, and after an update of the document with that key.
use dev_ops_projet.Base.{
  ℕ, ◌≡◌, refl, sym, ◌∙◌, ◌≢◌, Bool, true, ◌&&◌, none, some, inl, inr, List, [], ◌∷◌, arith,
  Bool-cases, ◌==◌, ==_iff,
}
use dev_ops_projet.Mongo.{first, update_first}
use dev_ops_projet.Mongo.Keys.{Distinct, All-first, first-eq-true}

module _ {A : Type 0} (key : A → ℕ) where
  -- A document found by one query is the one that a query by its key finds.
  pub first_by_key :
      (p q : A → Bool) (xs : List A) (d : A)
      → Distinct key xs
      → ((x : A) → q x ≡ true → key x ≡ key d)
      → q d ≡ true
      → first p xs ≡ some d
      → first q xs ≡ some d
  first_by_key p q [] d _ fixes _ e = cc
  first_by_key p q (x ∷ xs) d (apart, u) fixes accepts e = elim (Bool-cases (p x)) [
    | inl t ↦ let same : x ≡ d = cc in rw (same, accepts)
    | inr t ↦
        let later : first p xs ≡ some d = cc in
        elim (Bool-cases (q x)) [
          | inl f ↦ absurd (All-first p (λ y. key y ≢ key x) xs d apart later (sym (fixes x f)))
          | inr f ↦ rw f (first_by_key p q xs d u fixes accepts later)
        ]
  ]

  -- What an update of the document with key `k` does to the query for it, and to others.
  module _ (k : ℕ) (live : A → Bool) (f : A → A) (keeps : (x : A) → key (f x) ≡ key x)
      (lives : (x : A) → live (f x) ≡ live x) where
    pub first-update_first :
        (xs : List A) (d : A)
        → Distinct key xs
        → first (λ x. key x == k && live x) xs ≡ some d
        → first (λ x. key x == k && live x) (update_first (λ x. key x == k) f xs) ≡ some (f d)
    first-update_first [] d _ e = cc
    first-update_first (x ∷ xs) d (apart, u) e = elim (Bool-cases (key x == k)) [
      | inl at ↦ elim (Bool-cases (live x)) [
        | inl alive ↦
            let same : x ≡ d = cc (rw (at, alive) at e) in
            rw (at, keeps x, at, lives x, alive, same)
        | inr dead ↦
            let later : first (λ y. key y == k && live y) xs ≡ some d = rw (at, dead) at e in
            let at_d = first-eq-true (λ y. key y == k && live y) xs d later in
            let n = All-first _ (λ y. key y ≢ key x) xs d apart later in
            absurd (n (both at_d ∙ sym ((==_iff (key x) k).0 at)))
      ]
      | inr away ↦ rw (away, away) (first-update_first xs d u (rw away at e))
    ]
      where
        both : (key d == k && live d) ≡ true → key d ≡ k
        both h = ground arith

    pub first-update_first-none :
        (xs : List A)
        → first (λ x. key x == k && live x) xs ≡ none
        → first (λ x. key x == k && live x) (update_first (λ x. key x == k) f xs) ≡ none
    first-update_first-none [] e = refl
    first-update_first-none (x ∷ xs) e = elim (Bool-cases (key x == k)) [
      | inl at ↦ elim (Bool-cases (live x)) [
        | inl alive ↦ cc (rw (at, alive) at e)
        | inr dead ↦ rw (at, keeps x, at, lives x, dead) (rw (at, dead) at e)
      ]
      | inr away ↦ rw (away, away) (first-update_first-none xs (rw away at e))
    ]

-- The first match of a query stays it, changed, where the change keeps what the query reads.
pub first-update_first_self :
    {A : Type 0} (p : A → Bool) (f : A → A) (xs : List A) (d : A)
    → ((x : A) → p (f x) ≡ p x)
    → first p xs ≡ some d
    → first p (update_first p f xs) ≡ some (f d)
first-update_first_self p f [] d keeps e = cc
first-update_first_self p f (x ∷ xs) d keeps e = elim (Bool-cases (p x)) [
  | inl at ↦ let same : x ≡ d = cc in rw (at, keeps x, at, same)
  | inr away ↦ rw (away, away) (first-update_first_self p f xs d keeps (rw away at e))
]
