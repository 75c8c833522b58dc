-- ===== src/Mongo/Keys.antt =====
-- Lists of documents with distinct keys, as a collection with its `_id`s, and what an update of the
-- first match does to a property of every document.
use dev_ops_projet.Base.{
  ℕ, ◌≡◌, refl, sym, subst, ◌∙◌, ◌≢◌, Bool, true, false, none, some, ◌⊎◌, inl, inr, List, [], ◌∷◌,
  ◌++◌, All, All-append, All-map, Bool-cases,
}
use dev_ops_projet.Mongo.{first, update_first, update_all}

module _ {A : Type 0} (key : A → ℕ) where
  abbrev pub Distinct : List A → Type 0
  Distinct [] = Unit
  Distinct (x ∷ xs) = All (λ y. key y ≢ key x) xs × Distinct xs

  pub Distinct-snoc :
      (xs : List A) (y : A) → All (λ x. key x ≢ key y) xs → Distinct xs → Distinct (xs ++ y ∷ [])
  Distinct-snoc [] y _ _ = (tt, tt)
  Distinct-snoc (x ∷ xs) y (n, h) (a, d) =
      (All-append _ xs (y ∷ []) a ((λ e. n (sym e)), tt), Distinct-snoc xs y h d)

module _ {A : Type 0} (p : A → Bool) (f : A → A) where
  -- Without keys: the property holds after the change, and of what is left alone.
  pub All-update_first_any :
      (P : A → Type 0) (xs : List A)
      → ((x : A) → P x → P (f x))
      → All P xs
      → All P (update_first p f xs)
  All-update_first_any P [] m _ = tt
  All-update_first_any P (x ∷ xs) m (h, hs) = elim (Bool-cases (p x)) [
    | inl e ↦ rw e (m x h, hs)
    | inr e ↦ rw e (h, All-update_first_any P xs m hs)
  ]

  pub All-update_all :
      (P Q : A → Type 0) (xs : List A)
      → ((x : A) → p x ≡ true → P x → Q (f x))
      → ((x : A) → p x ≡ false → P x → Q x)
      → All P xs
      → All Q (update_all p f xs)
  All-update_all P Q [] m n _ = tt
  All-update_all P Q (x ∷ xs) m n (h, hs) = elim (Bool-cases (p x)) [
    | inl e ↦ rw e (m x e h, All-update_all P Q xs m n hs)
    | inr e ↦ rw e (n x e h, All-update_all P Q xs m n hs)
  ]

  pub update_first_same : (xs : List A) → ((x : A) → f x ≡ x) → update_first p f xs ≡ xs
  update_first_same [] same = refl
  update_first_same (x ∷ xs) same = elim (Bool-cases (p x)) [
    | inl e ↦ rw (e, same x)
    | inr e ↦ rw (e, update_first_same xs same)
  ]

  module _ (key : A → ℕ) (keeps : (x : A) → key (f x) ≡ key x) where
    pub Distinct-update_first : (xs : List A) → Distinct key xs → Distinct key (update_first p f xs)
    Distinct-update_first [] _ = tt
    Distinct-update_first (x ∷ xs) (a, d) = elim (Bool-cases (p x)) [
      | inl e ↦ rw (e, keeps x) (a, d)
      | inr e ↦
          rw e (
            All-update_first_any _ xs (λ y n q. n (sym (keeps y) ∙ q)) a,
            Distinct-update_first xs d,
          )
    ]

    pub Distinct-update_all : (xs : List A) → Distinct key xs → Distinct key (update_all p f xs)
    Distinct-update_all [] _ = tt
    Distinct-update_all (x ∷ xs) (a, d) =
        let others =
          All-update_all _ (λ y. key y ≢ key x) xs (λ y _ n q. n (sym (keeps y) ∙ q)) (λ y _ n. n)
            a in
        elim (Bool-cases (p x)) [
          | inl e ↦ rw (e, keeps x) (others, Distinct-update_all xs d)
          | inr e ↦ rw e (others, Distinct-update_all xs d)
        ]

  -- With distinct keys, where the test fixes the key: every other document fails the test.
  module _ (key : A → ℕ) (k : ℕ) (fixes : (x : A) → p x ≡ true → key x ≡ k) where
    pub All-update_first :
        (P Q : A → Type 0) (xs : List A)
        → Distinct key xs
        → ((x : A) → p x ≡ true → P x → Q (f x))
        → ((x : A) → p x ≡ false → P x → Q x)
        → All P xs
        → All Q (update_first p f xs)
    All-update_first P Q [] _ m n _ = tt
    All-update_first P Q (x ∷ xs) (a, d) m n (h, hs) = elim (Bool-cases (p x)) [
      | inl e ↦ rw e (m x e h, rest (fixes x e) xs a hs)
      | inr e ↦ rw e (n x e h, All-update_first P Q xs d m n hs)
    ]
      where
        rest : key x ≡ k → (ys : List A) → All (λ y. key y ≢ key x) ys → All P ys → All Q ys
        rest q [] _ _ = tt
        rest q (y ∷ ys) (c, cs) (g, gs) = elim (Bool-cases (p y)) [
          | inl e ↦ absurd (c (fixes y e ∙ sym q))
          | inr e ↦ (n y e g, rest q ys cs gs)
        ]

module _ {A : Type 0} (p : A → Bool) where
  pub All-first : (P : A → Type 0) (xs : List A) (d : A) → All P xs → first p xs ≡ some d → P d
  All-first P [] d _ e = cc
  All-first P (x ∷ xs) d (h, hs) e = elim (Bool-cases (p x)) [
    | inl t ↦ subst P (cc) h
    | inr t ↦ All-first P xs d hs (cc)
  ]

  pub first-eq-true : (xs : List A) (d : A) → first p xs ≡ some d → p d ≡ true
  first-eq-true [] d e = cc
  first-eq-true (x ∷ xs) d e = elim (Bool-cases (p x)) [
    | inl t ↦ cc
    | inr t ↦ first-eq-true xs d (cc)
  ]

  -- The document found is the only one with its key.
  pub first_unique :
      (key : A → ℕ) (k : ℕ) (xs : List A) (d : A)
      → Distinct key xs
      → ((x : A) → p x ≡ true → key x ≡ k)
      → first p xs ≡ some d
      → All (λ x. key x ≡ k → x ≡ d) xs
  first_unique key k [] d _ fixes e = tt
  first_unique key k (x ∷ xs) d (a, u) fixes e = elim (Bool-cases (p x)) [
    | inl t ↦ ((λ _. cc), All-map _ _ xs (λ y n q. absurd (n (q ∙ sym (fixes x t)))) a)
    | inr t ↦
        let later : first p xs ≡ some d = cc in
        let at_k = fixes d (first-eq-true xs d later) in
        (
          (λ q. absurd (All-first _ xs d a later (at_k ∙ sym q))),
          first_unique key k xs d u fixes later,
        )
  ]

pub All-both :
    {A : Type 0} (P Q : A → Type 0) (xs : List A) → All P xs → All Q xs → All (λ x. P x × Q x) xs
All-both P Q [] _ _ = tt
All-both P Q (x ∷ xs) (h, hs) (k, ks) = ((h, k), All-both P Q xs hs ks)

pub update_first-none :
    {A : Type 0} (p : A → Bool) (f : A → A) (xs : List A)
    → first p xs ≡ none
    → update_first p f xs ≡ xs
update_first-none p f [] e = refl
update_first-none p f (x ∷ xs) e = elim (Bool-cases (p x)) [
  | inl t ↦ cc
  | inr t ↦ rw (t, update_first-none p f xs (cc))
]

pub empty_or_not :
    {A : Type 0} (xs : List A) → (xs ≡ []) ⊎ ((x : A) × (ys : List A) × (xs ≡ x ∷ ys))
empty_or_not [] = inl refl
empty_or_not (x ∷ xs) = inr (x, xs, refl)
