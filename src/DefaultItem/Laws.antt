-- ===== src/DefaultItem/Laws.antt =====
-- How many default entries the collection holds after a request: taxesController and
-- paymentModeController, create and update.
use dev_ops_projet.Base.{
  ℕ, ◌+◌, ◌-◌, ◌≤◌, ◌≡◌, refl, ap, ◌≢◌, String, Bool, true, false, Option, none, some, inl, inr,
  List, [], ◌∷◌, ◌++◌, arith, All, Bool-cases, length, ltb, ◌==◌, ==_iff, ==_ne, sym, ◌∙◌, All-map,
  if◌then◌else◌,
}
use dev_ops_projet.Http.{Response, respond}
use dev_ops_projet.Mongo.{Mongoose, in_memory, first, select, update_first, update_all}
use dev_ops_projet.Mongo.Laws.{IsMongoose, eq-in_memory}
use dev_ops_projet.Mongo.Keys.{Distinct, All-first, first-eq-true}
use dev_ops_projet.DefaultItem.{
  Entry, NewEntry, EntryChange, clear, given, create_entry, apply_change, is_other, is_live,
  update_entry, default_to,
}

abbrev pub weight : Bool → ℕ
weight true = 1
weight false = 0

module _ {X : Type 0} where
  unfoldable pub defaults : List (Entry X) → ℕ
  defaults [] = 0
  defaults (d ∷ ds) = weight d.is_default + defaults ds

  length-select-default : (s : List (Entry X)) → length (select (λ d. d.is_default) s) ≡ defaults s
  unfolding defaults
  length-select-default [] = refl
  length-select-default (d ∷ ds) = elim (Bool-cases d.is_default) [
    | inl e ↦ rw e (omega (arith, length-select-default ds))
    | inr e ↦ rw e (omega (arith, length-select-default ds))
  ]

  pub defaults-snoc :
      (s : List (Entry X)) (d : Entry X) → defaults (s ++ d ∷ []) ≡ defaults s + weight d.is_default
  unfolding defaults
  defaults-snoc [] d = omega arith
  defaults-snoc (x ∷ xs) d = omega (arith, defaults-snoc xs d)

  defaults-clear_all : (s : List (Entry X)) → defaults (update_all (λ _. true) clear s) ≡ 0
  unfolding defaults
  defaults-clear_all [] = refl
  defaults-clear_all (d ∷ ds) = omega (arith, defaults-clear_all ds)

  pub defaults-update_first :
      (t : Entry X → Bool) (f : Entry X → Entry X) (s : List (Entry X)) (d : Entry X)
      → first t s ≡ some d
      → defaults (update_first t f s) + weight d.is_default ≡ defaults s + weight (f d).is_default
  unfolding defaults
  defaults-update_first t f [] d e = cc
  defaults-update_first t f (x ∷ xs) d e = elim (Bool-cases (t x)) [
    | inl h ↦ let same : x ≡ d = cc in rw (h, same) (omega arith)
    | inr h ↦ rw h (omega (arith, defaults-update_first t f xs d (cc)))
  ]

weight-below_one : (n : ℕ) → weight (if ltb n 1 then true else false) ≡ 1 - n
weight-below_one n = ground arith

module _ {X : Type 0} (done : String) (is_valid : Entry X → Bool) (body : NewEntry X) (id : ℕ)
    (s : List (Entry X)) where
  -- The state after the first statement of `create`.
  abbrev cleared : List (Entry X)
  cleared = if given body.is_default false then update_all (λ _. true) clear s else s

  defaults-cleared : defaults s ≤ 1 → defaults cleared ≤ 1
  defaults-cleared h = elim (Bool-cases (given body.is_default false)) [
    | inl e ↦ rw e (omega (arith, defaults-clear_all s))
    | inr e ↦ rw e h
  ]

  create_entry-in_memory :
      (r : Response (Entry X))
      → (create_entry in_memory done is_valid body id s).0 ≡ respond r
      → defaults s ≤ 1
      → defaults (create_entry in_memory done is_valid body id s).1 ≡ 1
  unfolding create_entry
  create_entry-in_memory r e h = elim (Bool-cases (is_valid doc)) [
    | inl ok ↦
        rw (ok, create_entry)
          (omega (
            arith,
            defaults-snoc cleared doc,
            length-select-default cleared,
            defaults-cleared h,
            weight-below_one (length (select (λ d. d.is_default) cleared)),
          ))
    | inr bad ↦ cc (rw (bad, create_entry) at e)
  ]
    where
      doc : Entry X
      doc = record {
        id = id;
        removed = false;
        enabled = given body.enabled true;
        is_default = if ltb (length (select (λ d. d.is_default) cleared)) 1 then true else false;
        content = body.content;
      }

is_live-fixes : {X : Type 0} (k : ℕ) (d : Entry X) → is_live k d ≡ true → d.id ≡ k
is_live-fixes k d e = ground arith

-- Where the head has the id, and the ids are distinct, the live document is the head.
first-here :
    {X : Type 0} (id : ℕ) (x : Entry X) (xs : List (Entry X)) (d : Entry X)
    → x.id ≡ id
    → All (λ y. y.id ≢ x.id) xs
    → first (is_live id) (x ∷ xs) ≡ some d
    → x ≡ d
first-here id x xs d there apart e = elim (Bool-cases (is_live id x)) [
  | inl t ↦ cc
  | inr t ↦
      let later : first (is_live id) xs ≡ some d = cc in
      let n = All-first (is_live id) (λ y. y.id ≢ x.id) xs d apart later in
      absurd (n (is_live-fixes id d (first-eq-true (is_live id) xs d later) ∙ sym there))
]

module _ {X : Type 0} (id : ℕ) where
  defaults-clear_others-absent :
      (s : List (Entry X))
      → All (λ d. d.id ≢ id) s
      → defaults (update_all (is_other id) clear s) ≡ 0
  unfolding defaults
  defaults-clear_others-absent [] _ = refl
  defaults-clear_others-absent (d ∷ ds) (n, ns) =
      rw (==_ne d.id id n) (omega (arith, defaults-clear_others-absent ds ns))

  module _ (body : EntryChange X) (d : Entry X)
      (to_true : given body.is_default d.is_default ≡ true) where
    -- Clearing the others and then writing the body leaves the item as the only default.
    defaults-promoted :
        (s : List (Entry X))
        → Distinct (λ e. e.id) s
        → first (is_live id) s ≡ some d
        → defaults
            (update_first (λ e. e.id == id) (apply_change body) (update_all (is_other id) clear s))
          ≡ 1
    unfolding defaults
    defaults-promoted [] _ e = cc
    defaults-promoted (x ∷ xs) (apart, u) e = elim (Bool-cases (x.id == id)) [
      | inl at ↦
          let there = (==_iff x.id id).0 at in
          let same : x ≡ d = first-here id x xs d there apart e in
          rw (at, at, same, to_true)
            (omega (
              arith,
              defaults-clear_others-absent xs (All-map _ _ xs (λ y n q. n (q ∙ sym there)) apart),
            ))
      | inr away ↦ rw (away, away) (omega (arith, defaults-promoted xs u (rw away at e)))
    ]

pub default_to-eq :
    {X : Type 0} (o : Option Bool) (f : Entry X → Bool) (d : Entry X) (b : Bool)
    → given o (f d) ≡ b
    → default_to o f (some d) ≡ some b
default_to-eq none f d b e = ap some e
default_to-eq (some a) f d b e = ap some e

update_entry-in_memory :
    {X : Type 0} (done only_one : String) (body : EntryChange X) (id : ℕ) (s : List (Entry X))
    (d : Entry X)
    → Distinct (λ e. e.id) s
    → first (is_live id) s ≡ some d
    → given body.is_default d.is_default ≡ true
    → given body.enabled d.enabled ≡ true
    → defaults (update_entry in_memory done only_one body id s).1 ≡ 1
unfolding update_entry
update_entry-in_memory done only_one body id s d u found is_default enabled =
    let e₁ = default_to-eq body.is_default (λ x. x.is_default) d true is_default in
    let e₂ = default_to-eq body.enabled (λ x. x.enabled) d true enabled in
    rw (update_entry, found, e₁, found, e₂) (defaults-promoted id body d is_default s u found)

module _ {X : Type 0} (db : Mongoose) (m : IsMongoose db) where
  -- From at most one default, a created entry leaves exactly one: the old one, the new one if it
  -- asks for it, or the new one if there was none.
  pub create_entry-one_default :
      (done : String) (is_valid : Entry X → Bool) (body : NewEntry X) (id : ℕ) (s : List (Entry X))
      (r : Response (Entry X))
      → (create_entry db done is_valid body id s).0 ≡ respond r
      → defaults s ≤ 1
      → defaults (create_entry db done is_valid body id s).1 ≡ 1
  create_entry-one_default done is_valid body id s r =
      rw (eq-in_memory m) (create_entry-in_memory done is_valid body id s r)

  -- An update that leaves its item enabled and default leaves it as the only default.
  pub update_entry-one_default :
      (done only_one : String) (body : EntryChange X) (id : ℕ) (s : List (Entry X)) (d : Entry X)
      → Distinct (λ e. e.id) s
      → first (is_live id) s ≡ some d
      → given body.is_default d.is_default ≡ true
      → given body.enabled d.enabled ≡ true
      → defaults (update_entry db done only_one body id s).1 ≡ 1
  update_entry-one_default done only_one body id s d u found is_default enabled =
      rw (eq-in_memory m)
        (update_entry-in_memory done only_one body id s d u found is_default enabled)
