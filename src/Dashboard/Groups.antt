-- ===== src/Dashboard/Groups.antt =====
-- The groups of the quotes' statuses, and the entries that the summary makes of them.
use dev_ops_projet.Base.{
  ℕ, ℤ, pos, ◌+◌, ◌<◌, ◌==◌, ◌≡◌, ◌≢◌, ==_ne, refl, sym, ap, ◌∙◌, String, str_eq, Bool, true, false,
  Option, none, some, inl, inr, ◌⊎◌, List, [], ◌∷◌, ◌++◌, map, length, All, arith, Bool-cases,
  Option-cases, if◌then◌else◌,
}
use dev_ops_projet.Mongo.{first, select}
use dev_ops_projet.Documents.{Quote}
use dev_ops_projet.Summary.{Aggregation, IsAggregation}
use dev_ops_projet.Summary.Quotes.{QuoteEntry, fill, quote_entries, sum_counts}

-- No two elements have the same text.
abbrev pub Differ : {A : Type 0} → (A → String) → List A → Type 0
Differ key [] = Unit
Differ key (x ∷ xs) = All (λ y. str_eq (key x) (key y) ≡ false) xs × Differ key xs

abbrev pub size_of : {A : Type 0} → Option (String × List A) → ℕ
size_of none = 0
size_of (some g) = length g.1

abbrev pub total_size : {A : Type 0} → List (String × List A) → ℕ
total_size [] = 0
total_size (g ∷ gs) = length g.1 + total_size gs

-- The documented behaviour of `$group` by a text: a group for each text that a document has, with
-- the documents that have it; and that `$sort` of what has different texts only puts it in order.
pub record IsGrouping (db : Aggregation) : Type 1 where
  pub group_differ :
      (A : Type 0) (key : A → String) (xs : List A) → Differ (λ g. g.0) (db.group key xs)
  pub group_size :
      (A : Type 0) (key : A → String) (k : String) (xs : List A)
      → size_of (first (λ g. str_eq g.0 k) (db.group key xs))
        ≡ length (select (λ x. str_eq (key x) k) xs)
  pub group_full :
      (A : Type 0) (key : A → String) (k : String) (xs : List A) (g : String × List A)
      → first (λ h. str_eq h.0 k) (db.group key xs) ≡ some g
      → 0 < length g.1
  pub group_total :
      (A : Type 0) (key : A → String) (xs : List A) → total_size (db.group key xs) ≡ length xs
  pub sort_first :
      (A : Type 0) (key : A → String) (k : String) (xs : List A)
      → Differ key xs
      → first (λ x. str_eq (key x) k) (db.sort_by key xs) ≡ first (λ x. str_eq (key x) k) xs

abbrev pub found_in : String → List QuoteEntry → Option QuoteEntry
found_in t = first (λ e. str_eq e.status t)

first-snoc :
    (t : String) (xs : List QuoteEntry) (y e : QuoteEntry)
    → found_in t xs ≡ some e
    → found_in t (xs ++ y ∷ []) ≡ some e
first-snoc t [] y e h = cc
first-snoc t (x ∷ xs) y e h = elim (Bool-cases (str_eq x.status t)) [
  | inl s ↦ rw s (rw s at h)
  | inr s ↦ rw s (first-snoc t xs y e (rw s at h))
]

-- The percentage of an entry, or that of an entry of zeros.
abbrev pub percentage_in : Option QuoteEntry → ℕ
percentage_in none = 0
percentage_in (some e) = e.percentage

first-snoc_none :
    (t : String) (xs : List QuoteEntry) (y : QuoteEntry)
    → found_in t xs ≡ none
    → found_in t (xs ++ y ∷ []) ≡ (if str_eq y.status t then some y else none)
first-snoc_none t [] y h = refl
first-snoc_none t (x ∷ xs) y h = elim (Bool-cases (str_eq x.status t)) [
  | inl s ↦ let e = rw s at h in cc
  | inr s ↦ rw s (first-snoc_none t xs y (rw s at h))
]

zero_share :
    (st : String) (v : ℤ) (b : Bool)
    → percentage_in (
        if b
        then some (record { status = st; count = 0; percentage = 0; total_amount = v })
        else none)
      ≡ 0
zero_share st v true = refl
zero_share st v false = refl

-- Filling in the missing statuses changes no percentage.
pub fill-percentage :
    (t : String) (sts : List String) (xs : List QuoteEntry)
    → percentage_in (found_in t (fill sts xs)) ≡ percentage_in (found_in t xs)
fill-percentage t [] xs = refl
fill-percentage t (st ∷ sts) xs = elim (Option-cases (found_in st xs)) [
  | inl missing ↦
      rw (fill, missing)
        (fill-percentage t sts (xs ++ _ ∷ []) ∙ snoc (Option-cases (found_in t xs)))
  | inr (e, found) ↦ rw (fill, found) (fill-percentage t sts xs)
]
  where
    snoc :
        ((found_in t xs ≡ none) ⊎ ((e : QuoteEntry) × (found_in t xs ≡ some e)))
        → percentage_in (
            found_in t
              (xs ++ record { status = st; count = 0; percentage = 0; total_amount = pos 0 } ∷ []))
          ≡ percentage_in (found_in t xs)
    snoc (inl h) = rw (first-snoc_none t xs _ h, h) (zero_share st _ (str_eq st t))
    snoc (inr (e, h)) = rw (first-snoc t xs _ e h, h) refl

not_zero : (n m : ℕ) → n ≢ 0 → (if n == 0 then 0 else m) ≡ m
not_zero n m h = rw (==_ne n 0 h)

module _ (db : Aggregation) where
  abbrev entry_of : ℕ → String × List Quote → QuoteEntry
  entry_of n g = record {
    status = g.0;
    count = db.count g.1;
    percentage = db.percentage (db.count g.1) n;
    total_amount = db.sum (λ q. q.total) g.1;
  }

  Differ-map :
      (n : ℕ) (gs : List (String × List Quote))
      → Differ (λ g. g.0) gs
      → Differ (λ e. e.status) (map (entry_of n) gs)
  Differ-map n [] d = tt
  Differ-map n (g ∷ gs) (d, ds) = (apart g.0 gs d, Differ-map n gs ds)
    where
      apart :
          (k : String) (hs : List (String × List Quote))
          → All (λ h. str_eq k h.0 ≡ false) hs
          → All (λ e. str_eq k e.status ≡ false) (map (entry_of n) hs)
      apart k [] a = tt
      apart k (h ∷ hs) (a, as') = (a, apart k hs as')

  -- The percentage of a group, or 0 where there is none.
  abbrev group_percentage : ℕ → Option (String × List Quote) → ℕ
  group_percentage n none = 0
  group_percentage n (some g) = db.percentage (db.count g.1) n

  map-percentage :
      (n : ℕ) (t : String) (gs : List (String × List Quote))
      → percentage_in (found_in t (map (entry_of n) gs))
        ≡ group_percentage n (first (λ g. str_eq g.0 t) gs)
  map-percentage n t [] = refl
  map-percentage n t (g ∷ gs) = elim (Bool-cases (str_eq g.0 t)) [
    | inl s ↦ rw s refl
    | inr s ↦ rw s (map-percentage n t gs)
  ]

  sum_counts-total :
      (gs : List (String × List Quote))
      → ((xs : List Quote) → db.count xs ≡ length xs)
      → sum_counts gs (λ g. db.count g) ≡ total_size gs
  sum_counts-total [] h = refl
  sum_counts-total (g ∷ gs) h = rw (h g.1, sum_counts-total gs h)

  -- The rounded share of a status among the documents; 0 where none has it.
  abbrev pub share : String → List Quote → ℕ
  share t live =
      let c = length (select (λ q. str_eq q.status t) live) in
      if c == 0 then 0 else db.percentage c (length live)

  module _ (h : IsAggregation db) (k : IsGrouping db) where
    group-share :
        (t : String) (live : List Quote)
        → group_percentage (length live) (first (λ g. str_eq g.0 t) (db.group (λ q. q.status) live))
          ≡ share t live
    group-share t live =
        let found = first (λ g. str_eq g.0 t) (db.group (λ q. q.status) live) in
        let size = k.group_size Quote (λ q. q.status) t live in
        elim (Option-cases found) [
          | inl e ↦ rw (e, sym size ∙ ap size_of e) refl
          | inr (g, e) ↦
              let full : length g.1 ≢ 0 =
                λ z. absurd (omega (arith, k.group_full Quote (λ q. q.status) t live g e)) in
              rw (e, sym size ∙ ap size_of e)
                (ap (λ c. db.percentage c (length live)) (h.count_lem Quote g.1)
                  ∙ sym (not_zero (length g.1) _ full))
        ]

    pub entries-share :
        (t : String) (live : List Quote)
        → percentage_in (found_in t (quote_entries db live)) ≡ share t live
    entries-share t live =
        let gs = db.group (λ q. q.status) live in
        let n = sum_counts gs (λ g. db.count g) in
        let whole : n ≡ length live =
          sum_counts-total gs (h.count_lem Quote) ∙ k.group_total Quote (λ q. q.status) live in
        ap percentage_in (
          k.sort_first QuoteEntry (λ e. e.status) t (map (entry_of n) gs)
            (Differ-map n gs (k.group_differ Quote (λ q. q.status) live)))
        ∙ map-percentage n t gs
        ∙ ap (λ m. group_percentage m (first (λ g. str_eq g.0 t) gs)) whole
        ∙ group-share t live
