-- ===== src/Tests/Dashboard.antt =====
-- Pipelines whose groups are as documented, and the card of two quotes.
use dev_ops_projet.Base.{
  ◌+◌, ◌<◌, suc, ◌≡◌, refl, subst, String, str_eq, false, not, some, inl, inr, List, [], ◌∷◌,
  length, All, map, arith, Bool-cases, eq_iff, if◌then◌else◌,
}
use dev_ops_projet.Mongo.{first, select}
use dev_ops_projet.Summary.Quotes.{QuoteSummary, quote_summary}
use dev_ops_projet.Summary.Totals.{quotes_of}
use dev_ops_projet.Dashboard.{statistics_of, statistics_map}
use dev_ops_projet.Dashboard.Groups.{IsGrouping, Differ, size_of, total_size, share}
use dev_ops_projet.Dashboard.Percentages.{card_tags, quote_summary-statistics_map}
use dev_ops_projet.Tests.Summaries.{
  join, grouped, pipelines, pipelines-IsAggregation, quotes, year-period,
}

module _ {A : Type 0} where
  apart-join :
      (j k : String) (x : A) (gs : List (String × List A))
      → str_eq j k ≡ false
      → All (λ g. str_eq j g.0 ≡ false) gs
      → All (λ g. str_eq j g.0 ≡ false) (join str_eq k x gs)
  apart-join j k x [] h a = (h, tt)
  apart-join j k x ((i, ys) ∷ gs) h (a, rest) = elim (Bool-cases (str_eq i k)) [
    | inl e ↦ rw e (a, rest)
    | inr e ↦ rw e (a, apart-join j k x gs h rest)
  ]

  join-Differ :
      (k : String) (x : A) (gs : List (String × List A))
      → Differ (λ g. g.0) gs
      → Differ (λ g. g.0) (join str_eq k x gs)
  join-Differ k x [] d = (tt, tt)
  join-Differ k x ((i, ys) ∷ gs) (a, d) = elim (Bool-cases (str_eq i k)) [
    | inl e ↦ rw e (a, d)
    | inr e ↦ rw e (apart-join i k x gs e a, join-Differ k x gs d)
  ]

  join-size :
      (k t : String) (x : A) (gs : List (String × List A))
      → size_of (first (λ g. str_eq g.0 t) (join str_eq k x gs))
        ≡ (if str_eq k t then 1 else 0) + size_of (first (λ g. str_eq g.0 t) gs)
  join-size k t x [] = ground arith
  join-size k t x ((i, ys) ∷ gs) =
      ground (arith, eq_iff i k, eq_iff i t, eq_iff k t, join-size k t x gs)

  join-full :
      (k : String) (x : A) (gs : List (String × List A))
      → All (λ g. 0 < length g.1) gs
      → All (λ g. 0 < length g.1) (join str_eq k x gs)
  join-full k x [] a = (omega arith, tt)
  join-full k x ((i, ys) ∷ gs) (a, rest) = elim (Bool-cases (str_eq i k)) [
    | inl e ↦ rw e (omega arith, rest)
    | inr e ↦ rw e (a, join-full k x gs rest)
  ]

  join-total :
      (k : String) (x : A) (gs : List (String × List A))
      → total_size (join str_eq k x gs) ≡ suc (total_size gs)
  join-total k x [] = omega arith
  join-total k x ((i, ys) ∷ gs) = elim (Bool-cases (str_eq i k)) [
    | inl e ↦ rw e (omega arith)
    | inr e ↦ rw e (omega (arith, join-total k x gs))
  ]

  first-All :
      (P : String × List A → Type 0) (t : String) (gs : List (String × List A))
      (g : String × List A)
      → All P gs
      → first (λ h. str_eq h.0 t) gs ≡ some g
      → P g
  first-All P t [] g a e = cc
  first-All P t (h ∷ gs) g (a, rest) e = elim (Bool-cases (str_eq h.0 t)) [
    | inl s ↦ let same : some h ≡ some g = rw s at e in let eq : h ≡ g = cc in subst P eq a
    | inr s ↦ first-All P t gs g rest (rw s at e)
  ]

  module _ (key : A → String) where
    grouped-Differ : (xs : List A) → Differ (λ g. g.0) (grouped str_eq key xs)
    grouped-Differ [] = tt
    grouped-Differ (x ∷ xs) = join-Differ (key x) x (grouped str_eq key xs) (grouped-Differ xs)

    grouped-size :
        (t : String) (xs : List A)
        → size_of (first (λ g. str_eq g.0 t) (grouped str_eq key xs))
          ≡ length (select (λ x. str_eq (key x) t) xs)
    grouped-size t [] = refl
    grouped-size t (x ∷ xs) =
        let all = join-size (key x) t x (grouped str_eq key xs) in
        elim (Bool-cases (str_eq (key x) t)) [
          | inl e ↦ rw e (omega (arith, rw e at all, grouped-size t xs))
          | inr e ↦ rw e (omega (arith, rw e at all, grouped-size t xs))
        ]

    grouped-full : (xs : List A) → All (λ g. 0 < length g.1) (grouped str_eq key xs)
    grouped-full [] = tt
    grouped-full (x ∷ xs) = join-full (key x) x (grouped str_eq key xs) (grouped-full xs)

    grouped-total : (xs : List A) → total_size (grouped str_eq key xs) ≡ length xs
    grouped-total [] = refl
    grouped-total (x ∷ xs) =
        omega (arith, join-total (key x) x (grouped str_eq key xs), grouped-total xs)

pipelines-IsGrouping : IsGrouping pipelines
pipelines-IsGrouping = record {
  group_differ = λ A key xs. grouped-Differ key xs;
  group_size = λ A key k xs. grouped-size key k xs;
  group_full = λ A key k xs g e.
      first-All (λ h. 0 < length h.1) k (grouped str_eq key xs) g (grouped-full key xs) e;
  group_total = λ A key xs. grouped-total key xs;
  sort_first = λ A key k xs d. refl;
}

card_example :
    (r : QuoteSummary) × (quotes_of (quote_summary pipelines (some "year") quotes) ≡ some r)
    × (statistics_map "quote"
          (statistics_of (λ e. e.status) (λ e. e.percentage) false (some r.performance))
        ≡ map
            (λ t. record {
              tag = t;
              value = share pipelines t (select (λ q. not q.removed) quotes);
            })
            card_tags)
card_example =
    quote_summary-statistics_map pipelines (some "year") quotes pipelines-IsAggregation
      pipelines-IsGrouping "year" year-period
