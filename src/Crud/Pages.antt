-- ===== src/Crud/Pages.antt =====
-- The pages of paginatedList.js put together.
use dev_ops_projet.Base.{
  ℕ, zero, suc, ◌+◌, ◌-◌, ◌*◌, ◌%◌, ◌<◌, ◌≤◌, ◌≡◌, refl, sym, ap, ◌∙◌, Bool, false, not, ◌&&◌, ltb,
  none, some, inl, inr, List, [], ◌∷◌, ◌++◌, length, take, drop, arith, Bool-cases, ◌==◌,
}
use dev_ops_projet.Http.{Outcome, respond, throw, unhandled}
use dev_ops_projet.Mongo.{Mongoose, in_memory, select}
use dev_ops_projet.Mongo.Laws.{IsMongoose, eq-in_memory}
use dev_ops_projet.Mongo.Keys.{Distinct}
use dev_ops_projet.Crud.Listing.{Page, ceil_div, paginated_list}
use native.Mathlib.Nat.{div-add-mod, mod-lt}

module _ {A : Type 0} where
  -- `f k ++ f (k + 1) ++ …`, of `n` lists.
  abbrev pub collect : (ℕ → List A) → ℕ → ℕ → List A
  collect f k zero = []
  collect f k (suc n) = f k ++ collect f (suc k) n

  take-drop-append : (n : ℕ) (xs : List A) → take n xs ++ drop n xs ≡ xs
  take-drop-append zero xs = refl
  take-drop-append (suc n) [] = refl
  take-drop-append (suc n) (x ∷ xs) = ap (λ ys. x ∷ ys) (take-drop-append n xs)

  drop-nil : (n : ℕ) → drop {A = A} n [] ≡ []
  drop-nil zero = refl
  drop-nil (suc n) = refl

  drop-drop : (n m : ℕ) (xs : List A) → drop n (drop m xs) ≡ drop (m + n) xs
  drop-drop n zero xs = ap (λ i. drop i xs) (omega arith)
  drop-drop n (suc m) [] = drop-nil n ∙ sym (drop-nil (suc m + n))
  drop-drop n (suc m) (x ∷ xs) =
      let move : suc m + n ≡ suc (m + n) = omega arith in
      drop-drop n m xs ∙ ap (λ i. drop i (x ∷ xs)) (sym move)

  drop-all : (n : ℕ) (xs : List A) → length xs ≤ n → drop n xs ≡ []
  drop-all n [] _ = drop-nil n
  drop-all zero (x ∷ xs) h = absurd (none_below (length xs) h)
    where
      none_below : (n : ℕ) → ¬ (suc n ≤ 0)
      none_below n = omega arith
  drop-all (suc n) (x ∷ xs) h = drop-all n xs (omega (arith, h))

  -- Pages of `limit` from the `k`th on make up what the first `k` leave.
  collect-pages :
      (limit : ℕ) (ys : List A) (k n : ℕ)
      → length ys ≤ (k + n) * limit
      → collect (λ j. take limit (drop (j * limit - limit) ys)) (suc k) n ≡ drop (k * limit) ys
  collect-pages limit ys k zero h = sym (drop-all (k * limit) ys (omega (arith, h)))
  collect-pages limit ys k (suc n) h =
      let here : suc k * limit - limit ≡ k * limit = omega arith in
      let next : drop limit (drop (k * limit) ys) ≡ drop (suc k * limit) ys =
        drop-drop limit (k * limit) ys ∙ ap (λ i. drop i ys) (omega arith) in
      rw (here, collect-pages limit ys (suc k) n (omega (arith, h)), sym next)
        (take-drop-append limit (drop (k * limit) ys))

ceil_div-enough : (count m : ℕ) → count ≤ ceil_div count (suc m) * suc m
ceil_div-enough count m =
    let shift : count + (suc m - 1) ≡ count + m = omega arith in
    let small : (count + m) % suc m < suc m = mod-lt (count + m) (omega arith) in
    rw shift (omega (arith, div-add-mod (count + m) (suc m), small))

-- The items that an outcome carries, none if it has no result.
abbrev pub items_of : {A : Type 0} → Outcome (Page A) → List A
items_of (respond r) = elim r.result [ none ↦ [] | some p ↦ p.items ]
items_of (throw e) = []
items_of (unhandled e) = []

-- The database's sort, of the query for each page: on a field whose values differ, all queries have
-- the same order, and no document is lost. Nothing is said of equal values.
pub record IsSort {A : Type 0} (key : A → ℕ) (sorts : ℕ → List A → List A) : Type 0 where
  pub agrees : (j k : ℕ) (xs : List A) → Distinct key xs → sorts j xs ≡ sorts k xs
  pub length_lem : (k : ℕ) (xs : List A) → length (sorts k xs) ≡ length xs

module _ {A : Type 0} (removed matches : A → Bool) where
  abbrev pub matching_of : List A → List A
  matching_of s = select (λ d. not (removed d) && matches d) s

module _ {A : Type 0} (key : A → ℕ) (sorts : ℕ → List A → List A) (removed : A → Bool) (m : ℕ)
    (matches : A → Bool) (s : List A) (h : IsSort key sorts)
    (apart : Distinct key (matching_of removed matches s)) where
  abbrev matching : List A
  matching = matching_of removed matches s

  abbrev page_items : ℕ → List A
  page_items k = items_of (
      paginated_list in_memory (sorts k) removed (record { page = some k; items = some (suc m) })
        matches s)

  abbrev slice : ℕ → List A
  slice j = take (suc m) (drop (j * suc m - suc m) (sorts 1 matching))

  empty_slice : (ys : List A) (n : ℕ) → length ys ≡ 0 → take (suc m) (drop n ys) ≡ []
  empty_slice [] n _ = rw (drop-nil {A = A} n) refl
  empty_slice (y ∷ ys) n h = absurd (none_zero (length ys) h)
    where
      none_zero : (n : ℕ) → ¬ (suc n ≡ 0)
      none_zero n = omega arith

  page_items-slice : (k : ℕ) → page_items (suc k) ≡ slice (suc k)
  unfolding paginated_list
  page_items-slice k =
      let not_zero : (suc k == 0) ≡ false = ground arith in
      elim (Bool-cases (ltb 0 (length matching))) [
        | inl t ↦
            rw (not_zero, t)
              (ap (λ ys. take (suc m) (drop (suc k * suc m - suc m) ys))
                (h.agrees (suc k) 1 matching apart))
        | inr t ↦
            let none_left : length matching ≡ 0 = ground arith in
            rw (not_zero, t)
              (sym (
                empty_slice (sorts 1 matching) (suc k * suc m - suc m)
                  (h.length_lem 1 matching ∙ none_left)))
      ]

  same_pages : (k n : ℕ) → collect page_items (suc k) n ≡ collect slice (suc k) n
  same_pages k zero = refl
  same_pages k (suc n) = rw (page_items-slice k, same_pages (suc k) n) refl

  pages_cover : collect page_items 1 (ceil_div (length matching) (suc m)) ≡ sorts 1 matching
  pages_cover =
      let enough : length (sorts 1 matching) ≤ (0 + ceil_div (length matching) (suc m)) * suc m =
        omega (arith, h.length_lem 1 matching, ceil_div-enough (length matching) m) in
      let none_before : 0 * suc m ≡ 0 = omega arith in
      same_pages 0 (ceil_div (length matching) (suc m))
      ∙ collect-pages (suc m) (sorts 1 matching) 0 (ceil_div (length matching) (suc m)) enough
      ∙ ap (λ i. drop i (sorts 1 matching)) none_before

-- For any model, and a sort on a field whose values differ among the documents that match: the pages 1
-- to `pages` of the same query, for a page size that is not zero, are together the sorted list of all
-- that match: nothing is lost and nothing twice.
pub paginated_list-covers :
    {A : Type 0} (db : Mongoose) (key : A → ℕ) (sorts : ℕ → List A → List A) (removed : A → Bool)
    (m : ℕ) (matches : A → Bool) (s : List A)
    → IsMongoose db
    → IsSort key sorts
    → Distinct key (matching_of removed matches s)
    → collect
        (λ k. items_of (
          paginated_list db
            (sorts k)
            removed
            (record { page = some k; items = some (suc m) })
            matches
            s))
        1
        (ceil_div (length (matching_of removed matches s)) (suc m))
      ≡ sorts 1 (matching_of removed matches s)
paginated_list-covers db key sorts removed m matches s laws h apart =
    rw (eq-in_memory laws) (pages_cover key sorts removed m matches s h apart)
