-- ===== src/Crud/Listing.antt =====
-- createCRUDController/listAll.js and paginatedList.js.
use dev_ops_projet.Base.{
  ℕ, zero, suc, ◌+◌, ◌-◌, ◌*◌, ◌/◌, Bool, true, false, not, ◌&&◌, ltb, ◌==◌, if◌then◌else◌, Option,
  none, some, List, [], length, take, drop,
}
use dev_ops_projet.Http.{Outcome, reply, text, throw, library_error}
use dev_ops_projet.Mongo.{Mongoose}
use dev_ops_projet.Crud.{Doc}

pub record Pagination : Type 0 where
  pub page : ℕ
  pub pages : ℕ
  pub count : ℕ

pub record Page (A : Type 0) : Type 0 where
  pub items : List A
  pub pagination : Pagination

-- `req.query`: the page and the size, as numbers. `|| 10` also replaces a size of zero.
pub record Query : Type 0 where
  pub page : Option ℕ
  pub items : Option ℕ

abbrev pub page_of : Query → ℕ
page_of q = elim q.page [ none ↦ 1 | some p ↦ p ]

abbrev pub limit_of : Query → ℕ
limit_of q = elim q.items [ none ↦ 10 | some zero ↦ 10 | some (suc n) ↦ suc n ]

-- `Math.ceil(count / limit)`
abbrev pub ceil_div : ℕ → ℕ → ℕ
ceil_div count limit = (count + (limit - 1)) / limit

-- `sort` is the driver's order, on `created` or by `sortBy` and `sortValue`; `matches` is the rest
-- of the query: `[filter]: equal` and the patterns. The driver sorts first, then skips and limits.
-- It is the order of one query: another query may put equal values in another order.
module _ {X : Type 0} (db : Mongoose) (sort : List (Doc X) → List (Doc X)) where
  unfoldable pub list_all : Option (X → Bool) → List (Doc X) → Outcome (List (Doc X))
  list_all enabled s =
      let result = sort (db.find (λ d. not d.removed && is_enabled enabled d.fields) s) in
      if ltb 0 (length result)
      then reply 200 true (some result) (text "Successfully found all documents")
      else reply 203 false (some []) (text "Collection is Empty")
    where
      is_enabled : Option (X → Bool) → X → Bool
      is_enabled none x = true
      is_enabled (some e) x = e x

-- `removed` reads that field of a document of the model. A page of 0 makes `skip` negative, which the
-- driver refuses.
module _ {A : Type 0} (db : Mongoose) (sort : List A → List A) (removed : A → Bool) where
  unfoldable pub paginated_list : Query → (A → Bool) → List A → Outcome (Page A)
  paginated_list q matches s =
      let page = page_of q in
      let limit = limit_of q in
      let skip = page * limit - limit in
      let found = db.find (λ d. not (removed d) && matches d) s in
      let count = db.count_documents (λ d. not (removed d) && matches d) s in
      let pagination : Pagination = record {
        page = page;
        pages = ceil_div count limit;
        count = count;
      } in
      if page == 0
      then throw (library_error "skip value must be non-negative")
      else if ltb 0 count
      then reply 200 true
          (some (record { items = take limit (drop skip (sort found)); pagination = pagination }))
          (text "Successfully found all documents")
      else reply 203 true (some (record { items = []; pagination = pagination }))
          (text "Collection is Empty")
