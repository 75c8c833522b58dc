-- ===== src/Crud.antt =====
-- backend/src/controllers/middlewaresControllers/createCRUDController: the handlers that every
-- entity has, over the collection of a model with fields `X`.
pub mod Listing
pub mod Laws
pub mod Pages
pub mod Refinement
use dev_ops_projet.Base.{
  ℕ, suc, ◌+◌, ◌-◌, ◌*◌, ◌/◌, String, str_eq, Bool, true, false, not, ◌&&◌, ltb, leb, ◌==◌,
  if◌then◌else◌, Option, none, some, List, [], length, take, drop,
}
use dev_ops_projet.Http.{Outcome, reply, text, throw, validation_error, library_error}
use dev_ops_projet.Mongo.{Mongoose, updated}

pub record Doc (X : Type 0) : Type 0 where
  pub id : ℕ
  pub removed : Bool
  pub fields : X

abbrev pub is_live : {X : Type 0} → ℕ → Doc X → Bool
is_live id d = d.id == id && not d.removed

-- `countFilter` and `countAllDocs`.
pub record Counts : Type 0 where
  pub count_filter : ℕ
  pub count_all_docs : ℕ

-- A request's body is what it makes of the fields. `.where(filter).equals(equal)` and the pattern
-- of a search are the parameters `equals` and `matches` of the query.
module _ {X : Type 0} (db : Mongoose) where
  -- `id` is the new ObjectId, and `is_valid` the schema's validators.
  unfoldable pub create : (X → Bool) → X → ℕ → List (Doc X) → Outcome (Doc X) × List (Doc X)
  create is_valid body id s =
      let result : Doc X = record { id = id; removed = false; fields = body } in
      if is_valid body
      then (
        reply 200 true (some result) (text "Successfully Created the document in Model "),
        db.save result s,
      )
      else (throw validation_error, s)

  unfoldable pub read : ℕ → List (Doc X) → Outcome (Doc X)
  read id s = elim (db.find_one (is_live id) s) [
    | none ↦ reply 404 false none (text "No document found ")
    | some result ↦ reply 200 true (some result) (text "we found this document ")
  ]

  -- `accepts` stands for the validators, which `runValidators` runs on the body before the update.
  unfoldable pub update : Bool → (X → X) → ℕ → List (Doc X) → Outcome (Doc X) × List (Doc X)
  update accepts body id s =
      if accepts
      then (let (result, t) =
            db.find_one_and_update updated (is_live id)
              (λ d. record d { removed = false; fields = body d.fields }) s in
          elim result [
            | none ↦ (reply 404 false none (text "No document found "), t)
            | some d ↦ (reply 200 true (some d) (text "we update this document "), t)
          ])
      else (throw validation_error, s)

  -- The query has no `removed`: a removed document is removed again.
  unfoldable pub remove : ℕ → List (Doc X) → Outcome (Doc X) × List (Doc X)
  remove id s =
      let (result, t) =
        db.find_one_and_update updated (λ d. d.id == id) (λ d. record d { removed = true }) s in
      elim result [
        | none ↦ (reply 404 false none (text "No document found "), t)
        | some d ↦ (reply 200 true (some d) (text "Successfully Deleted the document "), t)
      ]

  -- `find` gives a list, never null, so the 404 is not reached.
  unfoldable pub filter :
      (String → String → X → Bool)
      → Option String
      → Option String
      → List (Doc X)
      → Outcome (List (Doc X))
  filter equals none equal s = reply 403 false none (text "filter not provided correctly")
  filter equals (some f) none s = reply 403 false none (text "filter not provided correctly")
  filter equals (some f) (some equal) s =
      reply 200 true (some (db.find (λ d. not d.removed && equals f equal d.fields) s))
        (text "Successfully found all documents  ")

  -- `matches` is the `$or` of the patterns for `q`, over the fields of the query or over `name`.
  unfoldable pub search :
      (Option String → Option String → X → Bool)
      → Option String
      → Option String
      → List (Doc X)
      → Outcome (List (Doc X))
  search matches fields q s =
      let results = take 20 (db.find (λ d. matches fields q d.fields && not d.removed) s) in
      if leb 1 (length results)
      then reply 200 true (some results) (text "Successfully found all documents")
      else reply 202 false (some []) (text "No document found by this request")

  -- The test is on `countAllDocs.length`, and a number has no length: `undefined > 0` is false.
  unfoldable pub summary : (X → Bool) → List (Doc X) → Outcome (Option Counts)
  summary equals s =
      let count_all_docs = db.count_documents (λ d. not d.removed) s in
      let count_filter = db.count_documents (λ d. not d.removed && equals d.fields) s in
      if length_exceeds_zero count_all_docs
      then reply 200 true
          (some (some (record { count_filter = count_filter; count_all_docs = count_all_docs })))
          (text "Successfully count all documents")
      else reply 203 false (some none) (text "Collection is Empty")
    where
      length_exceeds_zero : ℕ → Bool
      length_exceeds_zero n = false
