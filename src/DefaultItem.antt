-- ===== src/DefaultItem.antt =====
-- The controllers of taxes and of payment modes, whose code is the same but for the model and the
-- texts: backend/src/controllers/appControllers/taxesController/index.js and
-- paymentModeController/index.js, with their schemas Taxes.js and PaymentMode.js.
pub mod Laws
pub mod Drift
use dev_ops_projet.Base.{
  ℕ, String, Bool, true, false, not, ◌&&◌, ◌||◌, Option, none, some, List, ltb, leb, ◌==◌,
  if◌then◌else◌,
}
use dev_ops_projet.Http.{Outcome, reply, text, throw, type_error, validation_error}
use dev_ops_projet.Mongo.{Mongoose, original, updated}
use dev_ops_projet.Calculate.{Decimal}

-- A document of either model: `content` holds the fields that are the model's own.
pub record Entry (X : Type 0) : Type 0 where
  pub id : ℕ
  pub removed : Bool
  pub enabled : Bool
  pub is_default : Bool
  pub content : X

pub record TaxContent : Type 0 where
  pub tax_name : String
  pub tax_value : Decimal

pub record PaymentModeContent : Type 0 where
  pub name : String
  pub description : String
  pub ref : Option String

abbrev pub Tax : Type 0
Tax = Entry TaxContent

abbrev pub PaymentMode : Type 0
PaymentMode = Entry PaymentModeContent

pub record NewEntry (X : Type 0) : Type 0 where
  pub enabled : Option Bool
  pub is_default : Option Bool
  pub content : X

-- The body of an update: `edit` sets those of the model's own fields that the body holds.
pub record EntryChange (X : Type 0) : Type 0 where
  pub enabled : Option Bool
  pub is_default : Option Bool
  pub edit : X → X

abbrev pub given {ℓ} : {A : Type ℓ} → Option A → A → A
given none d = d
given (some a) d = a

module _ {X : Type 0} where
  abbrev pub clear : Entry X → Entry X
  clear d = record d { is_default = false }

  abbrev pub promote : Entry X → Entry X
  promote d = record d { is_default = true }

  abbrev pub apply_change : EntryChange X → Entry X → Entry X
  apply_change body d = record d {
    enabled = given body.enabled d.enabled;
    is_default = given body.is_default d.is_default;
    content = body.edit d.content;
  }

  -- `field = item.field` in a destructuring: the item is read only if the body leaves the field
  -- out, and then `none` is the TypeError of a missing item.
  abbrev pub default_to : Option Bool → (Entry X → Bool) → Option (Entry X) → Option Bool
  default_to (some b) field item = some b
  default_to none field none = none
  default_to none field (some d) = some (field d)

  abbrev pub is_other : ℕ → Entry X → Bool
  is_other id d = not (d.id == id)

  abbrev pub is_candidate : ℕ → Entry X → Bool
  is_candidate id d = not (d.id == id) && d.enabled

  abbrev pub is_live : ℕ → Entry X → Bool
  is_live id d = d.id == id && not d.removed

  module _ (db : Mongoose) where
    unfoldable pub create_entry :
        String
        → (Entry X → Bool)
        → NewEntry X
        → ℕ
        → List (Entry X)
        → Outcome (Entry X) × List (Entry X)
    create_entry done is_valid body id s =
        let s' = if given body.is_default false then db.update_many (λ _. true) clear s else s in
        let count_default = db.count_documents (λ d. d.is_default) s' in
        let doc : Entry X = record {
          id = id;
          removed = false;
          enabled = given body.enabled true;
          is_default = if ltb count_default 1 then true else false;
          content = body.content;
        } in
        if is_valid doc
        then (reply 200 true (some doc) (text done), db.save doc s')
        else (throw validation_error, s')

    -- From `if (!isDefault || …)` on, for the two values of the destructuring.
    unfoldable pub update_resolved :
        String
        → String
        → EntryChange X
        → ℕ
        → Bool
        → Bool
        → List (Entry X)
        → Outcome (Entry X) × List (Entry X)
    update_resolved done only_one body id is_default enabled s =
        let s₁ =
          if not is_default || (not enabled && is_default)
          then (db.find_one_and_update original (is_candidate id) promote s).1
          else s in
        let s₂ = if is_default && enabled then db.update_many (is_other id) clear s₁ else s₁ in
        let count = db.count_documents (λ _. true) s₂ in
        if (not enabled || not is_default) && leb count 1
        then (reply 422 false none (text only_one), s₂)
        else (let (result, s₃) =
              db.find_one_and_update updated (λ d. d.id == id) (apply_change body) s₂ in
            (reply 200 true result (text done), s₃))

    unfoldable pub update_entry :
        String → String → EntryChange X → ℕ → List (Entry X) → Outcome (Entry X) × List (Entry X)
    unfolding update_resolved
    update_entry done only_one body id s =
        let item = db.find_one (is_live id) s in
        elim (default_to body.is_default (λ d. d.is_default) item) [
          | none ↦ (throw type_error, s)
          | some is_default ↦ elim (default_to body.enabled (λ d. d.enabled) item) [
            | none ↦ (throw type_error, s)
            | some enabled ↦ update_resolved done only_one body id is_default enabled s
          ]
        ]

module _ (db : Mongoose) where
  unfoldable pub create_tax :
      (Tax → Bool) → NewEntry TaxContent → ℕ → List Tax → Outcome Tax × List Tax
  unfolding create_entry
  create_tax = create_entry db "Tax created successfully"

  unfoldable pub update_tax : EntryChange TaxContent → ℕ → List Tax → Outcome Tax × List Tax
  unfolding update_entry
  update_tax =
      update_entry db "Tax updated successfully"
        "You cannot disable the tax because it is the only existing one"

  unfoldable pub create_payment_mode :
      (PaymentMode → Bool)
      → NewEntry PaymentModeContent
      → ℕ
      → List PaymentMode
      → Outcome PaymentMode × List PaymentMode
  unfolding create_entry
  create_payment_mode = create_entry db "payment mode created successfully"

  unfoldable pub update_payment_mode :
      EntryChange PaymentModeContent → ℕ → List PaymentMode → Outcome PaymentMode × List PaymentMode
  unfolding update_entry
  update_payment_mode =
      update_entry db "paymentMode updated successfully"
        "You cannot disable the paymentMode because it is the only existing one"

unfoldable pub delete_tax : Outcome Tax
delete_tax = reply 403 false none (text "you can't delete tax after it has been created")

unfoldable pub delete_payment_mode : Outcome PaymentMode
delete_payment_mode =
    reply 403 false none (text "you can't delete payment mode after it has been created")
