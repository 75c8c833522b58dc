-- ===== src/Tests/Entities.antt =====
-- Taxes, generic entities and the requests of the client.
use dev_ops_projet.Base.{
  ℕ, suc, ◌≡◌, ◌≢◌, refl, arith, String, true, false, none, some, List, [], ◌∷◌, pos, length,
}
use dev_ops_projet.Http.{reply, of_key}
use dev_ops_projet.Mongo.{in_memory, select}
use dev_ops_projet.DefaultItem.{TaxContent, EntryChange, Tax, update_entry}
use dev_ops_projet.DefaultItem.Laws.{defaults}
use dev_ops_projet.DefaultItem.Drift.{update_entry-adds_default}
use dev_ops_projet.Settings.{Setting, missing, txt}
use dev_ops_projet.Settings.Controller.{update_setting, read_setting}
use dev_ops_projet.Settings.Laws.{update_setting-read_setting}
use dev_ops_projet.Crud.{Doc}
use dev_ops_projet.Crud.Listing.{ceil_div, paginated_list}
use dev_ops_projet.Crud.Pages.{collect, items_of, IsSort, matching_of, paginated_list-covers}
use dev_ops_projet.Mongo.Keys.{Distinct}
use dev_ops_projet.Redux.{
  Slot, Action, Payload, doc, request_loading, request_success, current_item, reduce, initial_state,
  initial_slot, create, list,
}
use dev_ops_projet.Redux.Actions.{create_op, Reply, dispatches, create_item}
use dev_ops_projet.Redux.Requests.{run, touches, settled, interleaved_request-settles}
use dev_ops_projet.Tests.Models.{in_memory-IsMongoose}

one_ne_two : ◌≢◌ {A = ℕ} 1 2
one_ne_two = omega arith

abbrev vat : TaxContent
vat = record { tax_name = "vat"; tax_value = record { units = pos 20; scale = 0 } }

abbrev old_tax : Tax
old_tax = record { id = 1; removed = false; enabled = true; is_default = true; content = vat }

abbrev other_tax : Tax
other_tax = record { id = 2; removed = false; enabled = true; is_default = false; content = vat }

abbrev third_tax : Tax
third_tax = record { id = 3; removed = false; enabled = true; is_default = true; content = vat }

abbrev rename : EntryChange TaxContent
rename = record { enabled = none; is_default = none; edit = λ x. record x { tax_name = "tva" } }

abbrev three : List Tax
three = record other_tax { id = 1 } ∷ other_tax ∷ third_tax ∷ []

drift_example :
    defaults (update_entry in_memory "done" "only one" rename 2 three).1 ≡ suc (defaults three)
drift_example =
    update_entry-adds_default in_memory "done" "only one" rename 2 three other_tax
      (record other_tax { id = 1 }) in_memory-IsMongoose refl refl refl refl refl

abbrev note : ℕ → Doc String
note n = record { id = n; removed = false; fields = "note" }

abbrev notes : List (Doc String)
notes = note 1 ∷ note 2 ∷ note 3 ∷ []

two_ne_one : ◌≢◌ {A = ℕ} 2 1
two_ne_one = omega arith

three_ne_one : ◌≢◌ {A = ℕ} 3 1
three_ne_one = omega arith

three_ne_two : ◌≢◌ {A = ℕ} 3 2
three_ne_two = omega arith

-- The sort by id of the notes, which are in that order.
as_is-IsSort : IsSort {A = Doc String} (λ d. d.id) (λ k xs. xs)
as_is-IsSort = record { agrees = λ j k xs a. refl; length_lem = λ k xs. refl }

notes-Distinct : Distinct (λ d. d.id) notes
notes-Distinct = ((two_ne_one, (three_ne_one, tt)), ((three_ne_two, tt), (tt, tt)))

pages_example :
    collect
      (λ k. items_of (
        paginated_list in_memory
          (λ xs. xs)
          (λ d. d.removed)
          (record { page = some k; items = some 2 })
          (λ _. true)
          notes))
      1
      (ceil_div (length (matching_of (λ d. d.removed) (λ _. true) notes)) 2)
    ≡ notes
pages_example =
    paginated_list-covers in_memory (λ d. d.id) (λ k xs. xs) (λ d. d.removed) 1 (λ _. true) notes
      in_memory-IsMongoose as_is-IsSort notes-Distinct

abbrev saved : Reply ℕ
saved = record { success = true; result = doc 4; pagination = none }

abbrev keep : Payload ℕ → Slot ℕ → Slot ℕ
keep p v = v

-- A list is asked for while the create is on its way.
abbrev mixed : List (Action ℕ)
mixed =
    request_loading create
    ∷ request_loading list
    ∷ request_success create (doc 4)
    ∷ current_item (doc 4)
    ∷ []

mixed-create :
    select (touches create) mixed
    ≡ select (touches create) (dispatches (λ a. doc a) create_op (some saved))
unfolding dispatches create_item
mixed-create = refl

request_example :
    (run (reduce keep) initial_state mixed).slot create
    ≡ settled create_op (record { page = 1; count = 1 }) saved (initial_slot create)
request_example =
    interleaved_request-settles keep (λ a. doc a) create_op (record { page = 1; count = 1 }) saved
      mixed initial_state tt mixed-create

abbrev setting : Setting
setting = record {
  id = 1;
  removed = false;
  enabled = true;
  setting_category = "app_settings";
  setting_key = "language";
  setting_value = missing;
  value_type = "String";
  is_private = false;
  is_core_setting = false;
}

setting_example :
    read_setting in_memory
      (some "language")
      (update_setting in_memory (some "language") (txt "fr") (setting ∷ [])).1
    ≡ reply 200 true
        (some (record setting { setting_value = txt "fr" }))
        (of_key "we found this document by this settingKey: " "language")
setting_example =
    update_setting-read_setting in_memory (some "language") "language" (txt "fr") (setting ∷ [])
      setting in_memory-IsMongoose refl refl refl
