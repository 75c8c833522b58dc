-- ===== src/Pages/Orderly.antt =====
-- What holds between the events of a page: the forms and the dialog are about what the page shows.
use dev_ops_projet.Base.{
  ◌≡◌, refl, Bool, true, false, not, ◌&&◌, if◌then◌else◌, String, Option, none, some, List,
}
use dev_ops_projet.Redux.{create, update, delete, search, Payload, absent, doc, docs, page}
use dev_ops_projet.Redux.Actions.{Reply}
use dev_ops_projet.Pages.{
  Page, Event, cancel_clicked, update_submit, ok_clicked, modal_cancelled, option_selected, created,
  updated, spread_of,
}

abbrev pub is_docs : {A : Type 0} → Payload A → Bool
is_docs (docs ds) = true
is_docs _ = false

pub docs_of : {A : Type 0} (x : Payload A) → is_docs x ≡ true → (ds : List A) × (x ≡ docs ds)
docs_of absent e = cc
docs_of (doc a) e = cc
docs_of (docs ds) e = (ds, refl)
docs_of (page x n s t) e = cc

-- What a page shows to work: the edit box's form, the dialog's buttons, the options of the search box
-- over a list, and the rest. The panel's Edit and Remove are transparent where no read or edit box is
-- open, and work there too.
abbrev pub is_shown : {A F : Type 0} → Event A F → Page A F → Bool
is_shown cancel_clicked p = p.boxes.is_edit_box_open
is_shown (update_submit fields) p = p.boxes.is_edit_box_open
is_shown ok_clicked p = p.boxes.is_modal_open
is_shown modal_cancelled p = p.boxes.is_modal_open
is_shown (option_selected q) p = is_docs (p.store.slot search).result
is_shown e p = true

-- An accepted creation or update is answered with its document.
abbrev pub HasDoc : {A : Type 0} → Option (Reply A) → Type 0
HasDoc none = Unit
HasDoc {A} (some r) = r.success ≡ true → (a : A) × (r.result ≡ doc a)

abbrev pub IsServed : {A F : Type 0} → Event A F → Type 0
IsServed (created r) = HasDoc r
IsServed (updated r) = HasDoc r
IsServed e = Unit

module _ {A F : Type 0} (with_dates : A → A) (blank : A) (labels : A → String) where
  -- An open edit box has a form of the object that the panel shows, or of the empty one if it shows
  -- none, and an open dialog has an object, with its labels.
  pub record IsOrderly (p : Page A F) : Type 0 where
    pub create_idle : (p.store.slot create).is_success ≡ false
    pub update_idle : (p.store.slot update).is_success ≡ false
    pub editing :
        p.boxes.is_edit_box_open ≡ true
        → ((p.store.slot update).current ≡ doc (spread_of blank p.store.current_item))
          × (p.forms.update_form ≡ some (with_dates (spread_of blank p.store.current_item)))
    pub asking :
        p.boxes.is_modal_open ≡ true
        → (a : A) × ((p.store.slot delete).current ≡ doc a)
          × (p.forms.display_item ≡ labels a)
          × ((p.store.slot delete).is_success ≡ false)

  abbrev pub Holds : Option (Page A F) → Type 0
  Holds none = Path Bool true false
  Holds (some q) = IsOrderly q

pub if_same : {A : Type 0} (b : Bool) (x : A) → (if b then x else x) ≡ x
if_same true x = refl
if_same false x = refl

pub and_not : (b : Bool) → (b && not b) ≡ false
and_not true = refl
and_not false = refl

pub not_and : (b : Bool) → (not b && b) ≡ false
not_and true = refl
not_and false = refl

-- What the tests of the effects come to where nothing has changed.
pub ruleset unchanged = (if_same, and_not, not_and)

module _ {A F : Type 0} {with_dates : A → A} {blank : A} {labels : A → String} {p : Page A F} where
  pub orderly :
      (p.store.slot create).is_success ≡ false
      → (p.store.slot update).is_success ≡ false
      → (p.boxes.is_edit_box_open ≡ true
          → ((p.store.slot update).current ≡ doc (spread_of blank p.store.current_item))
            × (p.forms.update_form ≡ some (with_dates (spread_of blank p.store.current_item))))
      → (p.boxes.is_modal_open ≡ true
          → (a : A) × ((p.store.slot delete).current ≡ doc a)
            × (p.forms.display_item ≡ labels a)
            × ((p.store.slot delete).is_success ≡ false))
      → IsOrderly with_dates blank labels p
  orderly c u e a = record { create_idle = c; update_idle = u; editing = e; asking = a }
