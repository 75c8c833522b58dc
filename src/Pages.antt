-- ===== src/Pages.antt =====
-- The pages of clients, taxes and payment modes: frontend/src/modules/CrudModule with its table,
-- forms, side panel and deletion dialog, over the store of redux/crud and the boxes of context/crud.
-- A step is one event, a control that the user works or an answer that arrives: its handler, then the
-- effects of the render that follows. A page starts when its store is reset; the table's first load
-- is an event.
pub mod Effects
pub mod Steps
pub mod Orderly
pub mod Answers
pub mod Controls
pub mod Runs
use dev_ops_projet.Base.{
  ℕ, Bool, true, false, not, ◌&&◌, ◌||◌, if◌then◌else◌, String, Option, none, some, List, [], ◌∷◌,
  ◌++◌, length, drop, ◌==◌, ◌>>=◌,
}
use dev_ops_projet.Mongo.{first}
use dev_ops_projet.Contexts.Boxes.{
  Boxes, BoxAction, open_modal, close_modal, open_panel, close_panel, collapse_panel, open_box,
  close_box, collapse_box, open_read_box, close_read_box, open_advanced_box, open_edit_box,
  initial_boxes, after_actions,
}
use dev_ops_projet.Contexts.Menu.{Menu, collapse_nav_menu, initial_menu, menu_reducer}
use dev_ops_projet.Redux.{
  Key, list, create, update, delete, search, Payload, absent, doc, docs, State, Action,
  current_item, request_loading, current_action, reset_action, initial_state, crud_reducer,
}
use dev_ops_projet.Redux.Actions.{
  Reply, Operation, list_op, create_op, update_op, delete_op, search_op, dispatches,
}
use dev_ops_projet.Redux.Requests.{run}

-- A request that the page sends: for a page of the list of some size, for the list of what matches
-- a text, with the fields of a form, or with the id of an object.
pub data Request (A F : Type 0) : Type 0 where
  list_request : ℕ → ℕ → Request A F
  filter_request : String → Request A F
  create_request : F → Request A F
  update_request : A → F → Request A F
  delete_request : A → Request A F

-- What the create form has typed, the object that the update form is filled with, and the labels
-- that the deletion dialog shows.
pub record Forms (A F : Type 0) : Type 0 where
  pub create_form : Option F
  pub update_form : Option A
  pub display_item : String

pub record Page (A F : Type 0) : Type 0 where
  pub store : State A
  pub boxes : Boxes
  pub menu : Menu
  pub forms : Forms A F
  pub sent : List (Request A F)

-- The controls of the table's rows, the panel, the forms and the dialog, and the arriving answers.
pub data Event (A F : Type 0) : Type 0 where
  read_clicked edit_clicked delete_clicked update_password_clicked : A → Event A F
  add_clicked plus_clicked collapse_panel_clicked collapse_box_clicked : Event A F
  remove_clicked edit_item_clicked cancel_clicked : Event A F
  create_submit update_submit : F → Event A F
  ok_clicked modal_cancelled : Event A F
  table_changed : Option ℕ → Option ℕ → Event A F
  filter_typed : String → Event A F
  option_selected : (A → Bool) → Event A F
  listed : Option ℕ → Option (Reply A) → Event A F
  created updated deleted found : Option (Reply A) → Event A F

-- What a handler or an effect does: the actions of the store and of the boxes, whether it folds the
-- navigation's menu, the forms it leaves and the requests it sends.
pub record Turn (A F : Type 0) : Type 0 where
  pub actions : List (Action A)
  pub box_actions : List BoxAction
  pub folds_menu : Bool
  pub forms : Forms A F
  pub sent : List (Request A F)

-- `n || d`, of a number that may be undefined.
abbrev pub or_number : Option ℕ → ℕ → ℕ
or_number none d = d
or_number (some n) d = if n == 0 then d else n

abbrev folded : Bool → Menu → Option Menu
folded false m = some m
folded true m = menu_reducer m collapse_nav_menu

module _ {A : Type 0} where
  -- An operation up to its `await` is what it dispatches on an undefined answer; then comes the rest.
  abbrev pub started : Operation → List (Action A)
  started o = dispatches (λ a. absent) o none

  abbrev pub arrived : Operation → Option (Reply A) → List (Action A)
  arrived o r = drop (length (started o)) (dispatches (λ a. absent) o r)

  -- `isSuccess` has become true.
  abbrev pub succeeds : Key → State A → State A → Bool
  succeeds k before now = not (before.slot k).is_success && (now.slot k).is_success

  abbrev pub is_doc : Payload A → Bool
  is_doc (doc a) = true
  is_doc _ = false

  abbrev sets_current : Key → Action A → Bool
  sets_current delete (current_action delete x) = true
  sets_current update (current_action update x) = true
  sets_current _ _ = false

  abbrev any_sets : Key → List (Action A) → Bool
  any_sets k [] = false
  any_sets k (a ∷ rest) = sets_current k a || any_sets k rest

  -- `current` is another object or null than before: each `currentAction` makes a new object.
  abbrev pub changes_current : Key → List (Action A) → State A → State A → Bool
  changes_current k actions before now =
      any_sets k actions || (is_doc (before.slot k).current && not (is_doc (now.slot k).current))

  -- `{ ...data }`, of an object or of null.
  abbrev pub spread_of : A → Payload A → A
  spread_of blank (doc a) = a
  spread_of blank _ = blank

  abbrev pub found_item : (A → Bool) → Payload A → Option (Payload A)
  found_item q (docs ds) = some (elim (first q ds) [ none ↦ absent | some a ↦ doc a ])
  found_item q _ = none

module _ {A F : Type 0} where
  abbrev pub initial_page : Page A F
  initial_page = record {
    store = initial_state;
    boxes = initial_boxes;
    menu = initial_menu;
    forms = record { create_form = none; update_form = none; display_item = "" };
    sent = [];
  }

  abbrev pub turn : Page A F → List (Action A) → List BoxAction → Turn A F
  turn p actions box_actions = record {
    actions = actions;
    box_actions = box_actions;
    folds_menu = false;
    forms = p.forms;
    sent = [];
  }

  unfoldable pub commit : Turn A F → Page A F → Option (Page A F)
  commit t p = do
    boxes ← after_actions t.box_actions p.boxes
    menu ← folded t.folds_menu p.menu
    some (record {
      store = run crud_reducer p.store t.actions;
      boxes = boxes;
      menu = menu;
      forms = t.forms;
      sent = p.sent ++ t.sent;
    })

  abbrev pub nothing : Page A F → Turn A F
  nothing p = turn p [] []
