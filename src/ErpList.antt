-- ===== src/ErpList.antt =====
-- The list of invoices, quotes and payments: DataTable.jsx, DeleteItem.jsx and index.jsx of
-- frontend/src/modules/ErpPanelModule, over the store of redux/erp and the panels of context/erp.
-- A step is one event, as in Pages: its handler, then the effect of the render that follows. The
-- page starts when index.jsx has reset the store, and ends when it goes to another.
pub mod Dialog
pub mod Stuck
use dev_ops_projet.Base.{
  ℕ, ◌≡◌, refl, Bool, true, false, not, ◌&&◌, ◌||◌, if◌then◌else◌, String, Option, none, some, List,
  [], ◌∷◌, ◌++◌, ◌>>=◌,
}
use dev_ops_projet.Contexts.Panels.{
  Panels, Call, modal_open, modal_close, initial_state as initial_panels, after_calls,
  context_reducer, context_actions,
}
use dev_ops_projet.Redux.{
  update, delete, Payload, doc, State, Action, current_item, current_action, initial_state,
  erp_reducer, reduce,
}
use dev_ops_projet.Redux.Actions.{Reply, list_op, delete_op, dispatches, list_items, delete_item}
use dev_ops_projet.Redux.Requests.{run}
use dev_ops_projet.Pages.{or_number, started, arrived, changes_current}
use dev_ops_projet.Pages.Effects.{label_of}

-- A request for a page of the list, for what belongs to a client, or to delete an object.
pub data Request (A : Type 0) : Type 0 where
  list_request : ℕ → ℕ → Request A
  filter_request : ℕ → Request A
  delete_request : A → Request A

-- Where the page goes: to the new form, to an object's page, form or form for a payment.
pub data Target (A : Type 0) : Type 0 where
  create_page : Target A
  read_page update_page pay_page : A → Target A

-- `windows`: the objects whose files were opened; `went`: the page that is left for.
pub record Page (A : Type 0) : Type 0 where
  pub store : State A
  pub panels : Panels
  pub display_item : String
  pub sent : List (Request A)
  pub windows : List A
  pub went : Option (Target A)

pub data Event (A : Type 0) : Type 0 where
  read_clicked edit_clicked download_clicked delete_clicked record_payment_clicked : A → Event A
  add_clicked ok_clicked modal_cancelled : Event A
  table_changed : Option ℕ → Option ℕ → Event A
  filter_typed : ℕ → Event A
  listed : Option ℕ → Option (Reply A) → Event A
  deleted : Option (Reply A) → Event A

-- What a handler or an effect does.
pub record Turn (A : Type 0) : Type 0 where
  pub actions : List (Action A)
  pub calls : List Call
  pub display_item : String
  pub sent : List (Request A)
  pub windows : List A
  pub went : Option (Target A)

module _ {A : Type 0} where
  abbrev pub initial_page : Page A
  initial_page = record {
    store = initial_state;
    panels = initial_panels;
    display_item = "";
    sent = [];
    windows = [];
    went = none;
  }

  abbrev pub turn : Page A → List (Action A) → List Call → Turn A
  turn p actions calls = record {
    actions = actions;
    calls = calls;
    display_item = p.display_item;
    sent = [];
    windows = [];
    went = p.went;
  }

  unfoldable pub commit : Turn A → Page A → Option (Page A)
  commit t p = do
    panels ← after_calls t.calls p.panels
    some (record {
      store = run erp_reducer p.store t.actions;
      panels = panels;
      display_item = t.display_item;
      sent = p.sent ++ t.sent;
      windows = p.windows ++ t.windows;
      went = t.went;
    })

  -- DataTable.jsx: the rows' menu, the button for a new object, and the table.
  abbrev handle_read : A → Page A → Turn A
  handle_read a p = record (turn p (current_item (doc a) ∷ []) []) { went = some (read_page a) }

  abbrev handle_edit : A → Page A → Turn A
  handle_edit a p = record (turn p (current_action update (doc a) ∷ []) []) {
    went = some (update_page a);
  }

  abbrev handle_download : A → Page A → Turn A
  handle_download a p = record (turn p [] []) { windows = a ∷ [] }

  abbrev handle_delete : A → Page A → Turn A
  handle_delete a p = turn p (current_action delete (doc a) ∷ []) (modal_open ∷ [])

  abbrev handle_record_payment : A → Page A → Turn A
  handle_record_payment a p = record (turn p (current_item (doc a) ∷ []) []) {
    went = some (pay_page a);
  }

  abbrev handle_click : Page A → Turn A
  handle_click p = record (turn p [] []) { went = some create_page }

  abbrev handel_data_table_load : Option ℕ → Option ℕ → Page A → Turn A
  handel_data_table_load page size p =
      record (turn p (started (list_op (some (or_number size 10)))) []) {
        sent = list_request (or_number page 1) (or_number size 10) ∷ [];
      }

  abbrev filter_table : ℕ → Page A → Turn A
  filter_table value p = record (turn p (started (list_op (some 10))) []) {
    sent = filter_request value ∷ [];
  }

  -- DeleteItem.jsx. `none` is a TypeError: null has no `_id`.
  abbrev handle_ok : Page A → Option (Turn A)
  handle_ok p = elim (p.store.slot delete).current [
    | doc a ↦
        some
          (record (turn p (started delete_op) (modal_close ∷ [])) { sent = delete_request a ∷ [] })
    | _ ↦ none
  ]

  abbrev handle_cancel : Page A → Turn A
  handle_cancel p = turn p [] (if (p.store.slot delete).is_loading then [] else modal_close ∷ [])

  -- `none` is an error thrown by the handler. An answer on which its action throws rejects the action's
  -- promise, which no component awaits: the page and the slot stay as they are.
  unfoldable pub handler : Event A → Page A → Option (Turn A)
  handler (read_clicked a) p = some (handle_read a p)
  handler (edit_clicked a) p = some (handle_edit a p)
  handler (download_clicked a) p = some (handle_download a p)
  handler (delete_clicked a) p = some (handle_delete a p)
  handler (record_payment_clicked a) p = some (handle_record_payment a p)
  handler add_clicked p = some (handle_click p)
  handler (table_changed page size) p = some (handel_data_table_load page size p)
  handler (filter_typed value) p = some (filter_table value p)
  handler ok_clicked p = handle_ok p
  handler modal_cancelled p = some (handle_cancel p)
  handler (listed size r) p = some (turn p (arrived (list_op (some (or_number size 10))) r) [])
  handler (deleted r) p = some (turn p (arrived delete_op r) [])

  pub handler-handle_ok :
      (p : Page A) (a : A)
      → (p.store.slot delete).current ≡ doc a
      → handler ok_clicked p
        ≡ some (record (turn p (started delete_op) (modal_close ∷ [])) {
          sent = delete_request a ∷ [];
        })
  unfolding handler
  handler-handle_ok p a e = rw (handler, handle_ok, e) refl

  module _ (labels : A → String) where
    -- The effect of DeleteItem on `[isSuccess, current]`: the objects that `currentAction` makes are
    -- new ones.
    unfoldable pub delete_effect : List (Action A) → State A → State A → Page A → Turn A
    delete_effect actions before now p =
        let was = (before.slot delete).is_success in
        let is = (now.slot delete).is_success in
        if changes_current delete actions before now || (was && not is) || (not was && is)
        then record {
          actions = if is then started (list_op (some 10)) else [];
          calls = if is then modal_close ∷ [] else [];
          display_item = label_of labels (now.slot delete).current p.display_item;
          sent = if is then list_request 1 10 ∷ [] else [];
          windows = [];
          went = p.went;
        }
        else turn p [] []

    unfoldable pub step : Event A → Page A → Option (Page A)
    unfolding handler commit delete_effect context_reducer context_actions erp_reducer reduce
        dispatches list_items delete_item
    step e p = do
      t ← handler e p
      q ← commit t p
      commit (delete_effect t.actions p.store q.store q) q
