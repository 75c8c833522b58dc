-- ===== src/Pages/Steps.antt =====
-- The handlers of the page's controls and of the arriving answers.
use dev_ops_projet.Base.{
  ℕ, ◌≡◌, refl, Bool, List, true, if◌then◌else◌, String, Option, none, some, [], ◌∷◌, ◌>>=◌,
}
use dev_ops_projet.Contexts.Boxes.{
  open_modal, close_modal, open_panel, close_panel, collapse_panel, open_box, close_box,
  collapse_box, open_read_box, close_read_box, open_advanced_box, open_edit_box, box_reducer,
}
use dev_ops_projet.Contexts.Menu.{menu_reducer}
use dev_ops_projet.Mongo.{first}
use dev_ops_projet.Redux.{
  update, delete, search, absent, doc, docs, current_item, current_action, reduce, crud_reducer,
}
use dev_ops_projet.Redux.Actions.{
  list_op, create_op, update_op, delete_op, search_op, dispatches, list_items, create_item,
  update_item, delete_item, search_items,
}
use dev_ops_projet.Pages.{
  Page, Event, Turn, list_request, filter_request, or_number, create_request, update_request,
  delete_request, read_clicked, edit_clicked, delete_clicked, update_password_clicked, add_clicked,
  plus_clicked, collapse_panel_clicked, collapse_box_clicked, remove_clicked, edit_item_clicked,
  cancel_clicked, create_submit, update_submit, ok_clicked, modal_cancelled, table_changed,
  filter_typed, option_selected, listed, created, updated, deleted, found, started, arrived,
  spread_of, found_item, turn, commit,
}
use dev_ops_projet.Pages.Effects.{
  create_effect, update_effect, current_effect, delete_effect, effects,
}

-- The dates of an object as the update form takes them, the object without fields, and the labels
-- of an object.
module _ {A F : Type 0} (with_dates : A → A) (blank : A) (labels : A → String) where
  -- components/DataTable: the rows' menu, the button for a new object, and the table.
  abbrev handle_read : A → Page A F → Turn A F
  handle_read a p = turn p (current_item (doc a) ∷ []) (open_panel ∷ open_box ∷ open_read_box ∷ [])

  abbrev handle_edit : A → Page A F → Turn A F
  handle_edit a p =
      turn p (current_item (doc a) ∷ current_action update (doc a) ∷ [])
        (open_edit_box ∷ open_panel ∷ open_box ∷ [])

  abbrev handle_delete : A → Page A F → Turn A F
  handle_delete a p = turn p (current_action delete (doc a) ∷ []) (open_modal ∷ [])

  abbrev handle_update_password : A → Page A F → Turn A F
  handle_update_password a p =
      turn p (current_item (doc a) ∷ current_action update (doc a) ∷ [])
        (open_advanced_box ∷ open_panel ∷ open_box ∷ [])

  abbrev handel_click : Page A F → Turn A F
  handel_click p = turn p [] (open_panel ∷ close_box ∷ [])

  abbrev handel_data_table_load : Option ℕ → Option ℕ → Page A F → Turn A F
  handel_data_table_load page size p =
      record (turn p (started (list_op (some (or_number size 10)))) []) {
        sent = list_request (or_number page 1) (or_number size 10) ∷ [];
      }

  abbrev filter_table : String → Page A F → Turn A F
  filter_table value p = record (turn p (started (list_op none)) []) {
    sent = filter_request value ∷ [];
  }

  -- CrudModule: the panel's two buttons, and the button above it.
  abbrev remove_item : Page A F → Turn A F
  remove_item p =
      turn p (current_action delete (doc (spread_of blank p.store.current_item)) ∷ [])
        (open_modal ∷ [])

  abbrev edit_item : Page A F → Turn A F
  edit_item p =
      turn p (current_action update (doc (spread_of blank p.store.current_item)) ∷ [])
        (open_edit_box ∷ [])

  abbrev add_new_item : Page A F → Turn A F
  add_new_item p = turn p [] (close_box ∷ [])

  -- components/SidePanel.
  abbrev collapse_panel_of : Page A F → Turn A F
  collapse_panel_of p = turn p [] (collapse_panel ∷ [])

  abbrev collapse_panel_box : Page A F → Turn A F
  collapse_panel_box p = turn p [] (collapse_box ∷ [])

  -- components/CreateForm and components/UpdateForm. `none` is a TypeError: null has no `_id`.
  abbrev submit_created : F → Page A F → Turn A F
  submit_created fields p = record (turn p (started create_op) []) {
    forms = record p.forms { create_form = some fields };
    sent = create_request fields ∷ [];
  }

  abbrev submit_updated : F → Page A F → Option (Turn A F)
  submit_updated fields p = elim (p.store.slot update).current [
    | doc a ↦ some (record (turn p (started update_op) []) { sent = update_request a fields ∷ [] })
    | _ ↦ none
  ]

  abbrev show_current_record : Page A F → Turn A F
  show_current_record p = turn p [] (open_read_box ∷ [])

  -- components/DeleteModal. `none` is a TypeError as before.
  abbrev handle_ok : Page A F → Option (Turn A F)
  handle_ok p = elim (p.store.slot delete).current [
    | doc a ↦
        some
          (record (turn p (started delete_op) (close_read_box ∷ close_modal ∷ close_panel ∷ [])) {
            folds_menu = true;
            sent = delete_request a ∷ [];
          })
    | _ ↦ none
  ]

  abbrev handle_cancel : Page A F → Turn A F
  handle_cancel p = turn p [] (if (p.store.slot delete).is_loading then [] else close_modal ∷ [])

  -- components/SearchItem. `none` is a TypeError: what is not a list has no `find`.
  abbrev on_select : (A → Bool) → Page A F → Option (Turn A F)
  on_select q p = elim (found_item q (p.store.slot search).result) [
    | none ↦ none
    | some x ↦ some (
        turn p (current_item (doc (spread_of blank x)) ∷ [])
          (open_panel ∷ open_box ∷ open_read_box ∷ []))
  ]

  -- `none` is an error thrown by the handler. An answer on which its action throws (undefined, or a
  -- list without `pagination`) rejects the action's promise, which no component awaits: the page and
  -- the slot stay as they are.
  unfoldable pub handler : Event A F → Page A F → Option (Turn A F)
  handler (read_clicked a) p = some (handle_read a p)
  handler (edit_clicked a) p = some (handle_edit a p)
  handler (delete_clicked a) p = some (handle_delete a p)
  handler (update_password_clicked a) p = some (handle_update_password a p)
  handler add_clicked p = some (handel_click p)
  handler (table_changed page size) p = some (handel_data_table_load page size p)
  handler (filter_typed value) p = some (filter_table value p)
  handler remove_clicked p = some (remove_item p)
  handler edit_item_clicked p = some (edit_item p)
  handler plus_clicked p = some (add_new_item p)
  handler collapse_panel_clicked p = some (collapse_panel_of p)
  handler collapse_box_clicked p = some (collapse_panel_box p)
  handler (create_submit fields) p = some (submit_created fields p)
  handler (update_submit fields) p = submit_updated fields p
  handler cancel_clicked p = some (show_current_record p)
  handler ok_clicked p = handle_ok p
  handler modal_cancelled p = some (handle_cancel p)
  handler (option_selected q) p = on_select q p
  handler (listed size r) p = some (turn p (arrived (list_op size) r) [])
  handler (created r) p = some (turn p (arrived create_op r) [])
  handler (updated r) p = some (turn p (arrived update_op r) [])
  handler (deleted r) p = some (turn p (arrived delete_op r) [])
  handler (found r) p = some (turn p (arrived search_op r) [])

  pub handler-update_submit :
      (p : Page A F) (fields : F) (a : A)
      → (p.store.slot update).current ≡ doc a
      → handler (update_submit fields) p
        ≡ some (record (turn p (started update_op) []) { sent = update_request a fields ∷ [] })
  unfolding handler
  handler-update_submit p fields a e = rw (handler, submit_updated, e) refl

  pub handler-handle_ok :
      (p : Page A F) (a : A)
      → (p.store.slot delete).current ≡ doc a
      → handler ok_clicked p
        ≡ some
            (record (turn p (started delete_op) (close_read_box ∷ close_modal ∷ close_panel ∷ [])) {
              folds_menu = true;
              sent = delete_request a ∷ [];
            })
  unfolding handler
  handler-handle_ok p a e = rw (handler, handle_ok, e) refl

  -- Whatever option of a list is chosen, the panel shows one object.
  pub handler-on_select :
      (p : Page A F) (q : A → Bool) (ds : List A)
      → (p.store.slot search).result ≡ docs ds
      → (a : A) × (handler (option_selected q) p
          ≡ some (turn p (current_item (doc a) ∷ []) (open_panel ∷ open_box ∷ open_read_box ∷ [])))
  unfolding handler
  handler-on_select p q ds e = (
    spread_of blank (elim (first q ds) [ none ↦ absent | some a ↦ doc a ]),
    rw (handler, on_select, e) refl,
  )

  unfoldable pub step : Event A F → Page A F → Option (Page A F)
  unfolding handler effects commit create_effect update_effect current_effect delete_effect
      box_reducer menu_reducer crud_reducer reduce dispatches list_items create_item update_item
      delete_item search_items
  step e p = do t ← handler e p; q ← commit t p; effects with_dates labels p.store t.actions q
