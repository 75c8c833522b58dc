-- ===== src/ErpUpdate.antt =====
-- The page with the form of an old invoice or quote: UpdateInvoiceModule/index.jsx of
-- frontend/src/modules/InvoiceModule, which UpdateQuoteModule repeats, with UpdateItem.jsx of
-- ErpPanelModule. Its store is that of redux/erp, as earlier pages have left it. A step is one event:
-- its handler, then the layout effects and the effects of the renders that follow.
pub mod Filled
pub mod Runs
pub mod Stale
use dev_ops_projet.Base.{
  ℕ, Bool, true, false, not, ◌&&◌, if◌then◌else◌, Option, none, some, List, [], ◌∷◌, ◌++◌,
}
use dev_ops_projet.Redux.{
  update, read, Payload, absent, doc, State, Action, current_action, reset_action, erp_reducer,
  reduce,
}
use dev_ops_projet.Redux.Actions.{Reply, read_op, update_op, dispatches, read_item, update_item}
use dev_ops_projet.Redux.Requests.{run}
use dev_ops_projet.Pages.{started, arrived, succeeds}

pub data Request (F : Type 0) : Type 0 where
  read_request : ℕ → Request F
  update_request : ℕ → F → Request F

-- Where the page goes: to the list, or to the page of a document.
pub data Destination : Type 0 where
  list_page : Destination
  read_page : ℕ → Destination

-- `id` is that of the address, and `form` what the form was last filled with.
pub record Page (A F : Type 0) : Type 0 where
  pub store : State A
  pub id : ℕ
  pub form : Option A
  pub sent : List (Request F)
  pub went : Option Destination

-- The controls of the form, and the arriving answers.
pub data Event (A F : Type 0) : Type 0 where
  form_submitted : F → Event A F
  close_clicked : Event A F
  read_answered updated : Option (Reply A) → Event A F

module _ {A : Type 0} where
  -- UpdateItem stands on the page: `isSuccess` of the read, and not `isLoading`.
  abbrev pub shows_form : State A → Bool
  shows_form s = not (s.slot read).is_loading && (s.slot read).is_success

  -- The layout effect on `[currentResult]`: `{ ...currentResult }` becomes the update's `current`.
  unfoldable pub layout_effect : Payload A → State A → State A
  layout_effect absent s = s
  layout_effect current_result s = run erp_reducer s (current_action update current_result ∷ [])

  -- `setFieldsValue` of the form, by the effect on `[current]`.
  abbrev pub fill_form : (A → A) → Payload A → Option A → Option A
  fill_form form_of (doc a) form = some (form_of a)
  fill_form form_of _ form = form

module _ {A F : Type 0} where
  -- UpdateItem's effect on `[isSuccess]`.
  unfoldable pub updated_effect : Bool → Page A F → Page A F
  updated_effect is_success p =
      if is_success
      then record p {
        store = run erp_reducer p.store (reset_action update ∷ []);
        form = none;
        went = some (read_page p.id);
      }
      else p

  -- UpdateItem's effect on `[current]`, with the dates and the rate that the form is given.
  unfoldable pub fill_effect : (A → A) → Payload A → Page A F → Page A F
  fill_effect form_of current p = record p { form = fill_form form_of current p.form }

  -- The first render, on the store that was left: the two layout effects, then those of a form that
  -- an earlier read shows. The read's flag takes that form away again.
  unfoldable pub open_page : State A → ℕ → Page A F
  unfolding updated_effect layout_effect erp_reducer reduce dispatches read_item
  open_page left id =
      let p : Page A F = record {
        store = layout_effect (left.slot read).result (run erp_reducer left (started read_op));
        id = id;
        form = none;
        sent = read_request id ∷ [];
        went = none;
      } in
      if shows_form left then updated_effect (left.slot update).is_success p else p

  -- The dispatch of `onSubmit`, of the fields with the dates and the totals that it gives them.
  unfoldable pub submit_update : F → Page A F → Page A F
  submit_update fields p = record p {
    store = run erp_reducer p.store (started update_op);
    sent = p.sent ++ update_request p.id fields ∷ [];
  }

  -- `onBack`, and the button to cancel.
  abbrev pub on_back : Page A F → Page A F
  on_back p = record p { went = some list_page }

  -- An accepted read. A form that appears runs both effects, on the flag and the `current` of the
  -- render in which it appears; then it is rendered with the `current` of the layout effect.
  abbrev pub read_accepted : (A → A) → Reply A → Page A F → Page A F
  read_accepted form_of r p =
      let s = run erp_reducer p.store (arrived read_op (some r)) in
      let q = record p { store = layout_effect r.result s } in
      let appeared =
        if shows_form p.store
        then q
        else fill_effect form_of (s.slot update).current
            (updated_effect (s.slot update).is_success q) in
      fill_effect form_of (appeared.store.slot update).current appeared

  -- A refused read changes no result, and takes the form away.
  abbrev pub read_refused : Reply A → Page A F → Page A F
  read_refused r p = record p { store = run erp_reducer p.store (arrived read_op (some r)) }

  abbrev pub update_arrived : Option (Reply A) → Page A F → Page A F
  update_arrived r p =
      let s = run erp_reducer p.store (arrived update_op r) in
      updated_effect (shows_form s && succeeds update p.store s) (record p { store = s })

  module _ (form_of : A → A) where
    unfoldable pub step : Event A F → Page A F → Page A F
    unfolding submit_update updated_effect fill_effect layout_effect erp_reducer reduce dispatches
        read_item update_item
    step (form_submitted fields) p = submit_update fields p
    step close_clicked p = on_back p
    step (read_answered none) p = p
    step (read_answered (some r)) p =
        if r.success then read_accepted form_of r p else read_refused r p
    step (updated r) p = update_arrived r p
