-- ===== src/ErpCreate.antt =====
-- The page with the form of a new invoice or quote: CreateItem.jsx of
-- frontend/src/modules/ErpPanelModule, which the create modules show. Its store is that of
-- redux/erp, as earlier pages have left it. A step is one event: its handler, then the effects of the
-- renders that follow.
pub mod Runs
use dev_ops_projet.Base.{Bool, true, false, if◌then◌else◌, Option, none, some, List, [], ◌∷◌, ◌++◌}
use dev_ops_projet.Redux.{create, Payload, absent, doc, State, reset_action, erp_reducer, reduce}
use dev_ops_projet.Redux.Actions.{Reply, create_op, dispatches, create_item}
use dev_ops_projet.Redux.Requests.{run}
use dev_ops_projet.Pages.{started, arrived, succeeds}

-- A request for the settings, or to create a document.
pub data Request (F : Type 0) : Type 0 where
  settings_request : Request F
  create_request : F → Request F

-- Where the page goes: to the list, to the page of a document, or to that of `undefined`.
pub data Leave (A : Type 0) : Type 0 where
  for_list for_undefined : Leave A
  for_document : A → Leave A

pub record Page (A F : Type 0) : Type 0 where
  pub store : State A
  pub sent : List (Request F)
  pub went : Option (Leave A)

pub data Event (A F : Type 0) : Type 0 where
  form_submitted : F → Event A F
  close_clicked : Event A F
  created : Option (Reply A) → Event A F

-- `/read/${result._id}`. `none` is a TypeError: null has no `_id`.
abbrev pub target_of : {A : Type 0} → Payload A → Option (Leave A)
target_of absent = none
target_of (doc a) = some (for_document a)
target_of _ = some for_undefined

module _ {A F : Type 0} where
  -- The effect on `[isSuccess]`, with the created `result`.
  unfoldable pub created_effect : Bool → Payload A → Page A F → Option (Page A F)
  created_effect is_success result p =
      if is_success
      then elim (target_of result) [
        | none ↦ none
        | some w ↦
            some (record p {
              store = run erp_reducer p.store (reset_action create ∷ []);
              went = some w;
            })
      ]
      else some p

  -- The first render, on the store that was left, asks for the settings.
  unfoldable pub open_form : State A → Option (Page A F)
  unfolding created_effect erp_reducer reduce
  open_form left =
      created_effect (left.slot create).is_success (left.slot create).result
        (record { store = left; sent = settings_request ∷ []; went = none })

  -- The dispatch of `onSubmit`, of the fields with the totals that it gives them.
  abbrev submit_create : F → Page A F → Page A F
  submit_create fields p = record p {
    store = run erp_reducer p.store (started create_op);
    sent = p.sent ++ create_request fields ∷ [];
  }

  abbrev leave : Page A F → Page A F
  leave p = record p { went = some for_list }

  abbrev create_arrived : Option (Reply A) → Page A F → Option (Page A F)
  create_arrived r p =
      let s = run erp_reducer p.store (arrived create_op r) in
      created_effect (succeeds create p.store s) (s.slot create).result (record p { store = s })

  unfoldable pub step : Event A F → Page A F → Option (Page A F)
  unfolding created_effect erp_reducer reduce dispatches create_item
  step (form_submitted fields) p = some (submit_create fields p)
  step close_clicked p = some (leave p)
  step (created r) p = create_arrived r p
