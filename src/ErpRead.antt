-- ===== src/ErpRead.antt =====
-- The page of an invoice or a quote: ReadInvoiceModule/index.jsx of
-- frontend/src/modules/InvoiceModule, which ReadQuoteModule repeats, with ReadItem.jsx of
-- ErpPanelModule and useMail.jsx of frontend/src/hooks. Its store is that of redux/erp, as earlier
-- pages have left it. A step is one event: its handler, then the effects of the renders that follow.
pub mod Shown
pub mod Runs
use dev_ops_projet.Base.{
  ℕ, Bool, true, false, not, ◌&&◌, if◌then◌else◌, Option, none, some, List, [], ◌∷◌, ◌++◌, ◌>>=◌,
}
use dev_ops_projet.Redux.{update, read, Payload, doc, State, current_action, erp_reducer, reduce}
use dev_ops_projet.Redux.Actions.{Reply, read_op, mail_op, dispatches, read_item, mail_item}
use dev_ops_projet.Redux.Requests.{run}
use dev_ops_projet.Pages.{started, arrived}

-- A request for the document of an id, to mail a document, or to make a quote an invoice.
pub data Request (A : Type 0) : Type 0 where
  read_request : ℕ → Request A
  mail_request convert_request : A → Request A

-- Where the page goes: to the list, or to the form of its document.
pub data Way (A : Type 0) : Type 0 where
  to_list : Way A
  to_update : A → Way A

-- `id` is that of the address; `windows` are the documents whose files were opened.
pub record Page (A I C : Type 0) : Type 0 where
  pub store : State A
  pub id : ℕ
  pub items_list : List I
  pub current_erp : A
  pub client : Option C
  pub sent : List (Request A)
  pub windows : List A
  pub went : Option (Way A)

pub data Event (A : Type 0) : Type 0 where
  close_clicked download_clicked mail_clicked convert_clicked edit_clicked : Event A
  read_answered mailed : Option (Reply A) → Event A

-- ReadItem stands on the page: `isSuccess` of the read, and not `isLoading`.
abbrev pub shows_item : {A : Type 0} → State A → Bool
shows_item s = not (s.slot read).is_loading && (s.slot read).is_success

-- What the code reads of a document: its items, invoice and client, and the spread
-- `{ ...invoice.items, ...others, ...invoice }`. `blank` is `resetErp`.
pub record Fields (A I C : Type 0) : Type 0 where
  pub items : A → Option (List I)
  pub invoice : A → Option A
  pub client : A → Option C
  pub spread : A → A → A
  pub blank : A

-- `setClient` of a document's client, if it has one.
abbrev pub set_client : {C : Type 0} → Option C → Option C → Option C
set_client none client = client
set_client (some c) client = some c

module _ {A I C : Type 0} (of : Fields A I C) where
  -- `selectedItem ?? resetErp`
  abbrev pub selected_item : Payload A → A
  selected_item (doc a) = a
  selected_item _ = of.blank

  -- The cleanup of the effect on `[currentResult]`.
  abbrev pub clean_up : Page A I C → Page A I C
  clean_up p = record p { items_list = []; current_erp = of.blank }

  -- The effect on `[currentErp]`.
  abbrev pub client_effect : Page A I C → Page A I C
  client_effect p = record p { client = set_client (of.client p.current_erp) p.client }

  -- The effect on `[currentResult]`. `none` is a TypeError: undefined has no `items`.
  unfoldable pub result_effect : Payload A → Page A I C → Option (Page A I C)
  result_effect (doc a) p = elim (of.items a) [
    | some items ↦ some (record p { items_list = items; current_erp = a })
    | none ↦ elim (of.invoice a) [
      | none ↦ none
      | some v ↦ elim (of.items v) [
        | some items ↦ some (record p { items_list = items; current_erp = of.spread a v })
        | none ↦ some p
      ]
    ]
  ]
  result_effect _ p = some p

  -- ReadItem as it is first rendered, of the read's result, with its client.
  abbrev pub mounted : Payload A → Page A I C → Page A I C
  mounted selected p =
      client_effect
        (record p { items_list = []; current_erp = selected_item selected; client = none })

  -- The title of a rendered item. `none` is a TypeError: null has no `name`.
  abbrev pub render : Page A I C → Option (Page A I C)
  render p = elim (of.client p.current_erp) [ none ↦ none | some c ↦ some p ]

  -- The first render, on the store that was left, requests the document; an item that an earlier
  -- read shows runs its effects before it is taken away.
  unfoldable pub open_page : State A → ℕ → Option (Page A I C)
  unfolding result_effect erp_reducer reduce dispatches read_item
  open_page left id =
      let p : Page A I C = record {
        store = run erp_reducer left (started read_op);
        id = id;
        items_list = [];
        current_erp = of.blank;
        client = none;
        sent = read_request id ∷ [];
        windows = [];
        went = none;
      } in
      if shows_item left
      then render (mounted (left.slot read).result p)
        >>= result_effect left.current_item
        >>= render
        >>= (λ _. some p)
      else some p

  -- The buttons of the header; the list is where the button and the arrow to close go.
  abbrev on_back : Page A I C → Page A I C
  on_back p = record p { went = some to_list }

  abbrev open_pdf : Page A I C → Page A I C
  open_pdf p = record p { windows = p.windows ++ p.current_erp ∷ [] }

  -- `send` of useMail.
  abbrev send : Page A I C → Page A I C
  send p = record p {
    store = run erp_reducer p.store (started mail_op);
    sent = p.sent ++ mail_request p.current_erp ∷ [];
  }

  abbrev convert : Page A I C → Page A I C
  convert p = record p { sent = p.sent ++ convert_request p.current_erp ∷ [] }

  abbrev edit_document : Page A I C → Page A I C
  edit_document p = record p {
    store = run erp_reducer p.store (current_action update (doc p.current_erp) ∷ []);
    went = some (to_update p.current_erp);
  }

  -- An accepted read. An item that appears is of the read's result, and its effects see the
  -- current item; one that stands is cleaned up first.
  abbrev read_accepted : Reply A → Page A I C → Option (Page A I C)
  read_accepted r p = do
    let s = run erp_reducer p.store (arrived read_op (some r))
    m ← if shows_item p.store then some (clean_up p) else render (mounted (s.slot read).result p)
    q ← result_effect s.current_item (record m { store = s })
    render (client_effect q)

  -- A refused read changes no result, and takes the item away.
  abbrev read_refused : Reply A → Page A I C → Page A I C
  read_refused r p = record p { store = run erp_reducer p.store (arrived read_op (some r)) }

  unfoldable pub step : Event A → Page A I C → Option (Page A I C)
  unfolding result_effect erp_reducer reduce dispatches read_item mail_item
  step close_clicked p = some (on_back p)
  step download_clicked p = some (open_pdf p)
  step mail_clicked p = some (send p)
  step convert_clicked p = some (convert p)
  step edit_clicked p = some (edit_document p)
  step (mailed r) p = some (record p { store = run erp_reducer p.store (arrived mail_op r) })
  step (read_answered none) p = some p
  step (read_answered (some r)) p = if r.success then read_accepted r p else some (read_refused r p)
