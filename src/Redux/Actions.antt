-- ===== src/Redux/Actions.antt =====
-- The operations of frontend/src/redux/crud, erp and adavancedCrud, actions.js, as the actions that
-- they dispatch in order. An operation that throws dispatches no more. The answer is what
-- `request` gives: the server's, or the error handler's, which may be undefined, here `none`.
use dev_ops_projet.Base.{ℕ, Bool, if◌then◌else◌, Option, none, some, List, [], ◌∷◌}
use dev_ops_projet.Redux.{
  Key, list, create, update, delete, read, search, record_payment, create_invoice, summary, mail,
  Payload, absent, doc, page, Action, current_item, request_loading, request_failed,
  request_success, reset_action,
}

pub record Pagination : Type 0 where
  pub page : ℕ
  pub count : ℕ

pub record Reply (A : Type 0) : Type 0 where
  pub success : Bool
  pub result : Payload A
  pub pagination : Option Pagination

-- One request of the client, by the action that makes it.
pub data Operation : Type 0 where
  list_op : Option ℕ → Operation
  create_op read_op update_op delete_op search_op summary_op mail_op : Operation
  record_payment_op create_invoice_op : Operation

abbrev pub key_of : Operation → Key
key_of (list_op size) = list
key_of create_op = create
key_of read_op = read
key_of update_op = update
key_of delete_op = delete
key_of search_op = search
key_of summary_op = summary
key_of mail_op = mail
key_of record_payment_op = record_payment
key_of create_invoice_op = create_invoice

module _ {A : Type 0} where
  -- After the answer: the actions of the successful branch, or the failure of the key.
  abbrev answered : Key → (Reply A → List (Action A)) → Option (Reply A) → List (Action A)
  answered k succeed none = []
  answered k succeed (some r) = if r.success then succeed r else request_failed k ∷ []

  abbrev succeeded : Key → Reply A → List (Action A)
  succeeded k r = request_success k r.result ∷ []

  -- Most operations: loading, then the answer.
  abbrev request : Key → (Reply A → List (Action A)) → Option (Reply A) → List (Action A)
  request k succeed answer = request_loading k ∷ answered k succeed answer

  -- `page_size` is `options?.items` in crud, and `options?.items || 10` in the other two; an answer
  -- without `pagination` throws.
  unfoldable pub list_items : Option ℕ → Option (Reply A) → List (Action A)
  list_items page_size = request list (λ r. elim r.pagination [
    | none ↦ []
    | some p ↦ request_success list (page r.result p.page page_size p.count) ∷ []
  ])

  unfoldable pub create_item : Option (Reply A) → List (Action A)
  create_item = request create (λ r. request_success create r.result ∷ current_item r.result ∷ [])

  unfoldable pub read_item : Option (Reply A) → List (Action A)
  read_item = request read (λ r. current_item r.result ∷ request_success read r.result ∷ [])

  unfoldable pub update_item : Option (Reply A) → List (Action A)
  update_item = request update (λ r. request_success update r.result ∷ current_item r.result ∷ [])

  unfoldable pub delete_item : Option (Reply A) → List (Action A)
  delete_item answer = reset_action delete ∷ request delete (succeeded delete) answer

  unfoldable pub search_items : Option (Reply A) → List (Action A)
  search_items = request search (succeeded search)

  unfoldable pub summary_items : Option (Reply A) → List (Action A)
  summary_items = request summary (succeeded summary)

  unfoldable pub mail_item : Option (Reply A) → List (Action A)
  mail_item = request mail (succeeded mail)

  -- `data.result.invoice` of a document is a parameter; null has no `invoice`, which throws.
  abbrev pub item_of_invoice : (A → Payload A) → Payload A → List (Action A)
  item_of_invoice invoice_of absent = []
  item_of_invoice invoice_of (doc a) = current_item (invoice_of a) ∷ []
  item_of_invoice invoice_of _ = current_item absent ∷ []

  unfoldable pub record_payment_item : (A → Payload A) → Option (Reply A) → List (Action A)
  record_payment_item invoice_of =
      request record_payment
        (λ r. request_success record_payment r.result ∷ item_of_invoice invoice_of r.result)

  unfoldable pub create_invoice_item : (A → Payload A) → Option (Reply A) → List (Action A)
  create_invoice_item invoice_of =
      request create_invoice
        (λ r. request_success create_invoice r.result ∷ item_of_invoice invoice_of r.result)

  unfoldable pub dispatches : (A → Payload A) → Operation → Option (Reply A) → List (Action A)
  dispatches invoice_of (list_op size) = list_items size
  dispatches invoice_of create_op = create_item
  dispatches invoice_of read_op = read_item
  dispatches invoice_of update_op = update_item
  dispatches invoice_of delete_op = delete_item
  dispatches invoice_of search_op = search_items
  dispatches invoice_of summary_op = summary_items
  dispatches invoice_of mail_op = mail_item
  dispatches invoice_of record_payment_op = record_payment_item invoice_of
  dispatches invoice_of create_invoice_op = create_invoice_item invoice_of
