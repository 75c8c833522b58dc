-- ===== src/Tests/Client.antt =====
-- The client's forms, panels and requests.
use dev_ops_projet.Base.{
  ℕ, pos, ◌≡◌, refl, String, true, false, not, ◌&&◌, Option, none, some, List, [], ◌∷◌, map, length,
}
use dev_ops_projet.Mongo.{in_memory, select}
use dev_ops_projet.Crud.{Doc}
use dev_ops_projet.Crud.Listing.{Query, paginated_list}
use dev_ops_projet.Crud.Pages.{items_of}
use dev_ops_projet.Calculate.{Decimal}
use dev_ops_projet.Billing.{bill, tax_of, grand_total}
use dev_ops_projet.Forms.{
  FormTotals, handel_values_change, update_values_change, tax_effect, handel_tax_change,
}
use dev_ops_projet.Forms.Totals.{row_of, handel_values_change-bill}
use dev_ops_projet.Contexts.Panels.{Call, modal_open, panel_open, read_panel, update_panel}
use dev_ops_projet.Redux.{Payload, absent, docs, doc, page, Slot, reduce}
use dev_ops_projet.Redux.{list as list_key, initial_state as no_requests}
use dev_ops_projet.Redux.Actions.{Reply, list_op, dispatches}
use dev_ops_projet.Redux.Requests.{run}
use dev_ops_projet.HttpClient.{HttpResponse, Exchange, Browser, stored, include_token}
use dev_ops_projet.HttpClient.Requests.{Sent, list, perform}
use dev_ops_projet.EndToEnd.{axios_of, list-paginated_list}
use dev_ops_projet.Tests.Models.{cents, cents-IsCurrency, cents-IsZeroed, in_memory-IsMongoose}
use dev_ops_projet.Tests.Ledger.{item}

abbrev ten_percent : Decimal
ten_percent = record { units = pos 10; scale = 0 }

abbrev no_totals : FormTotals
no_totals = record { sub_total = pos 0; offer_sub_total = pos 0 }

form_example :
    ((handel_values_change cents
        (some (map (λ i. some (row_of i)) (item ∷ [])))
        no_totals).sub_total
      ≡ (bill cents (item ∷ [])).sub_total)
    × (update_values_change cents (some (map (λ i. some (row_of i)) (item ∷ []))) (pos 0)
        ≡ (bill cents (item ∷ [])).sub_total)
    × (tax_effect cents (bill cents (item ∷ [])).sub_total (handel_tax_change cents ten_percent) ≡ (
      tax_of cents (bill cents (item ∷ [])).sub_total ten_percent,
      grand_total cents
          (bill cents (item ∷ [])).sub_total
          (tax_of cents (bill cents (item ∷ [])).sub_total ten_percent),
    ))
form_example =
    handel_values_change-bill cents (item ∷ []) ten_percent no_totals cents-IsCurrency
      cents-IsZeroed

abbrev calls : List Call
calls = panel_open read_panel ∷ modal_open ∷ panel_open update_panel ∷ []

abbrev browser : Browser String
browser = record {
  online = true;
  auth = stored "token";
  is_logout = false;
  href = none;
  authorization = none;
  notes = [];
}

abbrev ready : Browser String
ready = record browser { authorization = some "token" }

browser-ready : include_token browser ≡ some ready
unfolding include_token
browser-ready = refl

abbrev good : Reply ℕ
good = record { success = true; result = doc 4; pagination = none }

abbrev good_response : HttpResponse ℕ
good_response = record {
  status = 200;
  body = some (record { reply = good; jwt_expired = false; error_name = none });
}

abbrev serving : Exchange ℕ → Sent Unit → Option String → Exchange ℕ
serving x sent token = x

abbrev note : ℕ → Doc String
note n = record { id = n; removed = false; fields = "note" }

abbrev first_page : Query
first_page = record { page = none; items = some 2 }

abbrev server : Sent Unit → Option String → Exchange (Doc String)
server sent token = axios_of (
    paginated_list in_memory (λ xs. xs) (λ d. d.removed) first_page (λ _. true)
      (note 1 ∷ note 2 ∷ note 3 ∷ []))

abbrev keep_note : Payload (Doc String) → Slot (Doc String) → Slot (Doc String)
keep_note p v = v

list_example :
    (run (reduce keep_note) no_requests (
        dispatches
          (λ a. doc a)
          (list_op none)
          (perform server (list "note" (("items", "2") ∷ [])) browser).0)).slot
      list_key
    ≡ record {
      result =
          page
            (docs (
              items_of (
                paginated_list in_memory
                  (λ xs. xs)
                  (λ d. d.removed)
                  first_page
                  (λ _. true)
                  (note 1 ∷ note 2 ∷ note 3 ∷ []))))
            1
            none
            (length (select (λ d. not d.removed && true) (note 1 ∷ note 2 ∷ note 3 ∷ [])));
      current = absent;
      is_loading = false;
      is_success = true;
    }
list_example =
    list-paginated_list server "note" (("items", "2") ∷ []) browser ready in_memory (λ xs. xs)
      (λ d. d.removed) first_page (λ _. true) (note 1 ∷ note 2 ∷ note 3 ∷ []) keep_note (λ a. doc a)
      none no_requests in_memory-IsMongoose browser-ready refl refl
