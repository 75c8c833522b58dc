-- ===== src/EndToEnd.antt =====
-- A list of the client and the page of the server that it shows: redux/*/actions.js `list`, request.js
-- `list`, and paginatedList.js, put together over axios.
pub mod Login
use dev_ops_projet.Base.{
  ◌≡◌, refl, ap, ◌∙◌, ℕ, String, Bool, true, false, not, ◌&&◌, ltb, leb, ◌==◌, if◌then◌else◌,
  Option, none, some, inl, inr, List, length, Bool-cases,
}
use dev_ops_projet.Http.{Outcome, Response, catch_errors}
use dev_ops_projet.Mongo.{Mongoose, select}
use dev_ops_projet.Mongo.Laws.{IsMongoose}
use dev_ops_projet.Crud.Listing.{Query, Page, page_of, paginated_list}
use dev_ops_projet.Crud.Pages.{items_of}
use dev_ops_projet.Redux.{Payload, absent, docs, page, Slot, State, reduce}
use dev_ops_projet.Redux.{list as list_key}
use dev_ops_projet.Redux.Actions.{Reply, list_op, dispatches}
use dev_ops_projet.Redux.Requests.{run, interleaved_request-settles}
use dev_ops_projet.HttpClient.{
  HttpResponse, Exchange, answered, failed, Browser, include_token, reply_of,
}
use dev_ops_projet.HttpClient.Requests.{Sent, Request, list, sent_by, perform}

module _ {A : Type 0} where
  -- The server's answer as axios has it: the JSON text of the body read back.
  abbrev pub reply_of_page : Response (Page A) → Reply A
  reply_of_page r = elim r.result [
    | none ↦ record { success = r.success; result = absent; pagination = none }
    | some p ↦ record {
      success = r.success;
      result = docs p.items;
      pagination = some (record { page = p.pagination.page; count = p.pagination.count });
    }
  ]

  abbrev pub response_of : Response (Page A) → HttpResponse A
  response_of r = record {
    status = r.status;
    body =
        some (record { reply = reply_of_page r; jwt_expired = r.jwt_expired; error_name = none });
  }

  -- axios takes the statuses 200 to 299 for success; an outcome without an answer is an error
  -- without a response.
  abbrev pub axios_of : Outcome (Page A) → Exchange A
  axios_of o = elim (catch_errors o) [
    | none ↦ failed none
    | some r ↦
        if leb 200 r.status && ltb r.status 300
        then answered (response_of r)
        else failed (some (response_of r))
  ]

  module _ (db : Mongoose) (sort : List A → List A) (removed : A → Bool) (q : Query)
      (matches : A → Bool) (s : List A) where
    abbrev pub answer_of : Outcome (Page A)
    answer_of = paginated_list db sort removed q matches s

    abbrev pub count_of : ℕ
    count_of = db.count_documents (λ d. not (removed d) && matches d) s

    -- What the client reads of a page that the server finds, of no document or more.
    abbrev pub expected : Reply A
    expected = record {
      success = true;
      result = docs (items_of answer_of);
      pagination = some (record { page = page_of q; count = count_of });
    }

    paginated_list-answered :
        (page_of q == 0) ≡ false
        → (y : HttpResponse A) × (axios_of answer_of ≡ answered y) × (reply_of y ≡ some expected)
    unfolding paginated_list catch_errors
    paginated_list-answered nonzero = elim (Bool-cases (ltb 0 count_of)) [
      | inl t ↦ rw (paginated_list, nonzero, t) (_, refl, refl)
      | inr t ↦ rw (paginated_list, nonzero, t) (_, refl, refl)
    ]

perform-answered :
    {J T A : Type 0} (send : Sent J → Option T → Exchange A) (r : Request J) (b c : Browser T)
    (y : HttpResponse A)
    → include_token b ≡ some c
    → send (sent_by r) c.authorization ≡ answered y
    → (perform send r b).0 ≡ reply_of y
unfolding perform
perform-answered send r b c y started got = rw (perform, started, got) refl

-- If axios brings a list request of the client, its token read, to the list handler of a model and the
-- handler's answer back, then for any page but 0 the request's slot ends with the items of the
-- server's page, that page's number, and the number of all documents that match as the total, not
-- loading and successful, also where no document matches.
pub list-paginated_list :
    {A J T : Type 0} (send : Sent J → Option T → Exchange A) (entity : String)
    (options : List (String × String)) (b c : Browser T) (db : Mongoose) (sort : List A → List A)
    (removed : A → Bool) (q : Query) (matches : A → Bool) (s : List A)
    (g : Payload A → Slot A → Slot A) (invoice_of : A → Payload A) (size : Option ℕ) (w : State A)
    → IsMongoose db
    → include_token b ≡ some c
    → (page_of q == 0) ≡ false
    → send (sent_by (list entity options)) c.authorization
      ≡ axios_of (paginated_list db sort removed q matches s)
    → (run
          (reduce g)
          w
          (dispatches invoice_of (list_op size) (perform send (list entity options) b).0)).slot
        list_key
      ≡ record {
        result =
            page
              (docs (items_of (paginated_list db sort removed q matches s)))
              (page_of q)
              size
              (length (select (λ d. not (removed d) && matches d) s));
        current = absent;
        is_loading = false;
        is_success = true;
      }
list-paginated_list send entity options b c db sort removed q matches s g invoice_of size w m
      started nonzero got =
    let (y, back, read) = paginated_list-answered db sort removed q matches s nonzero in
    let reply = expected db sort removed q matches s in
    let given : (perform send (list entity options) b).0 ≡ some reply =
      perform-answered send (list entity options) b c y started (got ∙ back) ∙ read in
    let counted = m.count_documents_lem _ (λ d. not (removed d) && matches d) s in
    ap (λ x. (run (reduce g) w (dispatches invoice_of (list_op size) x)).slot list_key) given
    ∙ interleaved_request-settles g invoice_of (list_op size)
        (record { page = page_of q; count = count_of db sort removed q matches s }) reply
        (dispatches invoice_of (list_op size) (some reply)) w refl refl
    ∙ ap
        (λ n. record {
          result =
              page (docs (items_of (answer_of db sort removed q matches s))) (page_of q) size n;
          current = absent;
          is_loading = false;
          is_success = true;
        })
        counted
