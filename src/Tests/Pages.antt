-- ===== src/Tests/Pages.antt =====
-- A page of clients: its events, and the theorems on its runs.
use dev_ops_projet.Base.{
  ℕ, ◌≡◌, refl, true, false, String, Option, none, some, List, [], ◌∷◌, ◌++◌, ◌>>=◌,
}
use dev_ops_projet.Redux.{doc, docs}
use dev_ops_projet.Redux.Actions.{Reply}
use dev_ops_projet.Pages.{
  Page, Event, initial_page, table_changed, listed, edit_clicked, delete_clicked, update_submit,
  ok_clicked, created, updated, update_request, spread_of, delete_request, list_request,
}
use dev_ops_projet.Pages.Steps.{step}
use dev_ops_projet.Pages.Orderly.{IsOrderly}
use dev_ops_projet.Pages.Runs.{
  after, IsPossible, shown, after-IsOrderly, handle_ok-sent, update_submit-sent, saved-shown,
}

record Contact : Type 0 where
  name : String
  date : ℕ

abbrev blank : Contact
blank = record { name = ""; date = 0 }

abbrev ada : Contact
ada = record { name = "Ada"; date = 3 }

abbrev with_dates : Contact → Contact
with_dates c = c

abbrev labels : Contact → String
labels c = c.name

abbrev clients : Reply Contact
clients = record {
  success = true;
  result = docs (ada ∷ []);
  pagination = some (record { page = 1; count = 1 });
}

abbrev saved_ada : Reply Contact
saved_ada = record { success = true; result = doc ada; pagination = none }

-- The table is loaded, and the dialog or the form of its client is opened.
abbrev asking : List (Event Contact String)
asking = table_changed none none ∷ listed (some 10) (some clients) ∷ delete_clicked ada ∷ []

abbrev editing : List (Event Contact String)
editing = table_changed none none ∷ listed (some 10) (some clients) ∷ edit_clicked ada ∷ []

abbrev reached : List (Event Contact String) → Option (Page Contact String)
reached events = after with_dates blank labels events (some initial_page)

asking-IsPossible : IsPossible with_dates blank labels asking (some initial_page)
unfolding step
asking-IsPossible = (refl, tt, (refl, tt, (refl, tt, tt)))

editing-IsPossible : IsPossible with_dates blank labels editing (some initial_page)
unfolding step
editing-IsPossible = (refl, tt, (refl, tt, (refl, tt, tt)))

-- The page that a run leads to.
abbrev reached_page : Option (Page Contact String) → Page Contact String
reached_page none = initial_page
reached_page (some p) = p

abbrev asking_page : Page Contact String
asking_page = reached_page (reached asking)

asking_page-reached : reached asking ≡ some asking_page
unfolding step
asking_page-reached = refl

asking_page-open : asking_page.boxes.is_modal_open ≡ true
unfolding step
asking_page-open = refl

abbrev editing_page : Page Contact String
editing_page = reached_page (reached editing)

editing_page-reached : reached editing ≡ some editing_page
unfolding step
editing_page-reached = refl

editing_page-open : editing_page.boxes.is_edit_box_open ≡ true
unfolding step
editing_page-open = refl

after-IsOrderly_example :
    (p : Page Contact String) × (reached asking ≡ some p) × IsOrderly with_dates blank labels p
after-IsOrderly_example = after-IsOrderly with_dates blank labels asking asking-IsPossible

handle_ok_example :
    (a : Contact) × (asking_page.forms.display_item ≡ labels a)
    × ((step with_dates blank labels ok_clicked asking_page >>= λ q. some q.sent)
        ≡ some (asking_page.sent ++ delete_request a ∷ []))
handle_ok_example =
    handle_ok-sent with_dates blank labels asking asking-IsPossible asking_page asking_page-reached
      asking_page-open

update_submit_example :
    (editing_page.forms.update_form
      ≡ some (with_dates (spread_of blank editing_page.store.current_item)))
    × ((step with_dates blank labels (update_submit "Ada King") editing_page >>= λ q. some q.sent)
        ≡ some (
            editing_page.sent
            ++ update_request (spread_of blank editing_page.store.current_item) "Ada King" ∷ []))
update_submit_example =
    update_submit-sent with_dates blank labels editing editing-IsPossible editing_page "Ada King"
      editing_page-reached editing_page-open

saved_example :
    ((step with_dates blank labels (created (some saved_ada)) editing_page >>= shown)
      ≡ some (
        doc ada,
        true,
        false,
        none,
        editing_page.forms.update_form,
        editing_page.sent ++ list_request 1 10 ∷ [],
      ))
    × ((step with_dates blank labels (updated (some saved_ada)) editing_page >>= shown)
        ≡ some (
          doc ada,
          true,
          false,
          editing_page.forms.create_form,
          none,
          editing_page.sent ++ list_request 1 10 ∷ [],
        ))
saved_example =
    saved-shown with_dates blank labels editing editing-IsPossible editing_page saved_ada ada
      editing_page-reached refl refl
