-- ===== src/Tests/Lists.antt =====
-- The list of invoices: a deletion, and what follows it.
use dev_ops_projet.Base.{
  ◌≡◌, refl, true, false, String, Option, none, some, List, [], ◌∷◌, ◌++◌, ◌>>=◌,
}
use dev_ops_projet.Redux.{doc, docs}
use dev_ops_projet.Redux.Actions.{Reply}
use dev_ops_projet.ErpList.{
  Page, Event, initial_page, table_changed, listed, delete_clicked, ok_clicked, deleted,
  delete_request, step,
}
use dev_ops_projet.ErpList.Dialog.{after, IsPossible, asked, handle_ok-asked}
use dev_ops_projet.ErpList.Stuck.{deletions, after_deletion-closed}

record Listed : Type 0 where
  number : String

abbrev first_invoice : Listed
first_invoice = record { number = "1/2024" }

abbrev second_invoice : Listed
second_invoice = record { number = "2/2024" }

abbrev labels : Listed → String
labels i = i.number

abbrev invoices : Reply Listed
invoices = record {
  success = true;
  result = docs (first_invoice ∷ second_invoice ∷ []);
  pagination = some (record { page = 1; count = 2 });
}

abbrev accepted : Reply Listed
accepted = record { success = true; result = doc first_invoice; pagination = none }

abbrev asking : List (Event Listed)
asking =
    table_changed none none ∷ listed (some 10) (some invoices) ∷ delete_clicked first_invoice ∷ []

abbrev confirmed : List (Event Listed)
confirmed =
    table_changed none none
    ∷ listed (some 10) (some invoices)
    ∷ delete_clicked first_invoice
    ∷ ok_clicked
    ∷ []

abbrev reached : List (Event Listed) → Option (Page Listed)
reached events = after labels events (some initial_page)

abbrev reached_page : Option (Page Listed) → Page Listed
reached_page none = initial_page
reached_page (some p) = p

asking-IsPossible : IsPossible labels asking (some initial_page)
unfolding step
asking-IsPossible = (refl, (refl, (refl, tt)))

confirmed-IsPossible : IsPossible labels confirmed (some initial_page)
unfolding step
confirmed-IsPossible = (refl, (refl, (refl, (refl, tt))))

asking_page-reached : reached asking ≡ some (reached_page (reached asking))
unfolding step
asking_page-reached = refl

asking_page-open : (reached_page (reached asking)).panels.delete_modal ≡ true
unfolding step
asking_page-open = refl

confirmed_page-reached : reached confirmed ≡ some (reached_page (reached confirmed))
unfolding step
confirmed_page-reached = refl

delete_invoice_example :
    (a : Listed) × ((reached_page (reached asking)).display_item ≡ labels a)
    × ((step labels ok_clicked (reached_page (reached asking)) >>= asked)
        ≡ some (false, (reached_page (reached asking)).sent ++ delete_request a ∷ []))
delete_invoice_example =
    handle_ok-asked labels asking (reached_page (reached asking)) asking-IsPossible
      asking_page-reached asking_page-open

-- The dialog is opened for the second invoice.
abbrev again : List (Event Listed)
again = delete_clicked second_invoice ∷ []

again-IsPossible :
    IsPossible labels again
      (step labels (deleted (some accepted)) (reached_page (reached confirmed)))
unfolding step
again-IsPossible = (refl, tt)

second_dialog_example :
    (q : Page Listed) × (after labels again
        (step labels (deleted (some accepted)) (reached_page (reached confirmed)))
      ≡ some q)
    × (q.panels.delete_modal ≡ false)
    × (deletions q.sent ≡ deletions (reached_page (reached confirmed)).sent)
second_dialog_example =
    after_deletion-closed labels confirmed again (reached_page (reached confirmed)) accepted
      confirmed-IsPossible confirmed_page-reached refl again-IsPossible (refl, tt)
