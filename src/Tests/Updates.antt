-- ===== src/Tests/Updates.antt =====
-- The form of an old quote: an edit that is saved, and one that a late answer throws out.
use dev_ops_projet.Base.{ℕ, ◌≡◌, refl, true, String, none, some, List, [], ◌∷◌, ◌++◌}
use dev_ops_projet.Redux.{doc, initial_state}
use dev_ops_projet.Redux.Actions.{Reply}
use dev_ops_projet.ErpUpdate.{
  Page, Event, read_answered, form_submitted, updated, update_request, read_request, read_page,
  open_page, step,
}
use dev_ops_projet.ErpUpdate.Runs.{after, IsPossible, submitted-saved}
use dev_ops_projet.ErpUpdate.Stale.{chosen_late, late_update-lost}

record Quoted : Type 0 where
  id : ℕ
  note : String
  tax_rate : ℕ

abbrev old_quote : Quoted
old_quote = record { id = 7; note = "old"; tax_rate = 20 }

abbrev id_of : Quoted → ℕ
id_of q = q.id

-- The dates of the form are as they are.
abbrev form_of : Quoted → Quoted
form_of q = q

abbrev answer : Reply Quoted
answer = record { success = true; result = doc old_quote; pagination = none }

abbrev opened : Page Quoted String
opened = open_page initial_state 7

abbrev arriving : List (Event Quoted String)
arriving = read_answered (some answer) ∷ []

abbrev arrived_page : Page Quoted String
arrived_page = after form_of id_of arriving opened

arriving-IsPossible : IsPossible form_of id_of 7 arriving opened
unfolding open_page step
arriving-IsPossible = (refl, (λ h. (old_quote, refl, refl)), tt)

submitted-saved_example :
    (a : Quoted) × (arrived_page.form ≡ some (form_of a))
    × (id_of a ≡ 7)
    × ((step form_of (form_submitted "new") arrived_page).sent
        ≡ arrived_page.sent ++ update_request 7 "new" ∷ [])
    × ((step form_of
          (updated (some answer))
          (step form_of (form_submitted "new") arrived_page)).went
        ≡ some (read_page 7))
unfolding open_page step
submitted-saved_example =
    submitted-saved form_of id_of initial_state 7 arriving arrived_page "new" answer refl
      arriving-IsPossible refl refl refl refl

late_update-lost_example :
    let p =
      step {F = String} form_of
        (read_answered (some answer))
        (open_page (chosen_late initial_state answer old_quote) 7) in
    (p.went ≡ some (read_page 7)) × (p.sent ≡ read_request 7 ∷ [])
late_update-lost_example =
    late_update-lost String form_of initial_state answer answer old_quote old_quote 7 refl refl refl
      refl
