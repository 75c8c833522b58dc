-- ===== src/Tests/News.antt =====
-- The form of a new invoice: one that is refused, and sent again.
use dev_ops_projet.Base.{◌≡◌, refl, true, false, String, none, some, List, [], ◌∷◌, ◌>>=◌}
use dev_ops_projet.Redux.{absent, doc, initial_state}
use dev_ops_projet.Redux.Actions.{Reply}
use dev_ops_projet.ErpCreate.{
  Page, Event, form_submitted, created, settings_request, for_document, open_form, step,
}
use dev_ops_projet.ErpCreate.Runs.{after, IsPossible, submitted, submitted-created}

abbrev refused : Reply String
refused = record { success = false; result = absent; pagination = none }

abbrev accepted : Reply String
accepted = record { success = true; result = doc "invoice 3"; pagination = none }

abbrev trying : List (Event String String)
trying = form_submitted "no client" ∷ created (some refused) ∷ form_submitted "with client" ∷ []

trying-IsPossible : IsPossible trying (open_form initial_state)
unfolding open_form step
trying-IsPossible = (refl, tt, (refl, (λ h. cc), (refl, tt, tt)))

submitted-created_example :
    (p : Page String String) × (after trying (open_form initial_state) ≡ some p)
    × (p.sent ≡ settings_request ∷ submitted trying)
    × ((step (created (some accepted)) p >>= (λ q. some q.went))
        ≡ some (some (for_document "invoice 3")))
submitted-created_example =
    submitted-created initial_state trying accepted "invoice 3" refl trying-IsPossible refl refl
