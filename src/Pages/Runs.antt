-- ===== src/Pages/Runs.antt =====
-- Runs of a page from its start, what they keep, and what the page then sends.
use dev_ops_projet.Base.{
  ◌≡◌, refl, subst, Bool, true, false, String, Option, none, some, List, [], ◌∷◌, ◌++◌, ◌>>=◌,
}
use mathlib.Core.List.{append-nil}
use dev_ops_projet.Redux.{Payload, doc}
use dev_ops_projet.Redux.Actions.{Reply}
use dev_ops_projet.Pages.{
  Page, Event, Request, initial_page, update_submit, ok_clicked, created, updated, spread_of,
  delete_request, update_request, list_request,
}
use dev_ops_projet.Pages.Steps.{step, handler-update_submit, handler-handle_ok}
use dev_ops_projet.Pages.Orderly.{IsOrderly, Holds, IsServed, is_shown, unchanged}
use dev_ops_projet.Pages.Controls.{step-IsOrderly}

-- The object of the panel, whether its read box is open and the panel closed, what the two forms
-- hold, and what has been sent.
abbrev pub shown :
    {A F : Type 0}
    → Page A F
    → Option (Payload A × Bool × Bool × Option F × Option A × List (Request A F))
shown q = some (
  q.store.current_item, q.boxes.is_read_box_open, q.boxes.is_panel_close, q.forms.create_form,
  q.forms.update_form, q.sent,
)

module _ {A F : Type 0} (with_dates : A → A) (blank : A) (labels : A → String) where
  -- A run of events from a page, or from an error.
  abbrev pub after : List (Event A F) → Option (Page A F) → Option (Page A F)
  after [] o = o
  after (e ∷ later) none = none
  after (e ∷ later) (some p) = after later (step with_dates blank labels e p)

  -- Each event of the run is possible where it comes.
  abbrev pub IsPossible : List (Event A F) → Option (Page A F) → Type 0
  IsPossible [] o = Unit
  IsPossible (e ∷ later) none = Unit
  IsPossible (e ∷ later) (some p) =
      (is_shown e p ≡ true) × IsServed e × IsPossible later (step with_dates blank labels e p)

  after-Holds :
      (events : List (Event A F)) (o : Option (Page A F))
      → IsPossible events o
      → Holds with_dates blank labels o
      → Holds with_dates blank labels (after events o)
  after-Holds [] o i h = h
  after-Holds (e ∷ later) none i h = h
  after-Holds (e ∷ later) (some p) (s, v, i) h =
      after-Holds later (step with_dates blank labels e p) i
        (step-IsOrderly with_dates blank labels e p s v h)

  initial_page-IsOrderly : IsOrderly with_dates blank labels (initial_page {A = A} {F = F})
  initial_page-IsOrderly = record {
    create_idle = refl;
    update_idle = refl;
    editing = λ h. cc;
    asking = λ h. cc;
  }

  page_reached :
      (o : Option (Page A F))
      → Holds with_dates blank labels o
      → (p : Page A F) × (o ≡ some p) × IsOrderly with_dates blank labels p
  page_reached none h = cc
  page_reached (some p) h = (p, refl, h)

  -- The state that a run of possible events has come to.
  module _ (events : List (Event A F)) (i : IsPossible events (some initial_page)) where
    -- In a run of events from a page's start, each on a control that works then or an answer, in
    -- which accepted creations and updates are answered with a document, no handler of a control and
    -- no effect throws, and the page is orderly: no save is pending, an open edit box has the form of
    -- the object that the panel shows, or of the empty object if it shows none, and an open dialog
    -- has the labels of the object it is about. An answer on which its action throws changes nothing.
    pub after-IsOrderly :
        (p : Page A F) × (after events (some initial_page) ≡ some p)
        × IsOrderly with_dates blank labels p
    after-IsOrderly =
        page_reached _ (after-Holds events (some initial_page) i initial_page-IsOrderly)

    reached-IsOrderly :
        (p : Page A F)
        → after events (some initial_page) ≡ some p
        → IsOrderly with_dates blank labels p
    reached-IsOrderly p e =
        subst (Holds with_dates blank labels) e
          (after-Holds events (some initial_page) i initial_page-IsOrderly)

    -- After any run of possible events, the deletion dialog, if it is open, shows the labels of one
    -- object, and its OK sends exactly one request, to delete that object.
    pub handle_ok-sent :
        (p : Page A F)
        → after events (some initial_page) ≡ some p
        → p.boxes.is_modal_open ≡ true
        → (a : A) × (p.forms.display_item ≡ labels a)
          × ((step with_dates blank labels ok_clicked p >>= λ q. some q.sent)
              ≡ some (p.sent ++ delete_request a ∷ []))
    unfolding step
    handle_ok-sent p e m =
        let g = reached-IsOrderly p e in
        let (a, c, t, _) = g.asking m in
        (
          a,
          t,
          rw (step, handler-handle_ok with_dates blank labels p a c)
              (simp (c, unchanged, append-nil, g.create_idle, g.update_idle)),
        )

    -- After any run of possible events, the edit box, if it is open, has a form of the object that
    -- the panel shows, or of the empty object if it shows none, and submitting it sends exactly one
    -- request, to update that object by the fields.
    pub update_submit-sent :
        (p : Page A F) (fields : F)
        → after events (some initial_page) ≡ some p
        → p.boxes.is_edit_box_open ≡ true
        → (p.forms.update_form ≡ some (with_dates (spread_of blank p.store.current_item)))
          × ((step with_dates blank labels (update_submit fields) p >>= λ q. some q.sent)
              ≡ some (p.sent ++ update_request (spread_of blank p.store.current_item) fields ∷ []))
    unfolding step
    update_submit-sent p fields e m =
        let g = reached-IsOrderly p e in
        let (c, f) = g.editing m in
        (
          f,
          rw (step, handler-update_submit with_dates blank labels p fields _ c)
              (simp (c, unchanged, append-nil, g.create_idle, g.update_idle)),
        )

    created-shown :
        (p : Page A F) (r : Reply A) (a : A)
        → after events (some initial_page) ≡ some p
        → r.success ≡ true
        → r.result ≡ doc a
        → (step with_dates blank labels (created (some r)) p >>= shown)
          ≡ some (doc a, true, false, none, p.forms.update_form, p.sent ++ list_request 1 10 ∷ [])
    unfolding step
    created-shown p r a e l d =
        let g = reached-IsOrderly p e in
        simp (l, d, unchanged, append-nil, g.create_idle, g.update_idle)

    updated-shown :
        (p : Page A F) (r : Reply A) (a : A)
        → after events (some initial_page) ≡ some p
        → r.success ≡ true
        → r.result ≡ doc a
        → (step with_dates blank labels (updated (some r)) p >>= shown)
          ≡ some (doc a, true, false, p.forms.create_form, none, p.sent ++ list_request 1 10 ∷ [])
    unfolding step
    updated-shown p r a e l d =
        let g = reached-IsOrderly p e in
        simp (l, d, unchanged, append-nil, g.create_idle, g.update_idle)

    -- After any run of possible events, an accepted creation or update that arrives shows its
    -- document in the open panel with the read box open, empties its own form, leaves the other,
    -- and sends one request, for the first page of the list.
    pub saved-shown :
        (p : Page A F) (r : Reply A) (a : A)
        → after events (some initial_page) ≡ some p
        → r.success ≡ true
        → r.result ≡ doc a
        → ((step with_dates blank labels (created (some r)) p >>= shown)
            ≡ some
                (doc a, true, false, none, p.forms.update_form, p.sent ++ list_request 1 10 ∷ []))
          × ((step with_dates blank labels (updated (some r)) p >>= shown)
              ≡ some
                  (doc a, true, false, p.forms.create_form, none, p.sent ++ list_request 1 10 ∷ []))
    saved-shown p r a e l d = (created-shown p r a e l d, updated-shown p r a e l d)
