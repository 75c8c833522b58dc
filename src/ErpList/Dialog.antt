-- ===== src/ErpList/Dialog.antt =====
-- The dialog of the list is about the object whose labels it shows.
use dev_ops_projet.Base.{
  and_left, ℕ, ◌≡◌, refl, subst, Bool, true, false, ◌&&◌, String, Option, none, some, List, [], ◌∷◌,
  ◌++◌, ◌>>=◌, inl, inr, Bool-cases, Option-cases,
}
use mathlib.Core.List.{append-nil}
use dev_ops_projet.Redux.{delete, doc}
use dev_ops_projet.Redux.Actions.{Reply}
use dev_ops_projet.Pages.{is_doc}
use dev_ops_projet.Pages.Orderly.{unchanged}
use dev_ops_projet.ErpList.{
  Page, Event, Request, Target, initial_page, delete_clicked, ok_clicked, modal_cancelled, listed,
  deleted, delete_request, step, handler-handle_ok,
}

abbrev pub is_here : {A : Type 0} → Option (Target A) → Bool
is_here none = true
is_here (some t) = false

-- A page that is left shows nothing, and a dialog that is closed no buttons.
abbrev pub is_shown : {A : Type 0} → Event A → Page A → Bool
is_shown ok_clicked p = p.panels.delete_modal && is_here p.went
is_shown modal_cancelled p = p.panels.delete_modal && is_here p.went
is_shown e p = is_here p.went

-- Whether the dialog is open, and what has been sent.
abbrev pub asked : {A : Type 0} → Page A → Option (Bool × List (Request A))
asked q = some (q.panels.delete_modal, q.sent)

module _ {A : Type 0} (labels : A → String) where
  -- An open dialog has an object, shows its labels, and no deletion has succeeded since it opened.
  abbrev pub IsAsking : Page A → Type 0
  IsAsking p =
      p.panels.delete_modal ≡ true
      → (a : A) × ((p.store.slot delete).current ≡ doc a)
        × (p.display_item ≡ labels a)
        × ((p.store.slot delete).is_success ≡ false)

  abbrev pub Holds : Option (Page A) → Type 0
  Holds none = Path Bool true false
  Holds (some q) = IsAsking q

  -- A run of events from a page, or from an error.
  abbrev pub after : List (Event A) → Option (Page A) → Option (Page A)
  after [] o = o
  after (e ∷ later) none = none
  after (e ∷ later) (some p) = after later (step labels e p)

  -- Each event of the run is possible where it comes.
  abbrev pub IsPossible : List (Event A) → Option (Page A) → Type 0
  IsPossible [] o = Unit
  IsPossible (e ∷ later) none = Unit
  IsPossible (e ∷ later) (some p) = (is_shown e p ≡ true) × IsPossible later (step labels e p)

  -- No dialog is open over a deletion that has succeeded.
  pub closed :
      (p : Page A)
      → IsAsking p
      → p.panels.delete_modal ≡ true
      → (p.store.slot delete).is_success ≡ true
      → Path Bool true false
  closed p g m was = let (a, _, _, n) = g m in cc

  handle_delete-IsAsking :
      (a : A) (p : Page A) → IsAsking p → Holds (step labels (delete_clicked a) p)
  unfolding step
  handle_delete-IsAsking a p g = elim (Bool-cases (p.store.slot delete).is_success) [
    | inl was ↦ simp (was, unchanged) (λ h. cc)
    | inr was ↦ simp (was, unchanged) (λ h. (a, refl, refl, refl))
  ]

  handle_ok-IsAsking :
      (p : Page A) → IsAsking p → p.panels.delete_modal ≡ true → Holds (step labels ok_clicked p)
  unfolding step
  handle_ok-IsAsking p g m =
      let (a, c, _, was) = g m in
      rw (step, handler-handle_ok p a c) (simp (c, was, unchanged) (λ h. cc))

  deleted-IsAsking :
      (r : Reply A) (p : Page A) → IsAsking p → Holds (step labels (deleted (some r)) p)
  unfolding step
  deleted-IsAsking r p g = elim (Bool-cases r.success) [
    | inl l ↦ elim (Bool-cases (p.store.slot delete).is_success) [
      | inl was ↦ elim (Bool-cases (is_doc (p.store.slot delete).current)) [
        | inl d ↦ simp (l, was, d, unchanged) (λ h. cc)
        | inr d ↦ simp (l, was, d, unchanged) (λ m. let x = closed p g m was in cc)
      ]
      | inr was ↦ elim (Bool-cases (is_doc (p.store.slot delete).current)) [
        | inl d ↦ simp (l, was, d, unchanged) (λ h. cc)
        | inr d ↦ simp (l, was, d, unchanged) (λ h. cc)
      ]
    ]
    | inr l ↦ elim (Bool-cases (p.store.slot delete).is_success) [
      | inl was ↦ simp (l, was, unchanged) (λ m. let x = closed p g m was in cc)
      | inr was ↦ simp (l, was, unchanged) (λ m. let (a, c, t, _) = g m in (a, c, t, refl))
    ]
  ]

  listed-IsAsking :
      (size : Option ℕ) (r : Reply A) (p : Page A)
      → IsAsking p
      → Holds (step labels (listed size (some r)) p)
  unfolding step
  listed-IsAsking size r p g = elim (Bool-cases r.success) [
    | inl l ↦ elim (Option-cases r.pagination) [
      | inl e ↦ simp (l, e, unchanged) g
      | inr (n, e) ↦ simp (l, e, unchanged) g
    ]
    | inr l ↦ simp (l, unchanged) g
  ]

  step-IsAsking :
      (e : Event A) (p : Page A) → is_shown e p ≡ true → IsAsking p → Holds (step labels e p)
  unfolding step
  step-IsAsking (delete_clicked a) p s g = handle_delete-IsAsking a p g
  step-IsAsking ok_clicked p s g = handle_ok-IsAsking p g (and_left _ _ s)
  step-IsAsking modal_cancelled p s g = elim (Bool-cases (p.store.slot delete).is_loading) [
    | inl l ↦ simp (l, unchanged) g
    | inr l ↦ simp (l, unchanged) (λ h. cc)
  ]
  step-IsAsking (listed size (some r)) p s g = listed-IsAsking size r p g
  step-IsAsking (deleted (some r)) p s g = deleted-IsAsking r p g
  step-IsAsking _ p s g = simp unchanged g

  after-Holds :
      (events : List (Event A)) (o : Option (Page A))
      → IsPossible events o
      → Holds o
      → Holds (after events o)
  after-Holds [] o i h = h
  after-Holds (e ∷ later) none i h = h
  after-Holds (e ∷ later) (some p) (s, i) h =
      after-Holds later (step labels e p) i (step-IsAsking e p s h)

  pub asking_page :
      (events : List (Event A)) (p : Page A)
      → IsPossible events (some initial_page)
      → after events (some initial_page) ≡ some p
      → IsAsking p
  asking_page events p i e = subst Holds e (after-Holds events (some initial_page) i (λ h. cc))

  -- After any run of events from the start of the list's page, each on a control that it then shows
  -- or an answer, an open deletion dialog shows the labels of one object, and its OK closes the
  -- dialog and sends exactly one request, to delete that object.
  pub handle_ok-asked :
      (events : List (Event A)) (p : Page A)
      → IsPossible events (some initial_page)
      → after events (some initial_page) ≡ some p
      → p.panels.delete_modal ≡ true
      → (a : A) × (p.display_item ≡ labels a)
        × ((step labels ok_clicked p >>= asked) ≡ some (false, p.sent ++ delete_request a ∷ []))
  unfolding step
  handle_ok-asked events p i e m =
      let (a, c, t, was) = asking_page events p i e m in
      (a, t, rw (step, handler-handle_ok p a c) (simp (c, was, append-nil)))
