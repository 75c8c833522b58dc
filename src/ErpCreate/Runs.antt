-- ===== src/ErpCreate/Runs.antt =====
-- Runs of the page with the form of a new invoice or quote, and what they send.
use dev_ops_projet.Base.{
  ◌≡◌, refl, ◌∙◌, ap, sym, subst, Bool, true, false, Option, none, some, inl, inr, List, [], ◌∷◌,
  ◌++◌, ◌>>=◌, Bool-cases,
}
use mathlib.Core.List.{append_assoc, append-nil}
use dev_ops_projet.Redux.{create, doc, State}
use dev_ops_projet.Redux.Actions.{Reply}
use dev_ops_projet.ErpCreate.{
  Page, Event, Leave, Request, for_document, form_submitted, close_clicked, created, create_request,
  settings_request, open_form, step,
}

abbrev pub is_here : {A : Type 0} → Option (Leave A) → Bool
is_here none = true
is_here (some w) = false

module _ {A F : Type 0} where
  abbrev pub after : List (Event A F) → Option (Page A F) → Option (Page A F)
  after [] o = o
  after (e ∷ later) none = none
  after (e ∷ later) (some p) = after later (step e p)

  -- An accepted creation is answered with a document.
  abbrev pub IsServed : Event A F → Type 0
  IsServed (created (some r)) = r.success ≡ true → (a : A) × (r.result ≡ doc a)
  IsServed e = Unit

  -- Events come while the page is there.
  abbrev pub IsPossible : List (Event A F) → Option (Page A F) → Type 0
  IsPossible [] o = Unit
  IsPossible (e ∷ later) none = Unit
  IsPossible (e ∷ later) (some p) =
      (is_here p.went ≡ true) × IsServed e × IsPossible later (step e p)

  -- The requests of the submitted forms, in their order.
  abbrev pub request_of : Event A F → List (Request F)
  request_of (form_submitted fields) = create_request fields ∷ []
  request_of e = []

  abbrev pub submitted : List (Event A F) → List (Request F)
  submitted [] = []
  submitted (e ∷ later) = request_of e ++ submitted later

  -- No creation has succeeded that the page has not seen, and what was sent.
  abbrev Holds : List (Request F) → Option (Page A F) → Type 0
  Holds xs none = Path Bool true false
  Holds xs (some p) = ((p.store.slot create).is_success ≡ false) × (p.sent ≡ xs)

  created-Holds :
      (xs : List (Request F)) (r : Reply A) (p : Page A F)
      → IsServed (created (some r))
      → Holds xs (some p)
      → Holds xs (step (created (some r)) p)
  unfolding step
  created-Holds xs r p v (i, x) = elim (Bool-cases r.success) [
    | inl l ↦ let (a, d) = v l in simp (l, d, i) (refl, x)
    | inr l ↦ simp (l, i) (refl, x)
  ]

  step-Holds :
      (xs : List (Request F)) (e : Event A F) (p : Page A F)
      → IsServed e
      → Holds xs (some p)
      → Holds (xs ++ request_of e) (step e p)
  unfolding step
  step-Holds xs (form_submitted fields) p v (i, x) =
      (i, ap (λ ys. ys ++ create_request fields ∷ []) x)
  step-Holds xs close_clicked p v (i, x) = (i, x ∙ sym (append-nil xs))
  step-Holds xs (created none) p v (i, x) = simp (i, append-nil) (refl, x)
  step-Holds xs (created (some r)) p v h =
      subst (λ ys. Holds ys (step (created (some r)) p)) (sym (append-nil xs))
        (created-Holds xs r p v h)

  after-Holds :
      (events : List (Event A F)) (xs : List (Request F)) (o : Option (Page A F))
      → IsPossible events o
      → Holds xs o
      → Holds (xs ++ submitted events) (after events o)
  after-Holds [] xs o i h = subst (λ ys. Holds ys o) (sym (append-nil xs)) h
  after-Holds (e ∷ later) xs none i h = h
  after-Holds (e ∷ later) xs (some p) (t, v, i) h =
      subst (λ ys. Holds ys (after later (step e p)))
        (append_assoc xs (request_of e) (submitted later))
        (after-Holds later (xs ++ request_of e) (step e p) i (step-Holds xs e p v h))

  opened-Holds :
      (left : State A) (o : Option (Page A F))
      → o ≡ open_form left
      → (left.slot create).is_success ≡ false
      → Holds (settings_request ∷ []) o
  unfolding open_form
  opened-Holds left o q e = subst (Holds (settings_request ∷ [])) (sym q) (simp (e) (refl, refl))

  created-went :
      (p : Page A F) (r : Reply A) (a : A)
      → (p.store.slot create).is_success ≡ false
      → r.success ≡ true
      → r.result ≡ doc a
      → (step (created (some r)) p >>= (λ q. some q.went)) ≡ some (some (for_document a))
  unfolding step
  created-went p r a i l d = simp (i, l, d) refl

  reached :
      (xs : List (Request F)) (o : Option (Page A F)) (r : Reply A) (a : A)
      → r.success ≡ true
      → r.result ≡ doc a
      → Holds xs o
      → (p : Page A F) × (o ≡ some p)
        × (p.sent ≡ xs)
        × ((step (created (some r)) p >>= (λ q. some q.went)) ≡ some (some (for_document a)))
  reached xs none r a l d h = cc
  reached xs (some p) r a l d (i, x) = (p, refl, x, created-went p r a i l d)

  -- After any run of events from the opening of a new document's form, on a store that holds no
  -- succeeded creation, where accepted creations are answered with a document: no error was thrown,
  -- the page has asked for the settings and then sent one creation for each submitted form, with its
  -- fields and in their order, and the next accepted creation goes to the page of its document.
  pub submitted-created :
      (left : State A) (events : List (Event A F)) (r : Reply A) (a : A)
      → (left.slot create).is_success ≡ false
      → IsPossible events (open_form left)
      → r.success ≡ true
      → r.result ≡ doc a
      → (p : Page A F) × (after events (open_form left) ≡ some p)
        × (p.sent ≡ settings_request ∷ submitted events)
        × ((step (created (some r)) p >>= (λ q. some q.went)) ≡ some (some (for_document a)))
  submitted-created left events r a e i l d =
      reached _ _ r a l d
        (after-Holds events (settings_request ∷ []) (open_form left) i (opened-Holds left _ refl e))
