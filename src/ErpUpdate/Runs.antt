-- ===== src/ErpUpdate/Runs.antt =====
-- Runs of the page from its opening, and what a form then sends and comes to.
use dev_ops_projet.Base.{ℕ, ◌≡◌, refl, ◌∙◌, ap, subst, true, false, some, List, [], ◌∷◌, ◌++◌}
use dev_ops_projet.Redux.{update, State}
use dev_ops_projet.Redux.Actions.{Reply}
use dev_ops_projet.ErpUpdate.{
  Page, Event, form_submitted, updated, update_request, read_page, shows_form, open_page, step,
}
use dev_ops_projet.ErpUpdate.Filled.{
  is_here, is_shown, IsServed, IsFilled, opened-IsFilled, step-IsFilled,
}

module _ {A F : Type 0} (form_of : A → A) (id_of : A → ℕ) where
  abbrev pub after : List (Event A F) → Page A F → Page A F
  after [] p = p
  after (e ∷ later) p = after later (step form_of e p)

  -- Each event of the run is possible where it comes.
  abbrev pub IsPossible : ℕ → List (Event A F) → Page A F → Type 0
  IsPossible id [] p = Unit
  IsPossible id (e ∷ later) p =
      (is_shown e p ≡ true) × IsServed form_of id_of id e × IsPossible id later (step form_of e p)

  after-IsFilled :
      (id : ℕ) (events : List (Event A F)) (p : Page A F)
      → IsPossible id events p
      → IsFilled form_of id_of id p
      → IsFilled form_of id_of id (after events p)
  after-IsFilled id [] p i g = g
  after-IsFilled id (e ∷ later) p (s, v, i) g =
      after-IsFilled id later (step form_of e p) i (step-IsFilled form_of id_of id e p s v g)

  -- Submitting a form that is shown, and the accepted answer.
  submitted-sent :
      (p : Page A F) (fields : F)
      → (step form_of (form_submitted fields) p).sent ≡ p.sent ++ update_request p.id fields ∷ []
  unfolding step
  submitted-sent p fields = refl

  saved-went :
      (p : Page A F) (fields : F) (r : Reply A)
      → shows_form p.store ≡ true
      → (p.store.slot update).is_success ≡ false
      → r.success ≡ true
      → (step form_of (updated (some r)) (step form_of (form_submitted fields) p)).went
        ≡ some (read_page p.id)
  unfolding step
  saved-went p fields r t i l = simp (t, i, l) refl

  -- After any run of possible events from the opening of the form's page, on a store that holds no
  -- succeeded update, where accepted reads are answered with the document of the page's id: a form
  -- that is shown is filled with a document of that id, submitting it sends one request, to update
  -- the document of that id by the fields, and the accepted answer goes to that document's page.
  pub submitted-saved :
      (left : State A) (id : ℕ) (events : List (Event A F)) (p : Page A F) (fields : F)
      (r : Reply A)
      → (left.slot update).is_success ≡ false
      → IsPossible id events (open_page left id)
      → after events (open_page left id) ≡ p
      → is_here p.went ≡ true
      → shows_form p.store ≡ true
      → r.success ≡ true
      → (a : A) × (p.form ≡ some (form_of a))
        × (id_of a ≡ id)
        × ((step form_of (form_submitted fields) p).sent ≡ p.sent ++ update_request id fields ∷ [])
        × ((step form_of (updated (some r)) (step form_of (form_submitted fields) p)).went
            ≡ some (read_page id))
  submitted-saved left id events p fields r e i q h t l =
      let g = subst (IsFilled form_of id_of id) q (
        after-IsFilled id events (open_page left id) i (opened-IsFilled form_of id_of left id e)) in
      let (a, c, f, j) = g.filled h t in
      (
        a,
        f,
        j,
        submitted-sent p fields ∙ ap (λ n. p.sent ++ update_request n fields ∷ []) g.own,
        saved-went p fields r t g.idle l ∙ ap (λ n. some (read_page n)) g.own,
      )
