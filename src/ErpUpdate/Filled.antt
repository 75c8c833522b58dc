-- ===== src/ErpUpdate/Filled.antt =====
-- The form is filled with the document whose id is in the address.
use dev_ops_projet.Base.{
  and_left, and_right, ℕ, ◌≡◌, refl, ◌∙◌, Bool, true, false, ◌&&◌, Option, none, some, inl, inr,
  Bool-cases,
}
use dev_ops_projet.Redux.{update, read, Payload, absent, doc, State, erp_reducer, reduce}
use dev_ops_projet.Redux.Actions.{Reply, read_op}
use dev_ops_projet.Redux.Requests.{run}
use dev_ops_projet.Pages.{started}
use dev_ops_projet.ErpUpdate.{
  Page, Event, Destination, form_submitted, close_clicked, read_answered, updated, shows_form,
  layout_effect, open_page, step,
}

abbrev pub is_here : Option Destination → Bool
is_here none = true
is_here (some d) = false

-- The controls are the form's, and an update is answered while its form is shown.
abbrev pub is_shown : {A F : Type 0} → Event A F → Page A F → Bool
is_shown (read_answered r) p = is_here p.went
is_shown e p = is_here p.went && shows_form p.store

module _ {A : Type 0} where
  abbrev pub requested : State A → State A
  requested s = run erp_reducer s (started read_op)

  pub layout_effect-update :
      (x : Payload A) (s : State A)
      → ((layout_effect x s).slot update).is_success ≡ (s.slot update).is_success
  unfolding layout_effect erp_reducer reduce
  layout_effect-update absent s = refl
  layout_effect-update _ s = refl

  pub layout_effect-loading :
      (x : Payload A) (s : State A)
      → (s.slot read).is_loading ≡ true
      → shows_form (layout_effect x s) ≡ false
  unfolding layout_effect erp_reducer reduce
  layout_effect-loading absent s l = rw (l) refl
  layout_effect-loading _ s l = rw (l) refl

module _ {A F : Type 0} (form_of : A → A) (id_of : A → ℕ) where
  -- An accepted read is answered with the document of an id.
  abbrev pub IsServed : ℕ → Event A F → Type 0
  IsServed id (read_answered (some r)) =
      r.success ≡ true → (a : A) × (r.result ≡ doc a) × (id_of a ≡ id)
  IsServed id e = Unit

  -- No save has succeeded that the page has not seen, and a form that is shown is filled with the
  -- document of the page.
  pub record IsFilled (id : ℕ) (p : Page A F) : Type 0 where
    pub own : p.id ≡ id
    pub idle : (p.store.slot update).is_success ≡ false
    pub filled :
        is_here p.went ≡ true
        → shows_form p.store ≡ true
        → (a : A) × ((p.store.slot update).current ≡ doc a)
          × (p.form ≡ some (form_of a))
          × (id_of a ≡ id)

  pub opened-IsFilled :
      (left : State A) (id : ℕ)
      → (left.slot update).is_success ≡ false
      → IsFilled id (open_page left id)
  unfolding open_page
  opened-IsFilled left id e = elim (Bool-cases (shows_form left)) [
    | inl t ↦ record {
      own = simp (t, e) refl;
      idle = simp (t, e) (layout_effect-update (left.slot read).result (requested left) ∙ e);
      filled =
          simp (t, e)
            (λ m k.
              let z = layout_effect-loading (left.slot read).result (requested left) refl in
              cc (z, k));
    }
    | inr t ↦ record {
      own = simp (t, e) refl;
      idle = simp (t, e) (layout_effect-update (left.slot read).result (requested left) ∙ e);
      filled =
          simp (t, e)
            (λ m k.
              let z = layout_effect-loading (left.slot read).result (requested left) refl in
              cc (z, k));
    }
  ]

  module _ (id : ℕ) (p : Page A F) (h : is_here p.went ≡ true) (g : IsFilled id p) where
    submitted-IsFilled : (fields : F) → IsFilled id (step form_of (form_submitted fields) p)
    unfolding step
    submitted-IsFilled fields = record { own = g.own; idle = g.idle; filled = g.filled }

    read-IsFilled :
        (r : Reply A) (a : A)
        → r.success ≡ true
        → r.result ≡ doc a
        → id_of a ≡ id
        → IsFilled id (step form_of (read_answered (some r)) p)
    unfolding step
    read-IsFilled r a l d i = elim (Bool-cases (shows_form p.store)) [
      | inl t ↦ record {
        own = simp (l, d, t) g.own;
        idle = simp (l, d, t) g.idle;
        filled = simp (l, d, t) (λ m k. (a, refl, refl, i));
      }
      | inr t ↦ record {
        own = simp (l, d, t, g.idle) g.own;
        idle = simp (l, d, t, g.idle) refl;
        filled = simp (l, d, t, g.idle) (λ m k. (a, refl, refl, i));
      }
    ]

    refused-IsFilled :
        (r : Reply A) → r.success ≡ false → IsFilled id (step form_of (read_answered (some r)) p)
    unfolding step
    refused-IsFilled r l = record {
      own = simp (l) g.own;
      idle = simp (l) g.idle;
      filled = simp (l) (λ m k. cc);
    }

    ignored-IsFilled : IsFilled id (step form_of (updated none) p)
    unfolding step
    ignored-IsFilled = elim (Bool-cases (shows_form p.store)) [
      | inl t ↦ record {
        own = simp (t, g.idle) g.own;
        idle = simp (t, g.idle) refl;
        filled = simp (t, g.idle) (λ m k. g.filled h t);
      }
      | inr t ↦ record {
        own = simp (t, g.idle) g.own;
        idle = simp (t, g.idle) refl;
        filled = simp (t, g.idle) (λ m k. cc);
      }
    ]

    updated-IsFilled :
        (r : Reply A) → shows_form p.store ≡ true → IsFilled id (step form_of (updated (some r)) p)
    unfolding step
    updated-IsFilled r t = elim (Bool-cases r.success) [
      | inl l ↦ record {
        own = simp (l, t, g.idle) g.own;
        idle = simp (l, t, g.idle) refl;
        filled = simp (l, t, g.idle) (λ m k. cc);
      }
      | inr l ↦ record {
        own = simp (l, t, g.idle) g.own;
        idle = simp (l, t, g.idle) refl;
        filled = simp (l, t, g.idle) (λ m k. g.filled h t);
      }
    ]

  pub step-IsFilled :
      (id : ℕ) (e : Event A F) (p : Page A F)
      → is_shown e p ≡ true
      → IsServed id e
      → IsFilled id p
      → IsFilled id (step form_of e p)
  unfolding step
  step-IsFilled id (form_submitted fields) p s v g =
      submitted-IsFilled id p (and_left _ _ s) g fields
  step-IsFilled id close_clicked p s v g = record { own = g.own; idle = g.idle; filled = λ m k. cc }
  step-IsFilled id (read_answered none) p s v g = g
  step-IsFilled id (read_answered (some r)) p s v g = elim (Bool-cases r.success) [
    | inl l ↦ let (a, d, i) = v l in read-IsFilled id p s g r a l d i
    | inr l ↦ refused-IsFilled id p s g r l
  ]
  step-IsFilled id (updated none) p s v g = ignored-IsFilled id p (and_left _ _ s) g
  step-IsFilled id (updated (some r)) p s v g =
      updated-IsFilled id p (and_left _ _ s) g r (and_right (is_here p.went) _ s)
