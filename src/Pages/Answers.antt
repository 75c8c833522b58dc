-- ===== src/Pages/Answers.antt =====
-- The arriving answers of a page keep it orderly.
use dev_ops_projet.Base.{
  ℕ, ◌≡◌, refl, Bool, true, false, String, Option, some, inl, inr, Bool-cases, Option-cases,
}
use dev_ops_projet.Redux.{delete}
use dev_ops_projet.Redux.Actions.{Reply}
use dev_ops_projet.Pages.{Page, is_doc, listed, created, updated, deleted, found}
use dev_ops_projet.Pages.Steps.{step}
use dev_ops_projet.Pages.Orderly.{IsOrderly, Holds, HasDoc, orderly, unchanged}

module _ {A F : Type 0} (with_dates : A → A) (blank : A) (labels : A → String) where
  module _ {p : Page A F} (g : IsOrderly with_dates blank labels p) where
    pub listed-IsOrderly :
        (size : Option ℕ) (r : Reply A)
        → Holds with_dates blank labels (step with_dates blank labels (listed size (some r)) p)
    unfolding step
    listed-IsOrderly size r = elim (Bool-cases r.success) [
      | inl l ↦ elim (Option-cases r.pagination) [
        | inl e ↦
            simp (l, e, unchanged, g.create_idle, g.update_idle)
              (orderly g.create_idle g.update_idle g.editing g.asking)
        | inr (n, e) ↦
            simp (l, e, unchanged, g.create_idle, g.update_idle)
              (orderly g.create_idle g.update_idle g.editing g.asking)
      ]
      | inr l ↦
          simp (l, unchanged, g.create_idle, g.update_idle)
            (orderly g.create_idle g.update_idle g.editing g.asking)
    ]

    pub created-IsOrderly :
        (r : Reply A)
        → HasDoc (some r)
        → Holds with_dates blank labels (step with_dates blank labels (created (some r)) p)
    unfolding step
    created-IsOrderly r v = elim (Bool-cases r.success) [
      | inl l ↦
          let (a, e) = v l in
          simp (l, e, unchanged, g.create_idle, g.update_idle)
            (orderly refl g.update_idle (λ h. cc) g.asking)
      | inr l ↦
          simp (l, unchanged, g.create_idle, g.update_idle)
            (orderly refl g.update_idle g.editing g.asking)
    ]

    pub updated-IsOrderly :
        (r : Reply A)
        → HasDoc (some r)
        → Holds with_dates blank labels (step with_dates blank labels (updated (some r)) p)
    unfolding step
    updated-IsOrderly r v = elim (Bool-cases r.success) [
      | inl l ↦
          let (a, e) = v l in
          simp (l, e, unchanged, g.create_idle, g.update_idle)
            (orderly g.create_idle refl (λ h. cc) g.asking)
      | inr l ↦
          simp (l, unchanged, g.create_idle, g.update_idle)
            (orderly g.create_idle refl g.editing g.asking)
    ]

    -- No dialog is open once a deletion has succeeded.
    closed :
        (p.boxes.is_modal_open ≡ true)
        → (p.store.slot delete).is_success ≡ true
        → Path Bool true false
    closed m was = let (a, _, _, n) = g.asking m in cc

    pub deleted-IsOrderly :
        (r : Reply A)
        → Holds with_dates blank labels (step with_dates blank labels (deleted (some r)) p)
    unfolding step
    deleted-IsOrderly r = elim (Bool-cases r.success) [
      | inl l ↦ elim (Bool-cases (p.store.slot delete).is_success) [
        | inl was ↦ elim (Bool-cases (is_doc (p.store.slot delete).current)) [
          | inl d ↦
              simp (l, was, d, unchanged, g.create_idle, g.update_idle)
                (orderly g.create_idle g.update_idle g.editing (λ h. cc))
          | inr d ↦
              simp (l, was, d, unchanged, g.create_idle, g.update_idle)
                (orderly g.create_idle g.update_idle g.editing (λ m. let x = closed m was in cc))
        ]
        | inr was ↦ elim (Bool-cases (is_doc (p.store.slot delete).current)) [
          | inl d ↦
              simp (l, was, d, unchanged, g.create_idle, g.update_idle)
                (orderly g.create_idle g.update_idle g.editing (λ h. cc))
          | inr d ↦
              simp (l, was, d, unchanged, g.create_idle, g.update_idle)
                (orderly g.create_idle g.update_idle g.editing (λ h. cc))
        ]
      ]
      | inr l ↦ elim (Bool-cases (p.store.slot delete).is_success) [
        | inl was ↦
            simp (l, was, unchanged, g.create_idle, g.update_idle)
              (orderly g.create_idle g.update_idle g.editing (λ m. let x = closed m was in cc))
        | inr was ↦
            simp (l, was, unchanged, g.create_idle, g.update_idle)
              (orderly g.create_idle g.update_idle g.editing
                (λ m. let (a, c, t, _) = g.asking m in (a, c, t, refl)))
      ]
    ]

    pub found-IsOrderly :
        (r : Reply A)
        → Holds with_dates blank labels (step with_dates blank labels (found (some r)) p)
    unfolding step
    found-IsOrderly r = elim (Bool-cases r.success) [
      | inl l ↦
          simp (l, unchanged, g.create_idle, g.update_idle)
            (orderly g.create_idle g.update_idle g.editing g.asking)
      | inr l ↦
          simp (l, unchanged, g.create_idle, g.update_idle)
            (orderly g.create_idle g.update_idle g.editing g.asking)
    ]
