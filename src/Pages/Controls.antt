-- ===== src/Pages/Controls.antt =====
-- Every event that a page shows keeps the page orderly.
use dev_ops_projet.Base.{◌≡◌, refl, true, String, some, inl, inr, Bool-cases}
use dev_ops_projet.Redux.{search, delete}
use dev_ops_projet.Pages.{
  Page, Event, spread_of, read_clicked, edit_clicked, delete_clicked, update_password_clicked,
  remove_clicked, edit_item_clicked, cancel_clicked, create_submit, update_submit, ok_clicked,
  modal_cancelled, option_selected, listed, created, updated, deleted, found,
}
use dev_ops_projet.Pages.Steps.{step, handler-update_submit, handler-handle_ok, handler-on_select}
use dev_ops_projet.Pages.Orderly.{IsOrderly, Holds, IsServed, is_shown, docs_of, orderly, unchanged}
use dev_ops_projet.Pages.Answers.{
  listed-IsOrderly, created-IsOrderly, updated-IsOrderly, deleted-IsOrderly, found-IsOrderly,
}

module _ {A F : Type 0} (with_dates : A → A) (blank : A) (labels : A → String) where
  pub step-IsOrderly :
      (e : Event A F) (p : Page A F)
      → is_shown e p ≡ true
      → IsServed e
      → IsOrderly with_dates blank labels p
      → Holds with_dates blank labels (step with_dates blank labels e p)
  unfolding step
  step-IsOrderly (read_clicked a) p s v g =
      simp (unchanged, g.create_idle, g.update_idle)
        (orderly g.create_idle g.update_idle (λ e. cc) g.asking)
  step-IsOrderly (edit_clicked a) p s v g =
      simp (unchanged, g.create_idle, g.update_idle)
        (orderly g.create_idle refl (λ e. (refl, refl)) g.asking)
  step-IsOrderly (delete_clicked a) p s v g =
      simp (unchanged, g.create_idle, g.update_idle)
        (orderly g.create_idle g.update_idle g.editing (λ e. (a, refl, refl, refl)))
  step-IsOrderly (update_password_clicked a) p s v g =
      simp (unchanged, g.create_idle, g.update_idle) (orderly g.create_idle refl (λ e. cc) g.asking)
  step-IsOrderly remove_clicked p s v g =
      simp (unchanged, g.create_idle, g.update_idle)
        (orderly g.create_idle g.update_idle g.editing
          (λ e. (spread_of blank p.store.current_item, refl, refl, refl)))
  step-IsOrderly edit_item_clicked p s v g =
      simp (unchanged, g.create_idle, g.update_idle)
        (orderly g.create_idle refl (λ e. (refl, refl)) g.asking)
  step-IsOrderly cancel_clicked p s v g =
      simp (unchanged, g.create_idle, g.update_idle)
        (orderly g.create_idle g.update_idle (λ e. cc) g.asking)
  step-IsOrderly (create_submit fields) p s v g =
      simp (unchanged, g.create_idle, g.update_idle) (orderly refl g.update_idle g.editing g.asking)
  step-IsOrderly (update_submit fields) p s v g =
      let (e, _) = g.editing s in
      rw (step, handler-update_submit with_dates blank labels p fields _ e)
        (simp (unchanged, g.create_idle, g.update_idle)
          (orderly g.create_idle refl g.editing g.asking))
  step-IsOrderly ok_clicked p s v g =
      let (a, e, _, _) = g.asking s in
      rw (step, handler-handle_ok with_dates blank labels p a e)
        (simp (e, unchanged, g.create_idle, g.update_idle)
          (orderly g.create_idle g.update_idle g.editing (λ e. cc)))
  step-IsOrderly modal_cancelled p s v g = elim (Bool-cases (p.store.slot delete).is_loading) [
    | inl l ↦
        simp (l, unchanged, g.create_idle, g.update_idle)
          (orderly g.create_idle g.update_idle g.editing g.asking)
    | inr l ↦
        simp (l, unchanged, g.create_idle, g.update_idle)
          (orderly g.create_idle g.update_idle g.editing (λ e. cc))
  ]
  step-IsOrderly (option_selected q) p s v g =
      let (ds, e) = docs_of (p.store.slot search).result s in
      let (a, h) = handler-on_select with_dates blank labels p q ds e in
      rw (step, h)
        (simp (unchanged, g.create_idle, g.update_idle)
          (orderly g.create_idle g.update_idle (λ e. cc) g.asking))
  step-IsOrderly (listed size (some r)) p s v g = listed-IsOrderly with_dates blank labels g size r
  step-IsOrderly (created (some r)) p s v g = created-IsOrderly with_dates blank labels g r v
  step-IsOrderly (updated (some r)) p s v g = updated-IsOrderly with_dates blank labels g r v
  step-IsOrderly (deleted (some r)) p s v g = deleted-IsOrderly with_dates blank labels g r
  step-IsOrderly (found (some r)) p s v g = found-IsOrderly with_dates blank labels g r
  step-IsOrderly _ p s v g =
      simp (unchanged, g.create_idle, g.update_idle)
        (orderly g.create_idle g.update_idle g.editing g.asking)
