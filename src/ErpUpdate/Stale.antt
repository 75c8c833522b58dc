-- ===== src/ErpUpdate/Stale.antt =====
-- The page of a form that is opened after an update whose page was left.
use dev_ops_projet.Base.{ℕ, ◌≡◌, refl, ap, ◌∙◌, true, false, some, [], ◌∷◌}
use dev_ops_projet.Redux.{update, read, doc, State, current_action, erp_reducer, reduce}
use dev_ops_projet.Redux.Actions.{Reply, update_op, dispatches, update_item}
use dev_ops_projet.Redux.Requests.{run}
use dev_ops_projet.Pages.{arrived}
use dev_ops_projet.ErpUpdate.{
  Page, read_answered, read_request, read_page, shows_form, open_page, step,
}
use dev_ops_projet.ErpUpdate.Filled.{requested, layout_effect-update, layout_effect-loading}

module _ {A : Type 0} where
  -- The store of a list to which an accepted update has arrived, once its row `b` is chosen for
  -- editing.
  abbrev pub chosen_late : State A → Reply A → A → State A
  chosen_late s u b =
      run erp_reducer (run erp_reducer s (arrived update_op (some u)))
        (current_action update (doc b) ∷ [])

  chosen_late-hidden :
      (s : State A) (u : Reply A) (b : A)
      → shows_form s ≡ false
      → u.success ≡ true
      → (shows_form (chosen_late s u b) ≡ false)
        × (((chosen_late s u b).slot update).is_success ≡ true)
  unfolding erp_reducer reduce dispatches update_item
  chosen_late-hidden s u b t v = simp (v) (t, refl)

module _ {A : Type 0} (F : Type 0) (form_of : A → A) where
  answered-lost :
      (p : Page A F) (r : Reply A) (a : A)
      → shows_form p.store ≡ false
      → (p.store.slot update).is_success ≡ true
      → r.success ≡ true
      → r.result ≡ doc a
      → let q = step form_of (read_answered (some r)) p in
        (q.went ≡ some (read_page p.id)) × (q.sent ≡ p.sent)
  unfolding step
  answered-lost p r a t v l d = simp (t, v, l, d) (refl, refl)

  module _ (left : State A) (id : ℕ) (t : shows_form left ≡ false) where
    opened-hidden : shows_form (open_page {F = F} left id).store ≡ false
    unfolding open_page
    opened-hidden = simp (t) (layout_effect-loading (left.slot read).result (requested left) refl)

    opened-success :
        (left.slot update).is_success ≡ true
        → ((open_page {F = F} left id).store.slot update).is_success ≡ true
    unfolding open_page
    opened-success e = simp (t) (layout_effect-update (left.slot read).result (requested left) ∙ e)

    opened-sent : (open_page {F = F} left id).sent ≡ read_request id ∷ []
    unfolding open_page
    opened-sent = simp (t) refl

    opened-id : (open_page {F = F} left id).id ≡ id
    unfolding open_page
    opened-id = simp (t) refl

  -- When an accepted update arrives after its page was left, where no read's form was shown, and a
  -- row is then chosen for editing: as soon as the document of the form arrives, the page goes to
  -- that of the document, and nothing but the read was sent.
  pub late_update-lost :
      (s : State A) (u r : Reply A) (a b : A) (id : ℕ)
      → shows_form s ≡ false
      → u.success ≡ true
      → r.success ≡ true
      → r.result ≡ doc a
      → let p = step {F = F} form_of (read_answered (some r)) (open_page (chosen_late s u b) id) in
        (p.went ≡ some (read_page id)) × (p.sent ≡ read_request id ∷ [])
  late_update-lost s u r a b id t v l d =
      let left = chosen_late s u b in
      let h = chosen_late-hidden s u b t v in
      let (w, n) =
        answered-lost (open_page left id) r a (opened-hidden left id h.0)
          (opened-success left id h.0 h.1) l d in
      (w ∙ ap (λ k. some (read_page k)) (opened-id left id h.0), n ∙ opened-sent left id h.0)
