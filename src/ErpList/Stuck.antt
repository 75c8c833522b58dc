-- ===== src/ErpList/Stuck.antt =====
-- What the list of invoices, quotes and payments does after a deletion has succeeded.
use dev_ops_projet.Base.{
  ◌≡◌, refl, Bool, true, false, String, Option, none, some, List, [], ◌∷◌, ◌++◌, inl, inr,
  Bool-cases, Option-cases,
}
use mathlib.Core.List.{append-nil}
use dev_ops_projet.Redux.{delete}
use dev_ops_projet.Redux.Actions.{Reply}
use dev_ops_projet.Pages.{is_doc}
use dev_ops_projet.Pages.Orderly.{unchanged}
use dev_ops_projet.ErpList.{
  Page, Event, Request, list_request, filter_request, delete_request, initial_page, delete_clicked,
  ok_clicked, modal_cancelled, listed, deleted, step,
}
use dev_ops_projet.ErpList.Dialog.{IsAsking, after, IsPossible, is_shown, asking_page, closed}

not_open : (b : Bool) → (b ≡ true → Path Bool true false) → b ≡ false
not_open true h = h refl
not_open false h = refl

module _ {A : Type 0} where
  -- The objects that requests ask to delete.
  abbrev pub deletions : List (Request A) → List A
  deletions [] = []
  deletions (delete_request a ∷ rest) = a ∷ deletions rest
  deletions (list_request n m ∷ rest) = deletions rest
  deletions (filter_request n ∷ rest) = deletions rest

  deletions-append :
      (xs ys : List (Request A)) → deletions (xs ++ ys) ≡ deletions xs ++ deletions ys
  deletions-append [] ys = refl
  deletions-append (delete_request a ∷ rest) ys = rw (deletions-append rest ys)
  deletions-append (list_request n m ∷ rest) ys = deletions-append rest ys
  deletions-append (filter_request n ∷ rest) ys = deletions-append rest ys

  -- No answer to a deletion is among the events.
  abbrev pub is_answer : Event A → Bool
  is_answer (deleted r) = true
  is_answer e = false

  abbrev pub NoAnswer : List (Event A) → Type 0
  NoAnswer [] = Unit
  NoAnswer (e ∷ later) = (is_answer e ≡ false) × NoAnswer later

  -- The dialog is closed over a deletion that has succeeded, and the objects asked to be deleted
  -- are those of a list.
  abbrev IsStuck : List A → Option (Page A) → Type 0
  IsStuck xs none = Path Bool true false
  IsStuck xs (some q) =
      ((q.store.slot delete).is_success ≡ true)
      × (q.panels.delete_modal ≡ false)
      × (deletions q.sent ≡ xs)

  module _ (labels : A → String) where
    step-IsStuck :
        (xs : List A) (e : Event A) (p : Page A)
        → is_shown e p ≡ true
        → is_answer e ≡ false
        → IsStuck xs (some p)
        → IsStuck xs (step labels e p)
    unfolding step
    step-IsStuck xs (delete_clicked a) p s n (was, m, d) =
        simp (was, m, d, deletions-append, append-nil) (refl, refl, refl)
    step-IsStuck xs ok_clicked p s n (was, m, d) = cc
    step-IsStuck xs modal_cancelled p s n (was, m, d) = cc
    step-IsStuck xs (deleted r) p s n (was, m, d) = cc
    step-IsStuck xs (listed size (some r)) p s n (was, m, d) = elim (Bool-cases r.success) [
      | inl l ↦ elim (Option-cases r.pagination) [
        | inl e ↦ simp (l, e, was, m, d, unchanged, deletions-append, append-nil) (refl, refl, refl)
        | inr (k, e) ↦
            simp (l, e, was, m, d, unchanged, deletions-append, append-nil) (refl, refl, refl)
      ]
      | inr l ↦ simp (l, was, m, d, unchanged, deletions-append, append-nil) (refl, refl, refl)
    ]
    step-IsStuck xs _ p s n (was, m, d) =
        simp (was, m, d, unchanged, deletions-append, append-nil) (refl, refl, refl)

    deleted-IsStuck :
        (r : Reply A) (p : Page A)
        → IsAsking labels p
        → r.success ≡ true
        → IsStuck (deletions p.sent) (step labels (deleted (some r)) p)
    unfolding step
    deleted-IsStuck r p g l = elim (Bool-cases (p.store.slot delete).is_success) [
      | inl was ↦ elim (Bool-cases (is_doc (p.store.slot delete).current)) [
        | inl d ↦ simp (l, was, d, deletions-append, append-nil) (refl, refl, refl)
        | inr d ↦
            simp (l, was, d, deletions-append, append-nil)
              (refl, not_open p.panels.delete_modal (λ m. closed labels p g m was), refl)
      ]
      | inr was ↦ elim (Bool-cases (is_doc (p.store.slot delete).current)) [
        | inl d ↦ simp (l, was, d, deletions-append, append-nil) (refl, refl, refl)
        | inr d ↦ simp (l, was, d, deletions-append, append-nil) (refl, refl, refl)
      ]
    ]

    after-IsStuck :
        (xs : List A) (later : List (Event A)) (o : Option (Page A))
        → IsPossible labels later o
        → NoAnswer later
        → IsStuck xs o
        → IsStuck xs (after labels later o)
    after-IsStuck xs [] o i n h = h
    after-IsStuck xs (e ∷ later) none i n h = h
    after-IsStuck xs (e ∷ later) (some p) (s, i) (n, ns) h =
        after-IsStuck xs later (step labels e p) i ns (step-IsStuck xs e p s n h)

    stuck_page :
        (xs : List A) (o : Option (Page A))
        → IsStuck xs o
        → (q : Page A) × (o ≡ some q) × (q.panels.delete_modal ≡ false) × (deletions q.sent ≡ xs)
    stuck_page xs none h = cc
    stuck_page xs (some q) (was, m, d) = (q, refl, m, d)

    -- After any run of possible events from the start of the list's page, the arrival of an
    -- accepted deletion, and any further run of possible events with no answer to a deletion,
    -- opening the dialog for other objects included: no handler threw an error, the dialog is closed, and
    -- no deletion has been asked for since the arrival.
    pub after_deletion-closed :
        (events later : List (Event A)) (p : Page A) (r : Reply A)
        → IsPossible labels events (some initial_page)
        → after labels events (some initial_page) ≡ some p
        → r.success ≡ true
        → IsPossible labels later (step labels (deleted (some r)) p)
        → NoAnswer later
        → (q : Page A) × (after labels later (step labels (deleted (some r)) p) ≡ some q)
          × (q.panels.delete_modal ≡ false)
          × (deletions q.sent ≡ deletions p.sent)
    after_deletion-closed events later p r i e l j n = stuck_page (deletions p.sent) _ (
        after-IsStuck (deletions p.sent) later (step labels (deleted (some r)) p) j n
          (deleted-IsStuck r p (asking_page labels events p i e) l))
