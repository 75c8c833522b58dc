-- ===== src/ErpRead/Shown.antt =====
-- The document that the page of an invoice or a quote shows is that of the address.
use dev_ops_projet.Base.{
  ℕ, ◌≡◌, refl, subst, Bool, true, false, ◌&&◌, Option, none, some, inl, inr, List, ◌>>=◌,
  Bool-cases,
}
use dev_ops_projet.Redux.{doc, State}
use dev_ops_projet.Redux.Actions.{Reply}
use dev_ops_projet.ErpRead.{
  Page, Event, Way, Fields, mailed, read_answered, render, shows_item, open_page, step,
}

abbrev pub is_here : {A : Type 0} → Option (Way A) → Bool
is_here none = true
is_here (some d) = false

-- The buttons are the item's; an answer may always arrive.
abbrev pub is_shown : {A I C : Type 0} → Event A → Page A I C → Bool
is_shown (read_answered r) p = is_here p.went
is_shown (mailed r) p = is_here p.went
is_shown e p = is_here p.went && shows_item p.store

module _ {A I C : Type 0} (of : Fields A I C) (id_of : A → ℕ) where
  -- An accepted read is answered with a document of the id, which has items and a client.
  abbrev pub IsServed : ℕ → Event A → Type 0
  IsServed id (read_answered (some r)) =
      r.success ≡ true
      → (a : A) × (xs : List I) × (c : C) × (r.result ≡ doc a)
        × (id_of a ≡ id)
        × (of.items a ≡ some xs)
        × (of.client a ≡ some c)
  IsServed id e = Unit

  -- An item that is shown is a document of the page's id, with its items.
  abbrev pub Shows : ℕ → Page A I C → Type 0
  Shows id p =
      shows_item p.store ≡ true
      → (id_of p.current_erp ≡ id) × (of.items p.current_erp ≡ some p.items_list)

  abbrev pub Holds : ℕ → Option (Page A I C) → Type 0
  Holds id none = Path Bool true false
  Holds id (some p) = Shows id p

  render-Shows :
      (id : ℕ) (p : Page A I C) (c : C)
      → of.client p.current_erp ≡ some c
      → Shows id p
      → Holds id (render of p)
  render-Shows id p c k g = rw (Holds, render, k) g

  bind-Holds :
      (id : ℕ) (p : Page A I C) (c : C) (f : Page A I C → Option (Page A I C))
      → of.client p.current_erp ≡ some c
      → Holds id (f p)
      → Holds id (render of p >>= f)
  bind-Holds id p c f k g = rw (Holds, render, k) g

  read-Shows :
      (id : ℕ) (p : Page A I C) (r : Reply A) (a : A) (xs : List I) (c : C)
      → r.success ≡ true
      → r.result ≡ doc a
      → id_of a ≡ id
      → of.items a ≡ some xs
      → of.client a ≡ some c
      → Holds id (step of (read_answered (some r)) p)
  unfolding step
  read-Shows id p r a xs c l d i x k = elim (Bool-cases (shows_item p.store)) [
    | inl t ↦ simp (l, d, t, x, k) (render-Shows id _ c k (λ h. (i, x)))
    | inr t ↦
        simp (l, d, t) (bind-Holds id _ c _ k (simp (x) (render-Shows id _ c k (λ h. (i, x)))))
  ]

  pub step-Shows :
      (id : ℕ) (e : Event A) (p : Page A I C) → IsServed id e → Shows id p → Holds id (step of e p)
  unfolding step
  step-Shows id (read_answered none) p v g = g
  step-Shows id (read_answered (some r)) p v g = elim (Bool-cases r.success) [
    | inl l ↦ let (a, xs, c, d, i, x, k) = v l in read-Shows id p r a xs c l d i x k
    | inr l ↦ simp (l) (λ h. cc)
  ]
  step-Shows id (mailed none) p v g = g
  step-Shows id (mailed (some r)) p v g = elim (Bool-cases r.success) [
    | inl l ↦ simp (l) g
    | inr l ↦ simp (l) g
  ]
  step-Shows id _ p v g = g

  abbrev Hides : Option (Page A I C) → Type 0
  Hides none = Unit
  Hides (some p) = shows_item p.store ≡ false

  bound-Hides :
      (o : Option (Page A I C)) (p : Page A I C)
      → shows_item p.store ≡ false
      → Hides (o >>= (λ q. some p))
  bound-Hides none p h = tt
  bound-Hides (some q) p h = h

  opened-Hides : (left : State A) (id : ℕ) → Hides (open_page of left id)
  unfolding open_page
  opened-Hides left id = elim (Bool-cases (shows_item left)) [
    | inl t ↦ simp (t) (bound-Hides _ _ refl)
    | inr t ↦ simp (t) refl
  ]

  pub opened-Shows :
      (left : State A) (id : ℕ) (p : Page A I C) → open_page of left id ≡ some p → Shows id p
  opened-Shows left id p e h = let z = subst Hides e (opened-Hides left id) in cc (z, h)
