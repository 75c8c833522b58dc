-- ===== src/ErpRead/Runs.antt =====
-- Runs of the page of an invoice or a quote from its opening, and what its buttons then do.
use dev_ops_projet.Base.{
  ℕ, ◌≡◌, refl, ◌⊎◌, inl, inr, Bool-cases, true, false, Option, none, some, List, [], ◌∷◌, ◌++◌,
  ◌>>=◌,
}
use dev_ops_projet.Redux.{update, doc, State}
use dev_ops_projet.ErpRead.{
  Page, Event, Fields, to_update, download_clicked, mail_clicked, convert_clicked, edit_clicked,
  mail_request, convert_request, shows_item, open_page, step,
}
use dev_ops_projet.ErpRead.Shown.{is_shown, IsServed, Shows, Holds, step-Shows, opened-Shows}

module _ {A I C : Type 0} (of : Fields A I C) (id_of : A → ℕ) where
  abbrev pub after : List (Event A) → Option (Page A I C) → Option (Page A I C)
  after [] o = o
  after (e ∷ later) none = none
  after (e ∷ later) (some p) = after later (step of e p)

  -- Each event of the run is possible where it comes.
  abbrev pub IsPossible : ℕ → List (Event A) → Option (Page A I C) → Type 0
  IsPossible id [] o = Unit
  IsPossible id (e ∷ later) none = Unit
  IsPossible id (e ∷ later) (some p) =
      (is_shown e p ≡ true) × IsServed of id_of id e × IsPossible id later (step of e p)

  after-Holds :
      (id : ℕ) (events : List (Event A)) (o : Option (Page A I C))
      → IsPossible id events o
      → Holds of id_of id o
      → Holds of id_of id (after events o)
  after-Holds id [] o i h = h
  after-Holds id (e ∷ later) none i h = h
  after-Holds id (e ∷ later) (some p) (s, v, i) h =
      after-Holds id later (step of e p) i (step-Shows of id_of id e p v h)

  page_reached :
      (id : ℕ) (o : Option (Page A I C))
      → Holds of id_of id o
      → (p : Page A I C) × (o ≡ some p) × Shows of id_of id p
  page_reached id none h = cc
  page_reached id (some p) h = (p, refl, h)

  -- What the buttons do that act on a document.
  pub record ActsOn (a : A) (p : Page A I C) : Type 0 where
    pub mails :
        (step of mail_clicked p >>= (λ q. some q.sent)) ≡ some (p.sent ++ mail_request a ∷ [])
    pub converts :
        (step of convert_clicked p >>= (λ q. some q.sent)) ≡ some (p.sent ++ convert_request a ∷ [])
    pub downloads :
        (step of download_clicked p >>= (λ q. some q.windows)) ≡ some (p.windows ++ a ∷ [])
    pub edits : (step of edit_clicked p >>= (λ q. some q.went)) ≡ some (some (to_update a))
    pub hands_over :
        (step of edit_clicked p >>= (λ q. some (q.store.slot update).current)) ≡ some (doc a)

  acts : (p : Page A I C) → ActsOn p.current_erp p
  unfolding step
  acts p = record {
    mails = refl;
    converts = refl;
    downloads = refl;
    edits = refl;
    hands_over = refl;
  }

  -- What a page shows: no document, or one of the id with its items, on which the buttons act.
  abbrev pub IsAbout : ℕ → Page A I C → Type 0
  IsAbout id p =
      (shows_item p.store ≡ false)
      ⊎ ((a : A) × (id_of a ≡ id) × (of.items a ≡ some p.items_list) × ActsOn a p)

  shown-IsAbout : (id : ℕ) (p : Page A I C) → Shows of id_of id p → IsAbout id p
  shown-IsAbout id p g = elim (Bool-cases (shows_item p.store)) [
    | inl t ↦ let (n, x) = g t in inr (p.current_erp, n, x, acts p)
    | inr t ↦ inl t
  ]

  -- After any run of possible events from the opening of a document's page, where accepted reads
  -- are answered with a document of the address's id that has items and a client: no error was thrown, and the
  -- page shows no document, or one that has that id and its own items, and mailing, converting,
  -- downloading and editing act on it: the requests and the file are of it, and its form is gone to
  -- with it as the object to update.
  pub after-IsAbout :
      (left : State A) (id : ℕ) (opened : Page A I C) (events : List (Event A))
      → open_page of left id ≡ some opened
      → IsPossible id events (some opened)
      → (p : Page A I C) × (after events (some opened) ≡ some p) × IsAbout id p
  after-IsAbout left id opened events e i =
      let (p, q, g) =
        page_reached id _
          (after-Holds id events (some opened) i (opened-Shows of id_of left id opened e)) in
      (p, q, shown-IsAbout id p g)
