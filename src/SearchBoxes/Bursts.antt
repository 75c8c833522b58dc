-- ===== src/SearchBoxes/Bursts.antt =====
-- A burst of typing sends one search, for its last text.
use dev_ops_projet.Base.{
  ℕ, ◌+◌, ◌≤◌, ◌<◌, ◌≡◌, ◌≢◌, refl, ap, ◌∙◌, String, str_eq, eq_iff, true, false, some, List, [],
  ◌∷◌, ◌++◌, leb, if◌then◌else◌, Bool-cases, inl, inr, arith,
}
use dev_ops_projet.SearchBoxes.{
  Timer, set, SearchBox, debounced_effect, timeout, wait_until, on_search, typing,
}

-- Texts that are typed one after the other, each sooner than `ms` after the one before, not empty and
-- other than it; `last` and `text` are the time and the text of the one before.
abbrev pub Burst : ℕ → ℕ → String → List (ℕ × String) → Type 0
Burst ms last text [] = Unit
Burst ms last text ((now, next) ∷ rest) =
    (last ≤ now) × (now < last + ms) × (next ≢ "") × (next ≢ text) × Burst ms now next rest

abbrev pub last_time : ℕ → List (ℕ × String) → ℕ
last_time t [] = t
last_time t ((now, text) ∷ rest) = last_time now rest

abbrev pub last_text : String → List (ℕ × String) → String
last_text v [] = v
last_text v ((now, text) ∷ rest) = last_text text rest

-- The timer runs out `ms` after the last text was typed, and that text is the one to search.
abbrev Waits : ℕ → ℕ → String → SearchBox → Type 0
Waits ms last text b = (b.val_to_search ≡ text) × (b.timer.due ≡ some (last + ms))

set_due : (ms now : ℕ) (t : Timer) → (set ms now t).due ≡ some (now + ms)
unfolding set
set_due ms now t = refl

on_search-set :
    (ms now : ℕ) (next : String) (b : SearchBox)
    → next ≢ ""
    → next ≢ b.val_to_search
    → on_search ms now next b ≡ record b { val_to_search = next; timer = set ms now b.timer }
unfolding on_search
on_search-set ms now next b filled other =
    let full : str_eq next "" ≡ false = ground (arith, eq_iff next "") in
    let new : str_eq next b.val_to_search ≡ false = ground (arith, eq_iff next b.val_to_search) in
    rw (full, new) refl

wait_until-soon :
    (ms last now : ℕ) (text : String) (b : SearchBox)
    → Waits ms last text b
    → now < last + ms
    → wait_until now b ≡ b
unfolding wait_until
wait_until-soon ms last now text b (val, due) soon =
    let waits : leb (last + ms) now ≡ false = ground arith in simp (wait_until, due, waits)

typed :
    (ms last now : ℕ) (text next : String) (b : SearchBox)
    → Waits ms last text b
    → now < last + ms
    → next ≢ ""
    → next ≢ text
    → on_search ms now next (wait_until now b)
      ≡ record b { val_to_search = next; timer = set ms now b.timer }
typed ms last now text next b w soon filled other =
    ap (on_search ms now next) (wait_until-soon ms last now text b w soon)
    ∙ on_search-set ms now next b filled (λ e. other (e ∙ w.0))

-- What a burst leaves: the timer of its last text, and no search.
typing-Waits :
    (ms last : ℕ) (text : String) (es : List (ℕ × String)) (b : SearchBox)
    → Waits ms last text b
    → Burst ms last text es
    → Waits ms (last_time last es) (last_text text es) (typing ms es b)
      × ((typing ms es b).searches ≡ b.searches)
      × ((typing ms es b).debounced_value ≡ b.debounced_value)
unfolding typing
typing-Waits ms last text [] b w u = (w, refl, refl)
typing-Waits ms last text ((now, next) ∷ es) b w (_, soon, filled, other, rest) =
    rw (typing, typed ms last now text next b w soon filled other)
      (typing-Waits ms now next es (record b { val_to_search = next; timer = set ms now b.timer })
        (refl, set_due ms now b.timer) rest)

last_text-filled :
    (ms last : ℕ) (text : String) (es : List (ℕ × String))
    → text ≢ ""
    → Burst ms last text es
    → last_text text es ≢ ""
last_text-filled ms last text [] filled u = filled
last_text-filled ms last text ((now, next) ∷ es) filled (_, _, full, _, rest) =
    last_text-filled ms now next es full rest

wait_until-searches :
    (ms last now : ℕ) (text : String) (b : SearchBox)
    → Waits ms last text b
    → text ≢ ""
    → text ≢ b.debounced_value
    → last + ms ≤ now
    → (wait_until now b).searches ≡ b.searches ++ text ∷ []
unfolding wait_until timeout debounced_effect
wait_until-searches ms last now text b (val, due) filled other late =
    let over : leb (last + ms) now ≡ true = ground arith in
    let full : str_eq b.val_to_search "" ≡ false = ground (arith, eq_iff b.val_to_search "") in
    let new : str_eq b.debounced_value b.val_to_search ≡ false =
      ground (arith, eq_iff b.debounced_value b.val_to_search) in
    rw (due, over, new, full) (ap (λ t. b.searches ++ t ∷ []) val)

-- After a text that is typed into any box, neither empty nor the box's last one, and then any number of
-- further texts, each of them not empty, other than the one before, and sooner than the waiting time
-- after it: until that time has passed since the last one, nothing is searched for; from then on the
-- box has sent one search, for the last text, if that is not what it searched for before.
pub typing-last_text :
    (ms start now : ℕ) (first : String) (es : List (ℕ × String)) (b : SearchBox)
    → first ≢ ""
    → first ≢ b.val_to_search
    → Burst ms start first es
    → last_text first es ≢ b.debounced_value
    → ((wait_until now (typing ms es (on_search ms start first b))).searches ≡ (
        if leb (last_time start es + ms) now
        then b.searches ++ last_text first es ∷ []
        else b.searches))
typing-last_text ms start now first es b filled other burst new =
    let c = on_search ms start first b in
    let here : c ≡ record b { val_to_search = first; timer = set ms start b.timer } =
      on_search-set ms start first b filled other in
    let (waits, quiet, same) =
      typing-Waits ms start first es
        (record b { val_to_search = first; timer = set ms start b.timer })
        (refl, set_due ms start b.timer) burst in
    rw here (elim (Bool-cases (leb (last_time start es + ms) now)) [
      | inl over ↦ rw over (
          wait_until-searches ms (last_time start es) now (last_text first es) _ waits
            (last_text-filled ms start first es filled burst) (λ e. new (e ∙ same)) (ground arith)
          ∙ ap (λ l. l ++ last_text first es ∷ []) quiet)
      | inr soon ↦ rw soon (
          ap (λ x. x.searches)
            (wait_until-soon ms (last_time start es) now (last_text first es) _ waits
              (ground arith))
          ∙ quiet)
    ])
