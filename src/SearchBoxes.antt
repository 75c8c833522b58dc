-- ===== src/SearchBoxes.antt =====
-- The search boxes of the client and the timer that waits until nothing more is typed:
-- frontend/src/hooks/useTimeoutFn.jsx and useDebounce.jsx, and components/SearchItem. Times are in
-- milliseconds; a timeout that is due is run before what happens at that time or later.
pub mod Bursts
use dev_ops_projet.Base.{
  ℕ, ◌+◌, String, str_eq, Bool, true, false, not, Option, none, some, List, [], ◌∷◌, ◌++◌, leb,
  if◌then◌else◌,
}

-- The references of useTimeoutFn: `due` is the time at which the pending timeout runs, and `ready`
-- is null, none here, after `clear`.
pub record Timer : Type 0 where
  pub due : Option ℕ
  pub ready : Option Bool

-- `set` and `clear`, with the waiting time and the present time; a timeout that has run has nothing
-- to clear.
unfoldable pub set : (ms now : ℕ) → Timer → Timer
set ms now t = record { due = some (now + ms); ready = some false }

unfoldable pub clear : Timer → Timer
clear t = record { due = none; ready = none }

-- The state of SearchItem that its searches depend on, and the texts that it searched for.
pub record SearchBox : Type 0 where
  pub val_to_search : String
  pub debounced_value : String
  pub timer : Timer
  pub searches : List String

-- The effect on `[debouncedValue]` when it changes: first the last run's cleanup, which is `cancel`.
unfoldable pub debounced_effect : SearchBox → SearchBox
debounced_effect b =
    let c : SearchBox = record b { timer = clear b.timer } in
    if str_eq c.debounced_value ""
    then c
    else record c { searches = c.searches ++ c.debounced_value ∷ [] }

-- The callback of the timeout: `setDebouncedValue(valToSearch)`, with the effect of a change.
unfoldable pub timeout : SearchBox → SearchBox
timeout b =
    let c : SearchBox = record b { timer = record { due = none; ready = some true } } in
    if str_eq b.debounced_value b.val_to_search
    then c
    else debounced_effect (record c { debounced_value = b.val_to_search })

-- The time passes until `now`.
unfoldable pub wait_until : ℕ → SearchBox → SearchBox
wait_until now b = elim b.timer.due [ none ↦ b | some due ↦ if leb due now then timeout b else b ]

-- `onSearch`: an empty text is ignored, and the effect on `[valToSearch]`, which is `reset`, sets the
-- timer again if the text is another.
unfoldable pub on_search : ℕ → ℕ → String → SearchBox → SearchBox
on_search ms now search_text b =
    if str_eq search_text ""
    then b
    else if str_eq search_text b.val_to_search
    then b
    else record b { val_to_search = search_text; timer = set ms now b.timer }

-- When the box is mounted, its two effects set the timer.
unfoldable pub mount : ℕ → ℕ → SearchBox
mount ms now = record {
  val_to_search = "";
  debounced_value = "";
  timer = set ms now (set ms now (record { due = none; ready = some false }));
  searches = [];
}

-- The texts that are typed, each with its time.
unfoldable pub typing : ℕ → List (ℕ × String) → SearchBox → SearchBox
typing ms [] b = b
typing ms ((now, text) ∷ rest) b = typing ms rest (on_search ms now text (wait_until now b))
