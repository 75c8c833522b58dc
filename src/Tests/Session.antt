-- ===== src/Tests/Session.antt =====
-- A login in the client and a logout.
use dev_ops_projet.Base.{◌≡◌, refl, ℕ, true, false, Option, none, some, List, [], ◌∷◌}
use dev_ops_projet.Session.{nobody, user, initial_state}
use dev_ops_projet.Session.Actions.{
  World, Answer, RequestEnd, Operation, login_op, update_profile_op, logout_op, run,
}
use dev_ops_projet.Session.Laws.{IsStored, run-IsStored}

abbrev logged_out : World ℕ ℕ
logged_out = record { store = initial_state; auth = none; settings = none; is_logout = true }

abbrev welcome : Answer ℕ
welcome = record { success = true; result = user 7 }

abbrev refusal : Answer ℕ
refusal = record { success = false; result = nobody }

abbrev served : Option (Answer ℕ) → RequestEnd ℕ
served a = record { cleared = false; answer = a }

abbrev visit : List (Operation × RequestEnd ℕ)
visit =
    (login_op, served (some welcome))
    ∷ (update_profile_op, served (some refusal))
    ∷ (logout_op, record { cleared = true; answer = none })
    ∷ []

logged_out-IsStored : IsStored logged_out
logged_out-IsStored = λ e. absurd (contradiction e)
  where
    contradiction : false ≡ true → ⊥
    contradiction e = cc

run_example : IsStored (run visit logged_out)
run_example = run-IsStored visit logged_out (tt, (refl, (tt, tt))) logged_out-IsStored
