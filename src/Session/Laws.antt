-- ===== src/Session/Laws.antt =====
-- The store and its copy in local storage.
use dev_ops_projet.Base.{
  ◌≡◌, refl, arith, Bool, true, false, Option, none, some, List, [], ◌∷◌, All,
}
use dev_ops_projet.Session.{nobody, whole, AuthState, auth_state, auth_reducer}
use dev_ops_projet.Session.Actions.{
  World, Answer, RequestEnd, Operation, login_op, verify_op, reset_password_op, register_op,
  logout_op, update_profile_op, logged_in, perform, run, login, verify, reset_password, register,
  logout, update_profile,
}

abbrev is_logged_in : {U : Type 0} → AuthState U → Bool
is_logged_in (auth_state c l i s) = l

-- While the store says that a user is logged in, local storage holds that very login.
abbrev pub IsStored : {U S : Type 0} → World U S → Type 0
IsStored w = is_logged_in w.store ≡ true → w.auth ≡ some w.store

abbrev IsAccepted : {U : Type 0} → Option (Answer U) → Type 0
IsAccepted none = Unit
IsAccepted (some r) = r.success ≡ true

-- Every operation but a logout that the server refuses and a change of the profile for which the
-- token is refused.
abbrev pub Accepted : {U : Type 0} → Operation × RequestEnd U → Type 0
Accepted (logout_op, a) = IsAccepted a.answer
Accepted (update_profile_op, a) = a.cleared ≡ false
Accepted _ = Unit

module _ {U S : Type 0} where
  perform-IsStored :
      (o : Operation) (a : RequestEnd U) (w : World U S)
      → Accepted (o, a)
      → IsStored w
      → IsStored (perform o a w)
  unfolding perform login verify reset_password register logout update_profile auth_reducer
  perform-IsStored login_op a w _ v = ground arith
  perform-IsStored verify_op a w _ v = ground arith
  perform-IsStored reset_password_op a w _ v = ground arith
  perform-IsStored register_op a w _ v = ground arith
  perform-IsStored logout_op a w h v = ground arith
  perform-IsStored update_profile_op a w h v = ground arith

-- From a world that is stored, any sequence of operations in which the server refuses no logout
-- and no token of a change of the profile leaves it stored: whenever the store says that a user is logged in, local storage holds that very
-- login.
pub run-IsStored :
    {U S : Type 0} (ops : List (Operation × RequestEnd U)) (w : World U S)
    → All Accepted ops
    → IsStored w
    → IsStored (run ops w)
unfolding run
run-IsStored [] w _ v = v
run-IsStored ((o, a) ∷ rest) w (h, hs) v =
    run-IsStored rest (perform o a w) hs (perform-IsStored o a w h v)

-- After a logout that the server refuses with a null result, the store says that a user is logged in
-- and local storage holds another login: the whole one of before, in the place of the user.
refused_logout-ne-IsStored :
    {U S : Type 0} (r : Answer U) (w : World U S) (old : AuthState U)
    → r.success ≡ false
    → r.result ≡ nobody
    → w.auth ≡ some old
    → ((logout (some r) w).auth ≡ some (logged_in (whole old)))
      × ((logout (some r) w).store ≡ logged_in nobody)
      × ¬ IsStored (logout (some r) w)
unfolding logout auth_reducer
refused_logout-ne-IsStored r w old refused empty stored =
    rw (refused, stored, empty) (refl, refl, λ v. ground (arith, v refl))

-- After a change of the profile for which the token is refused, the store says that the user is logged
-- in and local storage holds no login.
refused_profile-ne-IsStored :
    {U S : Type 0} (a : RequestEnd U) (w : World U S)
    → a.cleared ≡ true
    → a.answer ≡ none
    → is_logged_in w.store ≡ true
    → ¬ IsStored (perform update_profile_op a w)
unfolding perform update_profile
refused_profile-ne-IsStored a w c n l v = ground (arith, c, n, v)
