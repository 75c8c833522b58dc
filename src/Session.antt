-- ===== src/Session.antt =====
-- frontend/src/redux/auth: the store of the login and the copy of it that its actions keep in local
-- storage.
pub mod Actions
pub mod Laws
use dev_ops_projet.Base.{Bool, true, false}

-- What `current` holds: null or an empty object, a user, or, after a failed logout, the whole login
-- state that was stored.
mutual
  pub data Current (U : Type 0) : Type 0 where
    nobody : Current U
    user : U → Current U
    whole : AuthState U → Current U

  pub data AuthState (U : Type 0) : Type 0 where
    auth_state : (current : Current U) (is_logged_in is_loading is_success : Bool) → AuthState U

pub data Action (U : Type 0) : Type 0 where
  request_loading : Action U
  request_failed : Action U
  request_success : Current U → Action U
  register_success : Action U
  logout_success : Action U
  logout_failed : Current U → Action U

module _ {U : Type 0} where
  -- `INITIAL_STATE`.
  abbrev pub initial_state : AuthState U
  initial_state = auth_state nobody false false false

  unfoldable pub auth_reducer : AuthState U → Action U → AuthState U
  auth_reducer (auth_state c l i s) request_loading = auth_state c false true s
  auth_reducer s request_failed = initial_state
  auth_reducer s (request_success payload) = auth_state payload true false true
  auth_reducer s register_success = auth_state nobody false false true
  auth_reducer s logout_success = initial_state
  auth_reducer s (logout_failed payload) = auth_state payload true false true
