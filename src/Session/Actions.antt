-- ===== src/Session/Actions.antt =====
-- frontend/src/redux/auth/actions.js: each action as a step of the store and of local storage. The
-- answer is that of the service: the server's, or the error handler's, which may be undefined, here
-- `none`; reading it then throws.
use dev_ops_projet.Base.{Bool, true, false, if◌then◌else◌, Option, none, some, List, [], ◌∷◌}
use dev_ops_projet.Session.{
  Current, nobody, whole, AuthState, auth_state, request_loading, request_failed, request_success,
  register_success, logout_success, logout_failed, auth_reducer,
}

-- `S` is the type of the settings. A key that holds the text of null is read like a missing one.
pub record World (U S : Type 0) : Type 0 where
  pub store : AuthState U
  pub auth : Option (AuthState U)
  pub settings : Option S
  pub is_logout : Bool

pub record Answer (U : Type 0) : Type 0 where
  pub success : Bool
  pub result : Current U

-- `{ current, isLoggedIn: true, isLoading: false, isSuccess: true }`
abbrev pub logged_in : {U : Type 0} → Current U → AuthState U
logged_in c = auth_state c true false true

-- The part of `logout` that stores the login again, around what was stored.
abbrev pub kept : {U : Type 0} → Option (AuthState U) → Current U
kept none = nobody
kept (some a) = whole a

module _ {U S : Type 0} where
  -- The body that `login`, `verify` and `resetPassword` share.
  abbrev enter : Option (Answer U) → World U S → World U S
  enter none w = record w { store = auth_reducer w.store request_loading }
  enter (some r) w =
      let loading = auth_reducer w.store request_loading in
      if r.success
      then record w {
        store = auth_reducer loading (request_success r.result);
        auth = some (logged_in r.result);
        is_logout = false;
      }
      else record w { store = auth_reducer loading request_failed }

  unfoldable pub login : Option (Answer U) → World U S → World U S
  login = enter

  unfoldable pub verify : Option (Answer U) → World U S → World U S
  verify = enter

  unfoldable pub reset_password : Option (Answer U) → World U S → World U S
  reset_password = enter

  unfoldable pub register : Option (Answer U) → World U S → World U S
  register none w = record w { store = auth_reducer w.store request_loading }
  register (some r) w =
      let loading = auth_reducer w.store request_loading in
      record w {
        store = auth_reducer loading (if r.success then register_success else request_failed);
      }

  unfoldable pub logout : Option (Answer U) → World U S → World U S
  logout answer w =
      let w₁ : World U S = record {
        store = auth_reducer w.store logout_success;
        auth = none;
        settings = none;
        is_logout = true;
      } in
      elim answer [
        | none ↦ w₁
        | some r ↦ if r.success then w₁ else record {
          store = auth_reducer w₁.store (logout_failed r.result);
          auth = some (logged_in (kept w.auth));
          settings = w.settings;
          is_logout = false;
        }
      ]

  unfoldable pub update_profile : Option (Answer U) → World U S → World U S
  update_profile none w = w
  update_profile (some r) w =
      if r.success
      then record w {
        store = auth_reducer w.store (request_success r.result);
        auth = some (logged_in r.result);
      }
      else w

pub data Operation : Type 0 where
  login_op verify_op reset_password_op register_op logout_op update_profile_op : Operation

-- A request's end: the answer, and whether the error handler has removed the login, since the token
-- is refused or has expired.
pub record RequestEnd (U : Type 0) : Type 0 where
  pub cleared : Bool
  pub answer : Option (Answer U)

module _ {U S : Type 0} where
  -- `removeItem` of `auth` and `isLogout` in the error handler.
  abbrev pub drop_login : Bool → World U S → World U S
  drop_login cleared w = if cleared then record w { auth = none; is_logout = false } else w

  -- The error handler acts before the answer is read; a refused logout writes both items again.
  abbrev pub end_logout : Bool → Option (Answer U) → World U S → World U S
  end_logout cleared none w = drop_login cleared (logout none w)
  end_logout cleared (some r) w = logout (some r) w

  unfoldable pub perform : Operation → RequestEnd U → World U S → World U S
  perform login_op a w = login a.answer (drop_login a.cleared w)
  perform verify_op a w = verify a.answer (drop_login a.cleared w)
  perform reset_password_op a w = reset_password a.answer (drop_login a.cleared w)
  perform register_op a w = register a.answer (drop_login a.cleared w)
  perform logout_op a w = end_logout a.cleared a.answer w
  perform update_profile_op a w = update_profile a.answer (drop_login a.cleared w)

  -- Requests with their answers, one after the other.
  unfoldable pub run : List (Operation × RequestEnd U) → World U S → World U S
  run [] w = w
  run ((o, a) ∷ rest) w = run rest (perform o a w)
