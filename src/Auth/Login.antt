-- ===== src/Auth/Login.antt =====
-- login.js and authUser.js.
use Prim.Native.String.{◌++◌}
use dev_ops_projet.Base.{String, Bool, true, false, Option, none, some, [], ◌∷◌, if◌then◌else◌, ◌*◌}
use mathlib.Core.List
use dev_ops_projet.Http.{Outcome, reply, text, unhandled, type_error}
use dev_ops_projet.Mongo.{Mongoose, updated}
use dev_ops_projet.Auth.{
  Admin, AdminPassword, AuthDb, Crypto, Session, session_of, has_email, of_user, is_live_password,
}

pub record Credentials : Type 0 where
  pub email : String
  pub password : String
  pub remember : Bool

-- `$push: { loggedSessions: token }`
abbrev pub push_session : String → AdminPassword → AdminPassword
push_session token p = record p { logged_sessions = List.◌++◌ p.logged_sessions (token ∷ []) }

-- `validate` is Joi with the schema of an email and a password: the error's message, or none.
module _ (db : Mongoose) (k : Crypto) where
  -- `login` does not await it: what it throws is an unhandled rejection.
  pub auth_user : Credentials → Admin → Option AdminPassword → AuthDb → Outcome Session × AuthDb
  auth_user body user none s = (unhandled type_error, s)
  auth_user body user (some p) s =
      if k.compare (p.salt ++ body.password) p.password
      then (let token = k.sign user.id (if body.remember then 365 * 24 else 24) in
          let (_, passwords) =
            db.find_one_and_update updated (of_user user.id) (push_session token) s.passwords in
          (
            reply 200 true (some (session_of user token (if body.remember then some 365 else none)))
                (text "Successfully login user"),
            record s { passwords = passwords },
          ))
      else (reply 403 false none (text "Invalid credentials."), s)

  unfoldable pub login :
      (Credentials → Option String) → Credentials → AuthDb → Outcome Session × AuthDb
  unfolding auth_user
  login validate body s = elim (validate body) [
    | some e ↦ (reply 409 false none (text "Invalid/Missing credentials."), s)
    | none ↦ elim (db.find_one (has_email body.email) s.admins) [
      | none ↦ (reply 404 false none (text "No account with this email has been registered."), s)
      | some user ↦
          let database_password = db.find_one (is_live_password user.id) s.passwords in
          if user.enabled then auth_user body user database_password s else (
            reply 409 false none
                (text "Your account is disabled, contact your account adminstrator"),
            s,
          )
    ]
  ]
