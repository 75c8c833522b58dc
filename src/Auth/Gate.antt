-- ===== src/Auth/Gate.antt =====
-- isValidAuthToken.js, which stands before every route but login and the password routes, and
-- logout.js.
use dev_ops_projet.Base.{
  ℕ, String, true, false, not, Option, none, some, List, [], str_eq, includes, if◌then◌else◌,
}
use dev_ops_projet.Http.{
  Outcome, Message, Response, reply, text, of_error, type_error, library_error,
}
use dev_ops_projet.Mongo.{Mongoose, updated, select}
use dev_ops_projet.Auth.{
  Admin, AdminPassword, AuthDb, Crypto, fails, empty, holds, is_live_admin, of_user,
  is_live_password,
}
use dev_ops_projet.Auth.Header.{token_of}

-- `next()` with `req.admin` set, or an answer.
pub data Gate : Type 0 where
  next : Admin → Gate
  deny : Response (Unit {0}) → Gate

abbrev pub expired : ℕ → Message → Gate
expired code m =
    deny (record { status = code; success = false; result = none; message = m; jwt_expired = true })

module _ (db : Mongoose) (k : Crypto) where
  unfoldable pub is_valid_auth_token : Option String → AuthDb → Gate
  is_valid_auth_token header s = elim (token_of header) [
    | none ↦ expired 401 (text "No authentication token, authorization denied.")
    | some token ↦ elim (k.verify token) [
      | fails e ↦ expired 500 (of_error (library_error e))
      | empty ↦ expired 401 (text "Token verification failed, authorization denied.")
      | holds id ↦ elim (db.find_one (is_live_admin id) s.admins) [
        | none ↦ expired 401 (text "User doens't Exist, authorization denied.")
        | some user ↦ elim (db.find_one (is_live_password id) s.passwords) [
          | none ↦ expired 500 (of_error type_error)
          | some p ↦
              if includes p.logged_sessions token
              then next user
              else expired 401 (text "User is already logout try to login, authorization denied.")
        ]
      ]
    ]
  ]

-- `$pull: { loggedSessions: token }`
abbrev pub pull_session : String → AdminPassword → AdminPassword
pull_session token p = record p {
  logged_sessions = select (λ t. not (str_eq t token)) p.logged_sessions;
}

abbrev pub end_sessions : AdminPassword → AdminPassword
end_sessions p = record p { logged_sessions = [] }

-- `admin` is `req.admin._id`.
module _ (db : Mongoose) where
  unfoldable pub logout : Option String → ℕ → AuthDb → Outcome (Unit {0}) × AuthDb
  logout header admin s =
      let passwords : List AdminPassword = elim (token_of header) [
        | some token ↦
            (db.find_one_and_update updated (of_user admin) (pull_session token) s.passwords).1
        | none ↦ (db.find_one_and_update updated (of_user admin) end_sessions s.passwords).1
      ] in
      (reply 200 true (some tt) (text "Successfully logout"), record s { passwords = passwords })
