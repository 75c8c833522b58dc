-- ===== src/Auth/Password.antt =====
-- forgetPassword.js and resetPassword.js. The texts that shortid generates are arguments.
use Prim.Native.String.{◌++◌}
use mathlib.Core.List
use dev_ops_projet.Base.{
  ℕ, String, Bool, true, false, Option, none, some, [], ◌∷◌, str_eq, if◌then◌else◌,
}
use dev_ops_projet.Http.{Outcome, Error, reply, text, throw, type_error}
use dev_ops_projet.Mongo.{Mongoose, updated}
use dev_ops_projet.Auth.{
  AdminPassword, AuthDb, Crypto, Session, session_of, has_email, of_user, is_live_admin,
  is_live_password,
}

-- What `sendMail` is given; the link is made of the base URL, the user's id and the token.
pub record Mail : Type 0 where
  pub email : String
  pub name : String
  pub user : ℕ
  pub reset_token : String

module _ (db : Mongoose) where
  -- `validate` is Joi, and `send` the mail service: the error that it throws, or none. A missing
  -- user makes `user._id` throw before the test for it.
  unfoldable pub forget_password :
      (String → Option String)
      → (Mail → Option Error)
      → String
      → String
      → AuthDb
      → Outcome (Unit {0}) × AuthDb
  forget_password validate send email reset_token s = elim (validate email) [
    | some e ↦ (reply 409 false none (text "Invalid email."), s)
    | none ↦ elim (db.find_one (has_email email) s.admins) [
      | none ↦ (throw type_error, s)
      | some user ↦
          let (_, passwords) =
            db.find_one_and_update updated (of_user user.id)
              (λ p. record p { reset_token = some reset_token }) s.passwords in
          let s' : AuthDb = record s { passwords = passwords } in
          let mail : Mail = record {
            email = email;
            name = user.name;
            user = user.id;
            reset_token = reset_token;
          } in
          elim (send mail) [
            | some e ↦ (throw e, s')
            | none ↦
                (reply 200 true none (text "Check your email inbox , to reset your password"), s')
          ]
    ]
  ]

pub record ResetBody : Type 0 where
  pub password : String
  pub user_id : ℕ
  pub reset_token : Option String
  pub remember : Bool

-- The texts that are generated on a reset.
pub record Generated : Type 0 where
  pub salt : String
  pub email_token : String
  pub reset_token : String

-- `resetToken === databasePassword.resetToken`, and the latter neither undefined nor null.
abbrev pub tokens_match : Option String → Option String → Bool
tokens_match (some a) (some b) = str_eq a b
tokens_match (some a) none = false
tokens_match none b = false

abbrev pub new_password : Crypto → ResetBody → Generated → AdminPassword → AdminPassword
new_password k body g p = record p {
  logged_sessions = List.◌++◌ p.logged_sessions (k.sign body.user_id 24 ∷ []);
  password = k.hash_sync (g.salt ++ body.password);
  salt = g.salt;
  email_token = some g.email_token;
  reset_token = some g.reset_token;
  email_verified = true;
}

module _ (db : Mongoose) (k : Crypto) where
  -- A missing user makes `user.enabled` throw before the test for it.
  unfoldable pub reset_password :
      (ResetBody → Option String) → ResetBody → Generated → AuthDb → Outcome Session × AuthDb
  reset_password validate body g s = elim (db.find_one (is_live_admin body.user_id) s.admins) [
    | none ↦ (throw type_error, s)
    | some user ↦
        if user.enabled
        then elim (db.find_one (is_live_password body.user_id) s.passwords) [
          | none ↦
              (reply 404 false none (text "No account with this email has been registered."), s)
          | some p ↦
              if tokens_match body.reset_token p.reset_token
              then elim (validate body) [
                | some e ↦ (reply 409 false none (text "Invalid reset password object"), s)
                | none ↦
                    let (_, passwords) =
                      db.find_one_and_update updated (of_user body.user_id) (new_password k body g)
                        s.passwords in
                    (
                      reply 200 true
                          (some (
                            session_of user (k.sign body.user_id 24)
                              (if body.remember then some 365 else none)))
                          (text "Successfully resetPassword user"),
                      record s { passwords = passwords },
                    )
              ]
              else (reply 403 false none (text "Invalid reset token"), s)
        ]
        else (
          reply 409 false none (text "Your account is disabled, contact your account adminstrator"),
          s,
        )
  ]
