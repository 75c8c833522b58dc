-- ===== src/Tests/Auth.antt =====
-- One account and its sessions.
use dev_ops_projet.Base.{
  ℕ, str_eq, ◌≡◌, ◌↔◌, refl, String, true, false, Option, none, some, [], ◌∷◌,
}
use dev_ops_projet.Http.{Outcome, reply, Response, json, respond, text, of_id}
use dev_ops_projet.Mongo.{in_memory}
use dev_ops_projet.Auth.{Admin, AdminPassword, AuthDb, Session, session_of}
use dev_ops_projet.Auth.Url.{check_and_correct_url}
use dev_ops_projet.Auth.Header.{token_of}
use dev_ops_projet.Auth.Login.{Credentials, login}
use dev_ops_projet.Auth.Gate.{is_valid_auth_token, next, logout}
use dev_ops_projet.Auth.Password.{ResetBody, Generated, reset_password}
use dev_ops_projet.Auth.Profile.{save_password, update_profile_password}
use dev_ops_projet.Auth.Renewal.{update_profile_password-login}
use dev_ops_projet.Auth.Sessions.{
  HasKeys, Bears, is_valid_auth_token_iff, login-is_valid_auth_token,
}
use dev_ops_projet.Auth.Recovery.{reset_password-login}
use dev_ops_projet.Routes.{Handler, post_method, serve_api}
use dev_ops_projet.Routes.Guard.{serve_api-logout}
use dev_ops_projet.Tests.Models.{in_memory-IsMongoose, plain, plain-IsCrypto}

abbrev admin : Admin
admin = record {
  id = 1;
  removed = false;
  enabled = true;
  email = "a@b.c";
  name = "Ann";
  surname = none;
  photo = none;
  role = "owner";
}

abbrev admin_password : AdminPassword
admin_password = record {
  user = 1;
  removed = false;
  password = "salt-secret";
  salt = "salt-";
  email_token = none;
  reset_token = some "reset";
  email_verified = true;
  logged_sessions = [];
}

abbrev one_account : AuthDb
one_account = record { admins = admin ∷ []; passwords = admin_password ∷ [] }

one_account-HasKeys : HasKeys one_account
one_account-HasKeys = record { admins = (tt, tt); passwords = (tt, tt) }

abbrev creds : Credentials
creds = record { email = "a@b.c"; password = "secret"; remember = false }

abbrev accept : {B : Type 0} → B → Option String
accept b = none

abbrev session : Session
session = session_of admin "a" none

abbrev welcome : Response Session
welcome = json 200 true (some session) (text "Successfully login user")

abbrev logged_in : AuthDb
logged_in = (login in_memory plain accept creds one_account).1

bearer : token_of (some "Bearer a") ≡ some "a"
unfolding token_of
bearer = refl

login-welcome : (login in_memory plain accept creds one_account).0 ≡ respond welcome
unfolding login
login-welcome = refl

login_example :
    (u : Admin) × (u.id ≡ 1)
    × (is_valid_auth_token in_memory plain (some "Bearer a") logged_in ≡ next u)
login_example =
    login-is_valid_auth_token in_memory plain accept creds one_account welcome session
      (some "Bearer a") in_memory-IsMongoose plain-IsCrypto one_account-HasKeys login-welcome refl
      bearer

gate_example :
    (is_valid_auth_token in_memory plain (some "Bearer a") logged_in ≡ next admin)
    ↔ Bears plain (some "Bearer a") logged_in admin
gate_example =
    is_valid_auth_token_iff in_memory plain (some "Bearer a") logged_in admin in_memory-IsMongoose

abbrev open_session : AuthDb
open_session = record one_account {
  passwords = record admin_password { logged_sessions = "a" ∷ [] } ∷ [];
}

open_session-HasKeys : HasKeys open_session
open_session-HasKeys = record { admins = (tt, tt); passwords = (tt, tt) }

abbrev reset_body : ResetBody
reset_body = record { password = "new"; user_id = 1; reset_token = some "reset"; remember = false }

abbrev generated : Generated
generated = record { salt = "pepper-"; email_token = "e"; reset_token = "r" }

abbrev reset_answer : Response Session
reset_answer = json 200 true (some session) (text "Successfully resetPassword user")

reset_password-answer :
    (reset_password in_memory plain accept reset_body generated one_account).0
    ≡ respond reset_answer
unfolding reset_password
reset_password-answer = refl

reset_password_example :
    (r : Response Session) × ((login in_memory plain accept
        (record creds { password = "new" })
        (reset_password in_memory plain accept reset_body generated one_account).1).0
      ≡ respond r)
    × (r.status ≡ 200)
reset_password_example =
    reset_password-login in_memory plain accept accept reset_body generated
      (record creds { password = "new" }) one_account admin reset_answer in_memory-IsMongoose
      plain-IsCrypto one_account-HasKeys refl refl refl refl reset_password-answer refl

abbrev changed_answer : Response (Unit {0})
changed_answer = json 200 true (some tt) (of_id "we update the password by this id: " 1)

changed-answer :
    (update_profile_password in_memory plain
      (some "longsecret")
      (some "longsecret")
      admin
      "pepper-"
      one_account).0
    ≡ respond changed_answer
unfolding update_profile_password save_password
changed-answer = refl

update_profile_password_example :
    (r : Response Session) × ((login in_memory plain accept
        (record creds { password = "longsecret" })
        (update_profile_password in_memory plain
          (some "longsecret")
          (some "longsecret")
          admin
          "pepper-"
          one_account).1).0
      ≡ respond r)
    × (r.status ≡ 200)
update_profile_password_example =
    update_profile_password-login in_memory plain accept (some "longsecret") "pepper-"
      (record creds { password = "longsecret" }) one_account admin changed_answer
      in_memory-IsMongoose plain-IsCrypto refl refl refl changed-answer refl

-- Handlers that empty the database.
abbrev wipe : Handler → Option Admin → AuthDb → Outcome ℕ × AuthDb
wipe h user s = (reply 200 true (some 1) (text "done"), record s { admins = [] })

abbrev after_logout : AuthDb
after_logout = (logout in_memory (some "Bearer a") 1 open_session).1

guard_example :
    (r : Response ℕ) × (serve_api in_memory plain str_eq wipe
        (λ s. s)
        ("invoice" ∷ [])
        (some "Bearer a")
        post_method
        "/invoice/create"
        after_logout
      ≡ (respond r, after_logout))
    × (r.jwt_expired ≡ true)
guard_example =
    serve_api-logout in_memory plain str_eq wipe (λ s. s) ("invoice" ∷ []) (some "Bearer a") "a" 1
      open_session post_method "/invoice/create" after_logout in_memory-IsMongoose
      open_session-HasKeys bearer refl refl refl

-- The test for https minds the case and the removal of the scheme does not, so a scheme in upper case
-- becomes http.
upper_case-insecure : check_and_correct_url "HTTPS://a.b/" ≡ "http://a.b"
unfolding check_and_correct_url
upper_case-insecure = refl
