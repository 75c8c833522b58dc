-- ===== src/Auth/Recovery.antt =====
-- Logging out, and forgetting and resetting a password.
use Prim.Native.String
use dev_ops_projet.Base.{
  ℕ, ◌≡◌, refl, sym, subst, ap, ◌≢◌, String, true, false, not, Option, none, some, inl, inr, List,
  arith, Bool-cases, Option-cases, includes,
}
use dev_ops_projet.Http.{Error, Message, Response, respond, reply, catch_errors}
use dev_ops_projet.Mongo.{Mongoose, in_memory, first, update_first}
use dev_ops_projet.Mongo.Laws.{IsMongoose, eq-in_memory}
use dev_ops_projet.Mongo.Keys.{Distinct}
use dev_ops_projet.Mongo.Lookup.{first-update_first, first-update_first-none}
use dev_ops_projet.Auth.{
  Admin, AdminPassword, AuthDb, Crypto, IsCrypto, Session, has_email, of_user, holds, is_live_admin,
  is_live_password,
}
use dev_ops_projet.Auth.Header.{token_of}
use dev_ops_projet.Auth.Login.{Credentials, auth_user, login}
use dev_ops_projet.Auth.Gate.{next, is_valid_auth_token, pull_session, logout}
use dev_ops_projet.Auth.Password.{
  Mail, forget_password, ResetBody, Generated, tokens_match, new_password, reset_password,
}
use dev_ops_projet.Auth.Sessions.{Bears, HasKeys, by_email, gate_sound, includes-pull}

-- A pulled token is in no live password document of the user.
pulled :
    (ps : List AdminPassword) (token : String) (admin : ℕ) (p : AdminPassword)
    → Distinct (λ x. x.user) ps
    → first (is_live_password admin) (update_first (of_user admin) (pull_session token) ps) ≡ some p
    → includes p.logged_sessions token ≡ true
    → ⊥
pulled ps token admin p keys pass logged = elim (Option-cases (first (is_live_password admin) ps)) [
  | inr (q, found) ↦
      let after =
        first-update_first (λ x. x.user) admin (λ x. not x.removed) (pull_session token) (λ x. refl)
          (λ x. refl) ps q keys found in
      let same : p ≡ pull_session token q = cc in
      cc (includes-pull q.logged_sessions token, ap (λ x. includes x.logged_sessions token) same)
  | inl missing ↦ cc (
      first-update_first-none (λ x. x.user) admin (λ x. not x.removed) (pull_session token)
        (λ x. refl) (λ x. refl) ps missing)
]

logout-in_memory :
    (k : Crypto) (header : Option String) (token : String) (admin : ℕ) (s : AuthDb) (u : Admin)
    → HasKeys s
    → token_of header ≡ some token
    → k.verify token ≡ holds admin
    → Bears k header (logout in_memory header admin s).1 u
    → ⊥
unfolding logout
logout-in_memory k header token admin s u keys bearer verified
      (token', id, p, bearer', verified', user, pass, logged) =
    let same : token' ≡ token = cc in
    let same_id : id ≡ admin = cc (ap k.verify same) in
    pulled s.passwords token admin p keys.passwords (rw (logout, bearer, same_id) at pass)
      (rw same at logged)

-- After a logout, no request with the same token passes the gate, as whatever user.
pub logout-is_valid_auth_token :
    (db : Mongoose) (k : Crypto) (header : Option String) (token : String) (admin : ℕ) (s : AuthDb)
    (u : Admin)
    → IsMongoose db
    → HasKeys s
    → token_of header ≡ some token
    → k.verify token ≡ holds admin
    → is_valid_auth_token db k header (logout db header admin s).1 ≢ next u
logout-is_valid_auth_token db k header token admin s u m keys bearer verified =
    rw (eq-in_memory m) (λ e.
      logout-in_memory k header token admin s u keys bearer verified (gate_sound k header _ u e))

-- No request to forgetPassword is answered with 404: an unknown email is answered with 500.
forget_password-ne-404 :
    (db : Mongoose) (validate : String → Option String) (send : Mail → Option Error)
    (email reset_token : String) (s : AuthDb) (r : Response (Unit {0}))
    → catch_errors (forget_password db validate send email reset_token s).0 ≡ some r
    → r.status ≢ 404
unfolding forget_password catch_errors
forget_password-ne-404 db validate send email reset_token s r e = ground arith

-- An enabled account without a password document gets no answer to a valid login.
login_unanswered :
    (db : Mongoose) (k : Crypto) (validate : Credentials → Option String) (body : Credentials)
    (s : AuthDb) (u : Admin)
    → validate body ≡ none
    → db.find_one (has_email body.email) s.admins ≡ some u
    → u.enabled ≡ true
    → db.find_one (is_live_password u.id) s.passwords ≡ none
    → catch_errors (login db k validate body s).0 ≡ none
unfolding login catch_errors
login_unanswered db k validate body s u fine user enabled missing =
    rw (login, fine, user, enabled, missing, auth_user)

pub login_succeeds :
    (k : Crypto) (accepts : Credentials → Option String) (creds : Credentials) (s : AuthDb)
    (u : Admin) (p : AdminPassword)
    → accepts creds ≡ none
    → first (has_email creds.email) s.admins ≡ some u
    → u.enabled ≡ true
    → first (is_live_password u.id) s.passwords ≡ some p
    → k.compare (String.◌++◌ p.salt creds.password) p.password ≡ true
    → (r : Response Session) × ((login in_memory k accepts creds s).0 ≡ respond r)
      × (r.status ≡ 200)
unfolding login
login_succeeds k accepts creds s u p fine user enabled pass right =
    rw (login, fine, user, enabled, pass, auth_user, right) (_, refl, refl)

-- What a reset that is answered with 200 has checked and written.
abbrev WasReset : Crypto → ResetBody → Generated → AuthDb → AuthDb → Admin → Type 0
WasReset k body g s t u =
    (p : AdminPassword) × (u.enabled ≡ true)
    × (first (is_live_password body.user_id) s.passwords ≡ some p)
    × (tokens_match body.reset_token p.reset_token ≡ true)
    × (t ≡ record s {
      passwords = update_first (of_user body.user_id) (new_password k body g) s.passwords;
    })

reset_writes :
    (k : Crypto) (validate : ResetBody → Option String) (body : ResetBody) (g : Generated)
    (s : AuthDb) (u : Admin) (r : Response Session)
    → (reset_password in_memory k validate body g s).0 ≡ respond r
    → r.status ≡ 200
    → first (is_live_admin body.user_id) s.admins ≡ some u
    → WasReset k body g s (reset_password in_memory k validate body g s).1 u
unfolding reset_password
reset_writes k validate body g s u r answer code found = elim (Bool-cases u.enabled) [
  | inr off ↦ absurd (refused 409 (omega arith) (rw (reset_password, found, off) at answer) code)
  | inl enabled ↦ elim (Option-cases (first (is_live_password body.user_id) s.passwords)) [
    | inl missing ↦
        absurd
          (refused 404 (omega arith) (rw (reset_password, found, enabled, missing) at answer) code)
    | inr (p, pass) ↦ elim (Bool-cases (tokens_match body.reset_token p.reset_token)) [
      | inr wrong ↦ absurd (
          refused 403 (omega arith) (rw (reset_password, found, enabled, pass, wrong) at answer)
            code)
      | inl match ↦ elim (Option-cases (validate body)) [
        | inr (e, bad) ↦ absurd (
            refused 409 (omega arith)
              (rw (reset_password, found, enabled, pass, match, bad) at answer) code)
        | inl ok ↦ (p, enabled, pass, match, rw (reset_password, found, enabled, pass, match, ok))
      ]
    ]
  ]
]
  where
    refused :
        (n : ℕ) {m : Message} → n ≢ 200 → reply n false none m ≡ respond r → r.status ≡ 200 → ⊥
    refused n ne q code = ground arith

-- The new password logs in: after a reset that is answered with 200, a login of the same account
-- with the password of the reset is answered with 200.
pub reset_password-login :
    (db : Mongoose) (k : Crypto) (validate : ResetBody → Option String)
    (accepts : Credentials → Option String) (body : ResetBody) (g : Generated) (creds : Credentials)
    (s : AuthDb) (u : Admin) (r : Response Session)
    → IsMongoose db
    → IsCrypto k
    → HasKeys s
    → first (has_email creds.email) s.admins ≡ some u
    → u.id ≡ body.user_id
    → creds.password ≡ body.password
    → accepts creds ≡ none
    → (reset_password db k validate body g s).0 ≡ respond r
    → r.status ≡ 200
    → (r' : Response Session) × ((login db k accepts creds
          (reset_password db k validate body g s).1).0
        ≡ respond r')
      × (r'.status ≡ 200)
reset_password-login db k validate accepts body g creds s u r m laws keys user same_id same fine =
    rw (eq-in_memory m) (λ answer code.
      let found =
        subst (λ j. first (is_live_admin j) s.admins ≡ some u) same_id
          (by_email creds.email s u keys user) in
      let (p, enabled, pass, match, writes) =
        reset_writes k validate body g s u r answer code found in
      let after =
        first-update_first (λ x. x.user) body.user_id (λ x. not x.removed) (new_password k body g)
          (λ x. refl) (λ x. refl) s.passwords p keys.passwords pass in
      let written = update_first (of_user body.user_id) (new_password k body g) s.passwords in
      rw writes (
        login_succeeds k accepts creds _ u (new_password k body g p) fine user enabled
          (subst (λ j. first (is_live_password j) written ≡ some (new_password k body g p))
            (sym same_id) after)
          (rw same (laws.compare-hash_sync (String.◌++◌ g.salt body.password)))))
