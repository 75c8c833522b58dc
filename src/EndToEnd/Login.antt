-- ===== src/EndToEnd/Login.antt =====
-- A login of the client with the server behind it, and the client's next request: pages/Login.jsx by
-- redux/auth/actions.js `login` and auth.service.js on the client, authUser.js and
-- isValidAuthToken.js on the server, put together over axios and local storage.
use Prim.Native.String.{◌∷◌ as char, ◌++◌ as append}
use Prim.Native.String.append.{nil as append-nil_left, cons as append-char}
use dev_ops_projet.Base.{
  ℕ, ◌*◌, ◌≡◌, refl, ap, ◌∙◌, ◌≢◌, String, str_eq, eq_iff, true, false, ◌&&◌, Option, none, some,
  leb, ltb, if◌then◌else◌, arith,
}
use dev_ops_projet.Http.{Outcome, Response, reply, catch_errors, text}
use dev_ops_projet.Mongo.{Mongoose, in_memory, first}
use dev_ops_projet.Mongo.Laws.{IsMongoose, eq-in_memory}
use dev_ops_projet.Auth.{
  Admin, AdminPassword, AuthDb, Crypto, IsCrypto, Session, session_of, has_email, is_live_password,
}
use dev_ops_projet.Auth.Header.{before_space, token_of}
use dev_ops_projet.Auth.Login.{Credentials, auth_user, login}
use dev_ops_projet.Auth.Gate.{next, is_valid_auth_token}
use dev_ops_projet.Auth.Sessions.{HasKeys, login-is_valid_auth_token}
use dev_ops_projet.Redux.{Payload, absent, doc}
use dev_ops_projet.Redux.Actions.{Reply}
use dev_ops_projet.HttpClient.{
  HttpResponse, Exchange, answered, failed, Browser, StoredAuth, no_auth, broken, stored,
  include_token,
}
use dev_ops_projet.HttpClient.Requests.{Sent}
use dev_ops_projet.HttpClient.Auth.{auth_sent_by, perform_auth}
use dev_ops_projet.HttpClient.Auth.{login as login_request}
use dev_ops_projet.Session.{auth_reducer, Current, nobody, user, AuthState, auth_state}
use dev_ops_projet.Session.Actions.{World, Answer, logged_in}
use dev_ops_projet.Session.Actions.{login as login_action}

-- The server's answer as axios has it, and an outcome without an answer.
abbrev pub reply_of_session : Response Session → Reply Session
reply_of_session r = record {
  success = r.success;
  result = elim r.result [ none ↦ absent | some e ↦ doc e ];
  pagination = none;
}

abbrev pub session_response : Response Session → HttpResponse Session
session_response r = record {
  status = r.status;
  body =
      some (record { reply = reply_of_session r; jwt_expired = r.jwt_expired; error_name = none });
}

abbrev pub axios_of_session : Outcome Session → Exchange Session
axios_of_session o = elim (catch_errors o) [
  | none ↦ failed none
  | some r ↦
      if leb 200 r.status && ltb r.status 300
      then answered (session_response r)
      else failed (some (session_response r))
]

-- `data.success` and `data.result`, as the actions of the login read them.
abbrev pub current_of : Payload Session → Current Session
current_of (doc e) = user e
current_of _ = nobody

abbrev pub answer_of : Option (Reply Session) → Option (Answer Session)
answer_of none = none
answer_of (some r) = some (record { success = r.success; result = current_of r.result })

-- What `storePersist.get('auth')` gives after `setItem` of the login state: `auth.current.token`.
abbrev pub stored_of : Option (AuthState Session) → StoredAuth String
stored_of none = no_auth
stored_of (some (auth_state (user e) l i s)) = stored e.token
stored_of (some _) = broken

-- `Bearer ${auth.current.token}`, the header of every request of the client.
abbrev pub header_of : Option String → Option String
header_of none = none
header_of (some token) = some (append "Bearer " token)

-- The documented form of a signed token: not empty, and without a space.
abbrev pub IsCompact : Crypto → Type 0
IsCompact k =
    (id expires : ℕ)
    → (before_space (k.sign id expires) ≡ k.sign id expires) × (k.sign id expires ≢ "")

bearer_spelled :
    (t : String)
    → append "Bearer " t
      ≡ char "B" (char "e" (char "a" (char "r" (char "e" (char "r" (char " " t))))))
bearer_spelled t =
    append-char "B" "earer " t
    ∙ ap (char "B") (
        append-char "e" "arer " t
        ∙ ap (char "e") (
            append-char "a" "rer " t
            ∙ ap (char "a") (
                append-char "r" "er " t
                ∙ ap (char "r") (
                    append-char "e" "r " t
                    ∙ ap (char "e") (
                        append-char "r" " " t
                        ∙ ap (char "r")
                            (append-char " " "" t ∙ ap (char " ") (append-nil_left t)))))))

bearer-token_of :
    (t : String) → before_space t ≡ t → t ≢ "" → token_of (header_of (some t)) ≡ some t
unfolding token_of
bearer-token_of t plain filled =
    let full : str_eq t "" ≡ false = ground (arith, eq_iff t "") in
    ap (λ h. token_of (some h)) (bearer_spelled t) ∙ rw (plain, full) refl

-- The credentials are those of an enabled account.
pub record IsAccount (k : Crypto) (validate : Credentials → Option String) (body : Credentials)
    (s : AuthDb) (u : Admin) (p : AdminPassword) : Type 0 where
  pub accepted : validate body ≡ none
  pub registered : first (has_email body.email) s.admins ≡ some u
  pub enabled : u.enabled ≡ true
  pub has_password : first (is_live_password u.id) s.passwords ≡ some p
  pub right : k.compare (append p.salt body.password) p.password ≡ true

abbrev session_for : Crypto → Credentials → Admin → Session
session_for k body u =
    session_of u (k.sign u.id (if body.remember then 365 * 24 else 24))
      (if body.remember then some 365 else none)

login-session_for :
    (k : Crypto) (validate : Credentials → Option String) (body : Credentials) (s : AuthDb)
    (u : Admin) (p : AdminPassword)
    → IsAccount k validate body s u p
    → (login in_memory k validate body s).0
      ≡ reply 200 true (some (session_for k body u)) (text "Successfully login user")
unfolding login
login-session_for k validate body s u p a =
    rw (login, a.accepted, a.registered, a.enabled, a.has_password, auth_user, a.right) refl

-- What the client makes of that answer.
client_login :
    {J S : Type 0} (base timestamp : String) (send : Sent J → Option String → Exchange Session)
    (j : J) (b : Browser String) (w : World Session S) (e : Session)
    → send (auth_sent_by base timestamp (login_request j)) b.authorization
      ≡ axios_of_session (reply 200 true (some e) (text "Successfully login user"))
    → (login_action (answer_of (perform_auth base timestamp send (login_request j) b).0) w).store
        ≡ logged_in (user e)
      × ((login_action (answer_of (perform_auth base timestamp send (login_request j) b).0) w).auth
          ≡ some (logged_in (user e)))
unfolding perform_auth login_action auth_reducer catch_errors
client_login base timestamp send j b w e got = rw (perform_auth, got) (refl, refl)

-- The client after the answer: its store, and the browser of its next request.
abbrev pub world_after :
    {J S : Type 0}
    → String
    → String
    → (Sent J → Option String → Exchange Session)
    → J
    → Browser String
    → World Session S
    → World Session S
world_after base timestamp send j b w =
    login_action (answer_of (perform_auth base timestamp send (login_request j) b).0) w

abbrev pub browser_after :
    {J S : Type 0}
    → String
    → String
    → (Sent J → Option String → Exchange Session)
    → J
    → Browser String
    → World Session S
    → Browser String
browser_after base timestamp send j b w =
    record (perform_auth base timestamp send (login_request j) b).1 {
      auth = stored_of (world_after base timestamp send j b w).auth;
    }

include_token-stored :
    (b : Browser String) (t : String)
    → b.auth ≡ stored t
    → (c : Browser String) × (include_token b ≡ some c) × (c.authorization ≡ some t)
unfolding include_token
include_token-stored b t e = rw (include_token, e) (_, refl, refl)

-- A login of the client that axios brings to the server's login, with the credentials of an enabled
-- account: the client's store is logged in as a session, and the client's next request carries a
-- header with which it passes the token's gate as that account. Ids and the users of password
-- documents are distinct, and a signed token is not empty and has no space.
pub login-include_token :
    {J S : Type 0} (base timestamp : String) (send : Sent J → Option String → Exchange Session)
    (j : J) (b : Browser String) (w : World Session S) (db : Mongoose) (k : Crypto)
    (validate : Credentials → Option String) (body : Credentials) (s : AuthDb) (u : Admin)
    (p : AdminPassword)
    → IsMongoose db
    → IsCrypto k
    → IsCompact k
    → HasKeys s
    → IsAccount k validate body s u p
    → send (auth_sent_by base timestamp (login_request j)) b.authorization
      ≡ axios_of_session (login db k validate body s).0
    → (e : Session) × (c : Browser String) × (v : Admin) × ((world_after base timestamp send j b
          w).store
        ≡ logged_in (user e))
      × (include_token (browser_after base timestamp send j b w) ≡ some c)
      × (v.id ≡ u.id)
      × (is_valid_auth_token db k (header_of c.authorization) (login db k validate body s).1
          ≡ next v)
login-include_token base timestamp send j b w db k validate body s u p m h compact keys a got =
    let served : (login db k validate body s).0
        ≡ reply 200 true (some (session_for k body u)) (text "Successfully login user") =
      rw (eq-in_memory m) (login-session_for k validate body s u p a) in
    let (shown, kept) =
      client_login base timestamp send j b w (session_for k body u)
        (got ∙ ap axios_of_session served) in
    let t = (session_for k body u).token in
    let (c, started, authorized) =
      include_token-stored (browser_after base timestamp send j b w) t (ap stored_of kept) in
    let (plain, filled) = compact u.id (if body.remember then 365 * 24 else 24) in
    let (v, same, passed) =
      login-is_valid_auth_token db k validate body s _ (session_for k body u)
        (header_of c.authorization) m h keys served refl
        (ap (λ x. token_of (header_of x)) authorized ∙ bearer-token_of t plain filled) in
    (session_for k body u, c, v, shown, started, same, passed)
