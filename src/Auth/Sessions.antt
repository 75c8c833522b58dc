-- ===== src/Auth/Sessions.antt =====
-- What a session is worth: login, the gate, logout and the reset of a password together.
use Prim.Native.String
use dev_ops_projet.Base.{
  ℕ, ◌≡◌, refl, ◌∙◌, String, true, false, not, Option, some, inl, inr, List, [], ◌∷◌, ◌++◌, arith,
  Bool-cases, Option-cases, ==_iff, ==_refl, ap, if◌then◌else◌, ◌*◌, str_eq, includes, ◌↔◌, eq_iff,
}
use dev_ops_projet.Http.{Message, Response, respond, reply}
use dev_ops_projet.Mongo.Keys.{Distinct, first-eq-true}
use dev_ops_projet.Mongo.Lookup.{first_by_key, first-update_first}
use dev_ops_projet.Auth.Login.{Credentials, auth_user, login, push_session}
use dev_ops_projet.Mongo.{Mongoose, in_memory, first, update_first, select}
use dev_ops_projet.Mongo.Laws.{IsMongoose, eq-in_memory}
use dev_ops_projet.Auth.{
  Admin, AdminPassword, AuthDb, Crypto, IsCrypto, Session, session_of, has_email, of_user, holds,
  is_live_admin, is_live_password,
}
use dev_ops_projet.Auth.Header.{token_of}
use dev_ops_projet.Auth.Gate.{next, is_valid_auth_token}

-- The bearer of the header is `u`: the token verifies for `u`, who is not removed, and is among the
-- sessions of `u`'s password document.
abbrev pub Bears : Crypto → Option String → AuthDb → Admin → Type 0
Bears k header s u =
    (token : String) × (id : ℕ) × (p : AdminPassword) × (token_of header ≡ some token)
    × (k.verify token ≡ holds id)
    × (first (is_live_admin id) s.admins ≡ some u)
    × (first (is_live_password id) s.passwords ≡ some p)
    × (includes p.logged_sessions token ≡ true)

pub gate_sound :
    (k : Crypto) (header : Option String) (s : AuthDb) (u : Admin)
    → is_valid_auth_token in_memory k header s ≡ next u
    → Bears k header s u
unfolding is_valid_auth_token
gate_sound k header s u e = ground arith

pub gate_complete :
    (k : Crypto) (header : Option String) (s : AuthDb) (u : Admin)
    → Bears k header s u
    → is_valid_auth_token in_memory k header s ≡ next u
unfolding is_valid_auth_token
gate_complete k header s u (token, id, p, bearer, verified, user, pass, logged) =
    rw (is_valid_auth_token, bearer, verified, user, pass, logged)

includes-append : (ts : List String) (t : String) → includes (ts ++ t ∷ []) t ≡ true
unfolding includes
includes-append [] t = rw ((eq_iff t t).1 refl)
includes-append (x ∷ xs) t = ground (arith, includes-append xs t)

pub includes-pull :
    (ts : List String) (t : String) → includes (select (λ x. not (str_eq x t)) ts) t ≡ false
unfolding includes
includes-pull [] t = refl
includes-pull (x ∷ xs) t = elim (Bool-cases (str_eq x t)) [
  | inl e ↦ rw e (includes-pull xs t)
  | inr e ↦ rw (e, e) (includes-pull xs t)
]

-- Keys of the two collections: `_id`, and `user`, which the schema declares unique.
pub record HasKeys (s : AuthDb) : Type 0 where
  pub admins : Distinct (λ u. u.id) s.admins
  pub passwords : Distinct (λ p. p.user) s.passwords

-- A write to the user's password document that leaves `t` among the sessions lets `t` through.
pushed_Bears :
    (k : Crypto) (header : Option String) (s : AuthDb) (u : Admin) (p : AdminPassword) (t : String)
    (f : AdminPassword → AdminPassword)
    → HasKeys s
    → ((x : AdminPassword) → (f x).user ≡ x.user)
    → ((x : AdminPassword) → not (f x).removed ≡ not x.removed)
    → includes (f p).logged_sessions t ≡ true
    → token_of header ≡ some t
    → k.verify t ≡ holds u.id
    → first (is_live_admin u.id) s.admins ≡ some u
    → first (is_live_password u.id) s.passwords ≡ some p
    → Bears k header (record s { passwords = update_first (of_user u.id) f s.passwords }) u
pushed_Bears k header s u p t f keys keeps lives logged bearer verified user pass = (
  t,
  u.id,
  f p,
  bearer,
  verified,
  user,
  first-update_first (λ x. x.user) u.id (λ x. not x.removed) f keeps lives s.passwords p
      keys.passwords pass,
  logged,
)

session_parts :
    (u : Admin) (t : String) (max_age : Option ℕ) (r : Response Session) (e : Session) {m : Message}
    → reply 200 true (some (session_of u t max_age)) m ≡ respond r
    → r.result ≡ some e
    → (u.id ≡ e.id) × (e.token ≡ t)
session_parts u t max_age r e answer session = ground arith

-- The user found by the email is the one that the id of the session finds.
pub by_email :
    (email : String) (s : AuthDb) (u : Admin)
    → HasKeys s
    → first (has_email email) s.admins ≡ some u
    → first (is_live_admin u.id) s.admins ≡ some u
by_email email s u keys user =
    first_by_key (λ x. x.id) (has_email email) (is_live_admin u.id) s.admins u keys.admins
      (λ x e. ground (arith, ==_iff x.id u.id))
      (live (first-eq-true (has_email email) s.admins u user)) user
  where
    live : has_email email u ≡ true → is_live_admin u.id u ≡ true
    live e = ground (arith, ==_refl u.id)

module _ (k : Crypto) (laws : IsCrypto k) where
  -- What `auth_user` does on a 200.
  login-in_memory :
      (validate : Credentials → Option String) (body : Credentials) (s : AuthDb)
      (r : Response Session) (e : Session) (header : Option String)
      → HasKeys s
      → (login in_memory k validate body s).0 ≡ respond r
      → r.result ≡ some e
      → token_of header ≡ some e.token
      → (u : Admin) × (u.id ≡ e.id) × Bears k header (login in_memory k validate body s).1 u
  unfolding login
  login-in_memory validate body s r e header keys answer session bearer =
      elim (Option-cases (validate body)) [
        | inr (m, bad) ↦ cc (rw (login, bad) at answer)
        | inl fine ↦ elim (Option-cases (first (has_email body.email) s.admins)) [
          | inl nobody ↦ cc (rw (login, fine, nobody) at answer)
          | inr (u, user) ↦ elim (Bool-cases u.enabled) [
            | inr off ↦ cc (rw (login, fine, user, off) at answer)
            | inl enabled ↦ elim (Option-cases (first (is_live_password u.id) s.passwords)) [
              | inl nopass ↦ cc (rw (login, fine, user, enabled, nopass, auth_user) at answer)
              | inr (p, pass) ↦
                  elim (Bool-cases (k.compare (String.◌++◌ p.salt body.password) p.password)) [
                    | inr wrong ↦
                        cc (rw (login, fine, user, enabled, pass, auth_user, wrong) at answer)
                    | inl right ↦
                        let t = k.sign u.id (if body.remember then 365 * 24 else 24) in
                        let given =
                          rw (login, fine, user, enabled, pass, auth_user, right) at answer in
                        let (same_id, same_token) = session_parts u t _ r e given session in
                        rw (login, fine, user, enabled, pass, auth_user, right)
                          (
                            u,
                            same_id,
                            pushed_Bears k header s u p t (push_session t) keys (λ x. refl)
                                (λ x. refl) (includes-append p.logged_sessions t)
                                (bearer ∙ ap some same_token) (laws.verify-sign u.id _)
                                (by_email body.email s u keys user) pass,
                          )
                  ]
            ]
          ]
        ]
      ]

-- The gate lets a request through, as `u`, exactly when its bearer is `u`: the token verifies for
-- the id of `u`, who is not removed, and is among the sessions of `u`'s live password document.
pub is_valid_auth_token_iff :
    (db : Mongoose) (k : Crypto) (header : Option String) (s : AuthDb) (u : Admin)
    → IsMongoose db
    → (is_valid_auth_token db k header s ≡ next u) ↔ Bears k header s u
is_valid_auth_token_iff db k header s u m =
    rw (eq-in_memory m) ((gate_sound k header s u, gate_complete k header s u))

-- After a login that is answered with a session, a request that carries the session's token passes
-- the gate, as the user of the session.
pub login-is_valid_auth_token :
    (db : Mongoose) (k : Crypto) (validate : Credentials → Option String) (body : Credentials)
    (s : AuthDb) (r : Response Session) (e : Session) (header : Option String)
    → IsMongoose db
    → IsCrypto k
    → HasKeys s
    → (login db k validate body s).0 ≡ respond r
    → r.result ≡ some e
    → token_of header ≡ some e.token
    → (u : Admin) × (u.id ≡ e.id)
      × (is_valid_auth_token db k header (login db k validate body s).1 ≡ next u)
login-is_valid_auth_token db k validate body s r e header m laws keys =
    rw (eq-in_memory m) (λ answer session bearer.
      let (u, same, bears) =
        login-in_memory k laws validate body s r e header keys answer session bearer in
      (u, same, gate_complete k header _ u bears))
