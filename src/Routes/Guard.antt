-- ===== src/Routes/Guard.antt =====
-- What the gate keeps from the handlers.
use dev_ops_projet.Base.{
  ℕ, ◌≡◌, refl, sym, ap, ◌∙◌, arith, String, Bool, true, false, ◌&&◌, ◌||◌, Option, some, List,
  Bool-cases, inl, inr,
}
use dev_ops_projet.Http.{Outcome, respond, Response}
use dev_ops_projet.Mongo.{Mongoose}
use dev_ops_projet.Mongo.Laws.{IsMongoose}
use dev_ops_projet.Auth.{Admin, AuthDb, Crypto, holds}
use dev_ops_projet.Auth.Header.{token_of}
use dev_ops_projet.Auth.Gate.{Gate, next, deny, is_valid_auth_token, logout}
use dev_ops_projet.Auth.Recovery.{logout-is_valid_auth_token}
use dev_ops_projet.Auth.Sessions.{HasKeys}
use dev_ops_projet.Routes.{Method, post_method, same_method, Handler, denied, serve_api}

-- The requests for which there is a handler before the gate.
abbrev pub is_public : (String → String → Bool) → Method → String → Bool
is_public matches m path =
    same_method post_method m
    && (matches "/login" path || matches "/forgetpassword" path || matches "/resetpassword" path)

-- Every refusal of the gate tells the client that its token is over.
deny-expired :
    (db : Mongoose) (k : Crypto) (header : Option String) (s : AuthDb) (x : Response (Unit {0}))
    → is_valid_auth_token db k header s ≡ deny x
    → x.jwt_expired ≡ true
unfolding is_valid_auth_token
deny-expired db k header s x e = ground arith

module _ {R S : Type 0} (db : Mongoose) (k : Crypto) (matches : String → String → Bool)
    (run : Handler → Option Admin → S → Outcome R × S) (auth : S → AuthDb) where
  serve_api-denied :
      (entities : List String) (header : Option String) (m : Method) (path : String) (s : S)
      (x : Response (Unit {0}))
      → is_public matches m path ≡ false
      → is_valid_auth_token db k header (auth s) ≡ deny x
      → serve_api db k matches run auth entities header m path s ≡ (respond (denied x), s)
  unfolding serve_api
  serve_api-denied entities header m path s x private over =
      elim (Bool-cases (same_method post_method m)) [
        | inr other ↦ rw (serve_api, other, over) refl
        | inl post ↦
            let not_login : matches "/login" path ≡ false = ground (arith, private, post) in
            let not_forget : matches "/forgetpassword" path ≡ false =
              ground (arith, private, post) in
            let not_reset : matches "/resetpassword" path ≡ false = ground (arith, private, post) in
            elim (Bool-cases (matches "/logout" path)) [
              | inl out ↦ rw (serve_api, post, not_login, not_forget, not_reset, out, over) refl
              | inr other ↦ rw (serve_api, post, not_login, not_forget, not_reset, other, over) refl
            ]
      ]

-- After a logout with a token that verifies for the admin: a request under '/api' with the same token,
-- other than for the login and the two password routes, reaches no handler. It is answered with a
-- refusal that has `jwtExpired`, and the state stays as it was.
pub serve_api-logout :
    {R S : Type 0} (db : Mongoose) (k : Crypto) (matches : String → String → Bool)
    (run : Handler → Option Admin → S → Outcome R × S) (auth : S → AuthDb) (entities : List String)
    (header : Option String) (token : String) (admin : ℕ) (a : AuthDb) (m : Method) (path : String)
    (s : S)
    → IsMongoose db
    → HasKeys a
    → token_of header ≡ some token
    → k.verify token ≡ holds admin
    → auth s ≡ (logout db header admin a).1
    → is_public matches m path ≡ false
    → (r : Response R) × (serve_api db k matches run auth entities header m path s ≡ (respond r, s))
      × (r.jwt_expired ≡ true)
serve_api-logout {R = R} db k matches run auth entities header token admin a m path s laws keys
      bearer verified left private =
    by_gate (is_valid_auth_token db k header (auth s)) refl
  where
    by_gate :
        (g : Gate)
        → is_valid_auth_token db k header (auth s) ≡ g
        → (r : Response R) × (serve_api db k matches run auth entities header m path s
            ≡ (respond r, s))
          × (r.jwt_expired ≡ true)
    by_gate (next u) e = absurd (
        logout-is_valid_auth_token db k header token admin a u laws keys bearer verified
          (ap (is_valid_auth_token db k header) (sym left) ∙ e))
    by_gate (deny x) e = (
      denied x,
      serve_api-denied db k matches run auth entities header m path s x private e,
      deny-expired db k header (auth s) x e,
    )
