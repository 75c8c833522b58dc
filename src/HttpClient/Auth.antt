-- ===== src/HttpClient/Auth.antt =====
-- frontend/src/auth/auth.service.js: the requests of the login, which do not read the stored token.
use Prim.Native.String.{◌++◌ as append}
use dev_ops_projet.Base.{
  ◌≡◌, refl, ap, ◌∙◌, String, Bool, true, false, ◌⊎◌, inl, inr, Option, none, some,
}
use dev_ops_projet.Redux.Actions.{Reply}
use dev_ops_projet.HttpClient.{
  HttpResponse, Exchange, answered, failed, Browser, success_handler, reply_of, error_handler,
}
use dev_ops_projet.HttpClient.Requests.{Sent, post_method, get_method}
use dev_ops_projet.HttpClient.Laws.{error_handler-source}

pub data AuthRequest (J : Type 0) : Type 0 where
  login register reset_password : J → AuthRequest J
  verify : (user_id email_token : String) → AuthRequest J
  logout : AuthRequest J

module _ {J : Type 0} (base timestamp : String) where
  -- `base` is API_BASE_URL, and `timestamp` the time in the address. A logout has no body.
  unfoldable pub auth_sent_by : AuthRequest J → Sent J
  auth_sent_by (login j) = record {
    method = post_method;
    url = append (append base "login?timestamp=") timestamp;
    body = some j;
    multipart = false;
  }
  auth_sent_by (register j) = record {
    method = post_method;
    url = append base "register";
    body = some j;
    multipart = false;
  }
  auth_sent_by (verify user_id email_token) = record {
    method = get_method;
    url = append (append base "verify/") (append user_id (append "/" email_token));
    body = none;
    multipart = false;
  }
  auth_sent_by (reset_password j) = record {
    method = post_method;
    url = append base "resetpassword";
    body = some j;
    multipart = false;
  }
  auth_sent_by logout = record {
    method = post_method;
    url = append (append base "logout?timestamp=") timestamp;
    body = none;
    multipart = false;
  }

  -- `notifyOnSuccess`; all have `notifyOnFailed`.
  abbrev pub notifies_success : AuthRequest J → Bool
  notifies_success (login j) = false
  notifies_success logout = false
  notifies_success _ = true

  module _ {T A : Type 0} (send : Sent J → Option T → Exchange A) where
    unfoldable pub perform_auth : AuthRequest J → Browser T → Option (Reply A) × Browser T
    perform_auth q b = elim (send (auth_sent_by q) b.authorization) [
      | answered response ↦
          (reply_of response, success_handler response (notifies_success q) true b)
      | failed response ↦ error_handler response b
    ]

    -- A success that reaches the login's action is what a response of the server carries.
    perform_auth-success :
        (q : AuthRequest J) (b : Browser T) (r : Reply A)
        → (perform_auth q b).0 ≡ some r
        → r.success ≡ true
        → (y : HttpResponse A) × ((send (auth_sent_by q) b.authorization ≡ answered y)
            ⊎ (send (auth_sent_by q) b.authorization ≡ failed (some y)))
          × (reply_of y ≡ some r)
    unfolding perform_auth
    perform_auth-success q b r e ok = from_exchange (send (auth_sent_by q) b.authorization) refl
      where
        from_exchange :
            (x : Exchange A)
            → send (auth_sent_by q) b.authorization ≡ x
            → (y : HttpResponse A) × ((send (auth_sent_by q) b.authorization ≡ answered y)
                ⊎ (send (auth_sent_by q) b.authorization ≡ failed (some y)))
              × (reply_of y ≡ some r)
        from_exchange (answered y) got = (y, inl got, rw (perform_auth, got) at e)
        from_exchange (failed x) got =
            let (y, has, gives) = error_handler-source x b r (rw (perform_auth, got) at e) ok in
            (y, inr (got ∙ ap failed has), gives)
