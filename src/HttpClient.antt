-- ===== src/HttpClient.antt =====
-- frontend/src/request: the client's requests over axios, what the handlers make of the answers, and
-- the part of the browser that they read and write.
pub mod Query
pub mod Requests
pub mod Laws
pub mod Auth
use dev_ops_projet.Base.{
  ℕ, zero, suc, ◌==◌, String, str_eq, Bool, true, false, not, ◌&&◌, ◌||◌, Option, none, some, List,
  [], ◌∷◌, ◌++◌, if◌then◌else◌,
}
use dev_ops_projet.Redux.{absent}
use dev_ops_projet.Redux.Actions.{Reply}

-- `data` of an answer: what the actions read of it, `jwtExpired` and `error.name`.
pub record Data (A : Type 0) : Type 0 where
  pub reply : Reply A
  pub jwt_expired : Bool
  pub error_name : Option String

-- A response of axios, its `data` as `body`; a status that is missing is 0.
pub record HttpResponse (A : Type 0) : Type 0 where
  pub status : ℕ
  pub body : Option (Data A)

-- What a call of axios gives: a response, or an error that may have one.
pub data Exchange (A : Type 0) : Type 0 where
  answered : HttpResponse A → Exchange A
  failed : Option (HttpResponse A) → Exchange A

-- A notification of antd, by the status that it shows.
pub data Note : Type 0 where
  success_note : Note
  error_note : ℕ → Note
  offline_note problem_note : Note

-- What local storage holds under 'auth', as `storePersist.get` gives it. `T` is what
-- `auth.current.token` can be; `broken` is a login whose `current` is null.
pub data StoredAuth (T : Type 0) : Type 0 where
  no_auth : StoredAuth T
  broken : StoredAuth T
  stored : T → StoredAuth T

-- `href` is the address that was set last; `authorization` is axios's default header.
pub record Browser (T : Type 0) : Type 0 where
  pub online : Bool
  pub auth : StoredAuth T
  pub is_logout : Bool
  pub href : Option String
  pub authorization : Option T
  pub notes : List Note

module _ {A : Type 0} where
  abbrev pub failure : Reply A
  failure = record { success = false; result = absent; pagination = none }

  abbrev pub expired : HttpResponse A → Bool
  expired r = elim r.body [ none ↦ false | some d ↦ d.jwt_expired ]

  abbrev pub is_token_error : HttpResponse A → Bool
  is_token_error r = elim r.body [
    | none ↦ false
    | some d ↦ elim d.error_name [ none ↦ false | some n ↦ str_eq n "JsonWebTokenError" ]
  ]

  abbrev pub reply_of : HttpResponse A → Option (Reply A)
  reply_of r = elim r.body [ none ↦ none | some d ↦ some d.reply ]

module _ {T : Type 0} where
  abbrev pub notify : Note → Browser T → Browser T
  notify n b = record b { notes = b.notes ++ n ∷ [] }

  abbrev pub is_stored : StoredAuth T → Bool
  is_stored no_auth = false
  is_stored broken = true
  is_stored (stored t) = true

  -- `removeItem` of 'auth' and of 'isLogout'.
  abbrev pub forget : Browser T → Browser T
  forget b = record b { auth = no_auth; is_logout = false }

  -- `none` is the TypeError of a property of null.
  unfoldable pub include_token : Browser T → Option (Browser T)
  include_token b = elim b.auth [
    | no_auth ↦ some b
    | broken ↦ none
    | stored token ↦ some (record b { authorization = some token })
  ]

  module _ {A : Type 0} where
    -- `notifyOnSuccess` and `notifyOnFailed`.
    unfoldable pub success_handler : HttpResponse A → Bool → Bool → Browser T → Browser T
    success_handler response notify_on_success notify_on_failed b =
        if succeeded response.body
        then if notify_on_success then notify success_note b else b
        else if notify_on_failed
        then notify (error_note response.status) b
        else b
      where
        succeeded : Option (Data A) → Bool
        succeeded none = false
        succeeded (some d) = d.reply.success

    -- The part of `errorHandler` for `jwtExpired`.
    abbrev pub drop_expired : HttpResponse A → Browser T → Browser T
    drop_expired r b =
        if expired r
        then (let c = forget b in
            if is_stored b.auth || b.is_logout then record c { href = some "/logout" } else c)
        else b

    -- What the action gets, `none` for undefined, and the browser after it.
    unfoldable pub error_handler :
        Option (HttpResponse A) → Browser T → Option (Reply A) × Browser T
    error_handler response b =
        if not b.online then (some failure, notify offline_note b) else elim response [
          | none ↦ (some failure, b)
          | some r ↦
              let c = drop_expired r b in
              if not (r.status == 0)
              then (let d = notify (error_note r.status) c in
                  if is_token_error r
                  then (none, record (forget d) { href = some "/logout" })
                  else (reply_of r, d))
              else if c.online
              then (some failure, notify problem_note c)
              else (some failure, notify offline_note c)
        ]
