-- ===== src/HttpClient/Requests.antt =====
-- request.js: what each operation sends, and what it gives to the action that called it.
use Prim.Native.String.{◌++◌ as append}
use dev_ops_projet.Base.{String, Bool, true, false, Option, none, some, List}
use dev_ops_projet.Redux.Actions.{Reply}
use dev_ops_projet.HttpClient.{
  HttpResponse, Exchange, answered, failed, Browser, include_token, success_handler, reply_of,
  error_handler,
}
use dev_ops_projet.HttpClient.Query.{query_of, filter_query}

pub data Method : Type 0 where
  post_method get_method patch_method delete_method : Method

-- What axios is called with; `J` is the type of `jsonData`.
pub record Sent (J : Type 0) : Type 0 where
  pub method : Method
  pub url : String
  pub body : Option J
  pub multipart : Bool

-- The operations with their `entity`, `id`, `jsonData` and `options`.
pub data Request (J : Type 0) : Type 0 where
  create create_and_upload post patch mail : String → J → Request J
  read delete convert : String → String → Request J
  update update_and_upload upload : String → String → J → Request J
  filter : String → Option String → Option String → Request J
  search list list_all summary : String → List (String × String) → Request J
  get : String → Request J

-- `entity + path + id`
abbrev at_id : String → String → String → String
at_id entity path id = append (append entity path) id

module _ {J : Type 0} where
  abbrev with_body : Method → String → J → Sent J
  with_body m url j = record { method = m; url = url; body = some j; multipart = false }

  abbrev with_form : Method → String → J → Sent J
  with_form m url j = record { method = m; url = url; body = some j; multipart = true }

  abbrev bare : Method → String → Sent J
  bare m url = record { method = m; url = url; body = none; multipart = false }

  unfoldable pub sent_by : Request J → Sent J
  sent_by (create entity j) = with_body post_method (append entity "/create") j
  sent_by (create_and_upload entity j) = with_form post_method (append entity "/create") j
  sent_by (read entity id) = bare get_method (at_id entity "/read/" id)
  sent_by (update entity id j) = with_body patch_method (at_id entity "/update/" id) j
  sent_by (update_and_upload entity id j) = with_form patch_method (at_id entity "/update/" id) j
  sent_by (delete entity id) = bare delete_method (at_id entity "/delete/" id)
  sent_by (filter entity f equal) = bare get_method (at_id entity "/filter" (filter_query f equal))
  sent_by (search entity options) = bare get_method (at_id entity "/search" (query_of options))
  sent_by (list entity options) = bare get_method (at_id entity "/list" (query_of options))
  sent_by (list_all entity options) = bare get_method (at_id entity "/listAll" (query_of options))
  sent_by (post entity j) = with_body post_method entity j
  sent_by (get entity) = bare get_method entity
  sent_by (patch entity j) = with_body patch_method entity j
  sent_by (upload entity id j) = with_form patch_method (at_id entity "/upload/" id) j
  sent_by (summary entity options) = bare get_method (at_id entity "/summary" (query_of options))
  sent_by (mail entity j) = with_body post_method (append entity "/mail/") j
  sent_by (convert entity id) = bare get_method (at_id entity "/convert/" id)

  -- What the call of `successHandler` has for `notifyOnSuccess` and `notifyOnFailed`; `post` and `get`
  -- do not call it.
  abbrev pub notifies : Request J → Option (Bool × Bool)
  notifies (read entity id) = some (false, true)
  notifies (filter entity f equal) = some (false, false)
  notifies (search entity options) = some (false, false)
  notifies (list entity options) = some (false, false)
  notifies (list_all entity options) = some (false, false)
  notifies (summary entity options) = some (false, false)
  notifies (post entity j) = none
  notifies (get entity) = none
  notifies _ = some (true, true)

  -- An operation: the token, axios, and one of the two handlers. `send` is axios and the server behind
  -- it, given what is sent and the default header. A TypeError has no response.
  module _ {T A : Type 0} (send : Sent J → Option T → Exchange A) where
    abbrev handled : Option (Bool × Bool) → HttpResponse A → Browser T → Browser T
    handled none response b = b
    handled (some (on_success, on_failed)) response b =
        success_handler response on_success on_failed b

    unfoldable pub perform : Request J → Browser T → Option (Reply A) × Browser T
    perform q b = elim (include_token b) [
      | none ↦ error_handler none b
      | some c ↦ elim (send (sent_by q) c.authorization) [
        | answered response ↦ (reply_of response, handled (notifies q) response c)
        | failed response ↦ error_handler response c
      ]
    ]
