-- ===== src/Http.antt =====
-- backend/src/handlers/errorHandlers.js and the answers that the controllers give. A handler maps
-- the state to an outcome and the new state; what was written before a throw stays written.
use dev_ops_projet.Base.{ℕ, ℤ, String, Bool, false, Option, none, some}

-- What can be thrown: mongoose's ValidationError, the TypeError of a property of null or undefined,
-- the error of an unbound name, and the errors of libraries and drivers with their message.
pub data Error : Type 0 where
  validation_error type_error reference_error : Error
  library_error : String → Error

-- The texts of the answers. `max_amount`, `of_id`, `of_key` and `of_period` are texts that end
-- in a value, `of_error` is the message of a caught error, and `msg` a body that holds `msg` alone.
pub data Message : Type 0 where
  text : String → Message
  max_amount : ℤ → Message
  of_id : String → ℕ → Message
  of_key : String → String → Message
  of_period : String → String → Message
  of_error : Error → Message
  msg : String → Message

-- A field that an answer leaves out is read as `false` or `none`.
pub record Response (R : Type 0) : Type 0 where
  pub status : ℕ
  pub success : Bool
  pub result : Option R
  pub message : Message
  pub jwt_expired : Bool

abbrev pub json : {R : Type 0} → ℕ → Bool → Option R → Message → Response R
json code good r m = record {
  status = code;
  success = good;
  result = r;
  message = m;
  jwt_expired = false;
}

-- `unhandled` is a rejected promise that nothing awaits: the request gets no answer.
pub data Outcome (R : Type 0) : Type 0 where
  respond : Response R → Outcome R
  throw : Error → Outcome R
  unhandled : Error → Outcome R

abbrev pub reply : {R : Type 0} → ℕ → Bool → Option R → Message → Outcome R
reply code good r m = respond (json code good r m)

-- `catchErrors`: what the client receives, if anything.
unfoldable pub catch_errors : {R : Type 0} → Outcome R → Option (Response R)
catch_errors (respond r) = some r
catch_errors (throw validation_error) =
    some (json 400 false none (text "Required fields are not supplied"))
catch_errors (throw e) = some (json 500 false none (of_error e))
catch_errors (unhandled e) = none

-- `notFound`, `developmentErrors` and `productionErrors`.
pub not_found : {R : Type 0} → Response R
not_found = json 404 false none (text "Api url doesn't exist ")

pub development_errors : {R : Type 0} → Error → Response R
development_errors e = json 500 false none (of_error e)

pub production_errors : {R : Type 0} → Error → Response R
production_errors e = json 500 false none (of_error e)
