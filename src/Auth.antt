-- ===== src/Auth.antt =====
-- backend/src/controllers/middlewaresControllers/createAuthMiddleware, for the model Admin: the
-- documents of coreModels/Admin.js and AdminPassword.js, the libraries as parameters, and the reading
-- of the request's header. The handlers are in the children.
pub mod Header
pub mod Login
pub mod Gate
pub mod Password
pub mod Sessions
pub mod Recovery
pub mod Profile
pub mod Renewal
pub mod Url
use dev_ops_projet.Base.{ℕ, ◌≡◌, String, Bool, true, Option, List, str_eq, not, ◌&&◌, ◌==◌}

pub record Admin : Type 0 where
  pub id : ℕ
  pub removed : Bool
  pub enabled : Bool
  pub email : String
  pub name : String
  pub surname : Option String
  pub photo : Option String
  pub role : String

pub record AdminPassword : Type 0 where
  pub user : ℕ
  pub removed : Bool
  pub password : String
  pub salt : String
  pub email_token : Option String
  pub reset_token : Option String
  pub email_verified : Bool
  pub logged_sessions : List String

pub record AuthDb : Type 0 where
  pub admins : List Admin
  pub passwords : List AdminPassword

-- What `jwt.verify` does with a token: it throws, or gives the payload, whose `id` is read.
pub data Verification : Type 0 where
  fails : String → Verification
  empty : Verification
  holds : ℕ → Verification

-- bcryptjs and jsonwebtoken; `expires` is `expiresIn` in hours.
pub record Crypto : Type 0 where
  pub compare : (plain hash : String) → Bool
  pub hash_sync : String → String
  pub sign : (id expires : ℕ) → String
  pub verify : String → Verification

-- Documented: a text matches its own hash, and a signed token verifies while it has not expired.
pub record IsCrypto (k : Crypto) : Type 0 where
  pub compare-hash_sync : (s : String) → k.compare s (k.hash_sync s) ≡ true
  pub verify-sign : (id expires : ℕ) → k.verify (k.sign id expires) ≡ holds id

-- The answer to a login or a password reset.
pub record Session : Type 0 where
  pub id : ℕ
  pub name : String
  pub surname : Option String
  pub role : String
  pub email : String
  pub photo : Option String
  pub token : String
  pub max_age : Option ℕ

abbrev pub session_of : Admin → String → Option ℕ → Session
session_of user token max_age = record {
  id = user.id;
  name = user.name;
  surname = user.surname;
  role = user.role;
  email = user.email;
  photo = user.photo;
  token = token;
  max_age = max_age;
}

-- The filters of the queries.
abbrev pub has_email : String → Admin → Bool
has_email email u = str_eq u.email email && not u.removed

abbrev pub is_live_admin : ℕ → Admin → Bool
is_live_admin id u = u.id == id && not u.removed

abbrev pub of_user : ℕ → AdminPassword → Bool
of_user id p = p.user == id

abbrev pub is_live_password : ℕ → AdminPassword → Bool
is_live_password id p = p.user == id && not p.removed
