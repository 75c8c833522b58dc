-- ===== src/Tests/Logins.antt =====
-- A login of the client that a server without any other request answers.
use Prim.Native.String.{◌∷◌ as char}
use dev_ops_projet.Base.{
  ℕ, zero, suc, ◌≡◌, ◌≢◌, refl, ap, eq_iff, str_eq, String, true, false, Option, none, some, [],
  ◌∷◌,
}
use dev_ops_projet.Mongo.{in_memory}
use dev_ops_projet.Auth.{
  Admin, AdminPassword, AuthDb, Crypto, IsCrypto, Session, Verification, fails, holds,
}
use dev_ops_projet.Auth.Header.{before_space}
use dev_ops_projet.Auth.Login.{Credentials, login}
use dev_ops_projet.Auth.Gate.{next, is_valid_auth_token}
use dev_ops_projet.Auth.Sessions.{HasKeys}
use dev_ops_projet.HttpClient.{Exchange, Browser, no_auth, include_token}
use dev_ops_projet.HttpClient.Requests.{Sent}
use dev_ops_projet.Session.{user, initial_state}
use dev_ops_projet.Session.Actions.{World, logged_in}
use dev_ops_projet.EndToEnd.Login.{
  IsCompact, IsAccount, axios_of_session, header_of, world_after, browser_after,
  login-include_token,
}
use dev_ops_projet.Tests.Models.{in_memory-IsMongoose, unary, size, size-unary}

-- A token is a letter and one more for each unit of the id.
abbrev payload : String → Verification
payload String.[] = fails "empty"
payload (char c s) = holds (size s)

abbrev lettered : Crypto
lettered = record {
  compare = str_eq;
  hash_sync = λ s. s;
  sign = λ id expires. unary (suc id);
  verify = payload;
}

lettered-IsCrypto : IsCrypto lettered
lettered-IsCrypto = record {
  compare-hash_sync = λ s. (eq_iff s s).1 refl;
  verify-sign = λ id expires. ap holds (size-unary id);
}

unary-plain : (n : ℕ) → before_space (unary n) ≡ unary n
unary-plain zero = refl
unary-plain (suc n) = ap (char "a") (unary-plain n)

unary-filled : (n : ℕ) → unary (suc n) ≢ ""
unary-filled n e = cc (ap size e)

lettered-IsCompact : IsCompact lettered
lettered-IsCompact id expires = (unary-plain (suc id), unary-filled id)

abbrev ann : Admin
ann = record {
  id = 4;
  removed = false;
  enabled = true;
  email = "a@b.c";
  name = "Ann";
  surname = none;
  photo = none;
  role = "owner";
}

abbrev ann_password : AdminPassword
ann_password = record {
  user = 4;
  removed = false;
  password = "salt-secret";
  salt = "salt-";
  email_token = none;
  reset_token = none;
  email_verified = true;
  logged_sessions = [];
}

abbrev accounts : AuthDb
accounts = record { admins = ann ∷ []; passwords = ann_password ∷ [] }

accounts-HasKeys : HasKeys accounts
accounts-HasKeys = record { admins = (tt, tt); passwords = (tt, tt) }

abbrev creds : Credentials
creds = record { email = "a@b.c"; password = "secret"; remember = false }

abbrev accept : Credentials → Option String
accept c = none

ann-IsAccount : IsAccount lettered accept creds accounts ann ann_password
ann-IsAccount = record {
  accepted = refl;
  registered = refl;
  enabled = refl;
  has_password = refl;
  right = refl;
}

abbrev server : Sent Credentials → Option String → Exchange Session
server sent token = axios_of_session (login in_memory lettered accept creds accounts).0

abbrev visitor : Browser String
visitor = record {
  online = true;
  auth = no_auth;
  is_logout = true;
  href = none;
  authorization = none;
  notes = [];
}

abbrev start : World Session ℕ
start = record { store = initial_state; auth = none; settings = none; is_logout = true }

client_login_example :
    (e : Session) × (c : Browser String) × (v : Admin) × ((world_after "api/" "1" server creds
        visitor start).store
      ≡ logged_in (user e))
    × (include_token (browser_after "api/" "1" server creds visitor start) ≡ some c)
    × (v.id ≡ 4)
    × (is_valid_auth_token in_memory lettered
          (header_of c.authorization)
          (login in_memory lettered accept creds accounts).1
        ≡ next v)
client_login_example =
    login-include_token "api/" "1" server creds visitor start in_memory lettered accept creds
      accounts ann ann_password in_memory-IsMongoose lettered-IsCrypto lettered-IsCompact
      accounts-HasKeys ann-IsAccount refl
