-- ===== src/Routes.antt =====
-- backend/src/app.js and the routers of backend/src/routes for '/api': which handler a request reaches,
-- and where the token's gate stands. express matches the paths.
pub mod Guard
use Prim.Native.String.{◌++◌ as append}
use dev_ops_projet.Base.{
  String, str_eq, Bool, true, false, ◌||◌, ◌&&◌, if◌then◌else◌, Option, none, some, List, [], ◌∷◌,
  ◌++◌,
}
use dev_ops_projet.Http.{Outcome, respond, Response, not_found}
use dev_ops_projet.Mongo.{Mongoose, first}
use dev_ops_projet.Auth.{Admin, AuthDb, Crypto}
use dev_ops_projet.Auth.Gate.{Gate, next, deny, is_valid_auth_token}

pub data Method : Type 0 where
  get_method post_method patch_method delete_method : Method

abbrev pub same_method : Method → Method → Bool
same_method get_method get_method = true
same_method post_method post_method = true
same_method patch_method patch_method = true
same_method delete_method delete_method = true
same_method m n = false

-- A handler, by its controller and its name.
pub data Handler : Type 0 where
  admin_auth admin_controller setting_controller : String → Handler
  app_controller : (entity name : String) → Handler

-- `guarded` tells whether the gate is among the route's own handlers.
pub record Route : Type 0 where
  pub method : Method
  pub path : String
  pub guarded : Bool
  pub handler : Handler

abbrev open_route : Method → String → Handler → Route
open_route m path h = record { method = m; path = path; guarded = false; handler = h }

-- coreAuth.js.
abbrev pub core_auth_router : List Route
core_auth_router =
    open_route post_method "/login" (admin_auth "login")
    ∷ open_route post_method "/forgetpassword" (admin_auth "forgetPassword")
    ∷ open_route post_method "/resetpassword" (admin_auth "resetPassword")
    ∷ record {
      method = post_method;
      path = "/logout";
      guarded = true;
      handler = admin_auth "logout";
    }
    ∷ []

-- coreApi.js; an upload passes `singleStorageUpload` before its handler.
unfoldable pub core_api_router : List Route
core_api_router =
    open_route get_method "/admin/read/:id" (admin_controller "read")
    ∷ open_route patch_method "/admin/password-update/:id" (admin_controller "updatePassword")
    ∷ open_route patch_method "/admin/profile/password" (admin_controller "updateProfilePassword")
    ∷ open_route patch_method "/admin/profile/update" (admin_controller "updateProfile")
    ∷ open_route post_method "/setting/create" (setting_controller "create")
    ∷ open_route get_method "/setting/read/:id" (setting_controller "read")
    ∷ open_route patch_method "/setting/update/:id" (setting_controller "update")
    ∷ open_route get_method "/setting/search" (setting_controller "search")
    ∷ open_route get_method "/setting/list" (setting_controller "list")
    ∷ open_route get_method "/setting/listAll" (setting_controller "listAll")
    ∷ open_route get_method "/setting/filter" (setting_controller "filter")
    ∷ open_route get_method "/setting/readBySettingKey/:settingKey"
        (setting_controller "readBySettingKey")
    ∷ open_route get_method "/setting/listBySettingKey" (setting_controller "listBySettingKey")
    ∷ open_route patch_method "/setting/updateBySettingKey/:settingKey?"
        (setting_controller "updateBySettingKey")
    ∷ open_route patch_method "/setting/upload/:settingKey?"
        (setting_controller "updateBySettingKey")
    ∷ open_route patch_method "/setting/updateManySetting" (setting_controller "updateManySetting")
    ∷ []

-- `routerApp` of appApi.js.
abbrev pub entity_route : String → Method → String → String → Route
entity_route entity m tail name =
    open_route m (append "/" (append entity tail)) (app_controller entity name)

unfoldable pub router_app : String → List Route
router_app entity =
    entity_route entity post_method "/create" "create"
      ∷ entity_route entity get_method "/read/:id" "read"
      ∷ entity_route entity patch_method "/update/:id" "update"
      ∷ entity_route entity delete_method "/delete/:id" "delete"
      ∷ entity_route entity get_method "/search" "search"
      ∷ entity_route entity get_method "/list" "list"
      ∷ entity_route entity get_method "/listAll" "listAll"
      ∷ entity_route entity get_method "/filter" "filter"
      ∷ entity_route entity get_method "/summary" "summary"
      ∷ (if str_eq entity "invoice" || (str_eq entity "quote" || str_eq entity "payment")
          then entity_route entity post_method "/mail" "mail" ∷ []
          else [])
    ++ (if str_eq entity "quote"
        then entity_route entity get_method "/convert/:id" "convert" ∷ []
        else [])

-- `routesList` has the entities of the files of appModels.
unfoldable pub erp_api_router : List String → List Route
erp_api_router [] = []
erp_api_router (entity ∷ rest) = router_app entity ++ erp_api_router rest

-- The gate's answer, to a request for a result of any type.
abbrev pub denied : {R : Type 0} → Response (Unit {0}) → Response R
denied x = record {
  status = x.status;
  success = x.success;
  result = none;
  message = x.message;
  jwt_expired = x.jwt_expired;
}

-- `matches` is express's matching of a route's path, `run` the handlers under `catchErrors` with the
-- admin that the gate has set, and `auth` the part of the state that the gate reads.
module _ {R S : Type 0} (db : Mongoose) (k : Crypto) (matches : String → String → Bool)
    (run : Handler → Option Admin → S → Outcome R × S) (auth : S → AuthDb) where
  abbrev pub takes : Method → String → Route → Bool
  takes m path r = same_method r.method m && matches r.path path

  abbrev pub pass : Gate → (Admin → Outcome R × S) → S → Outcome R × S
  pass (next admin) go s = go admin
  pass (deny x) go s = (respond (denied x), s)

  abbrev pub gate : Option String → S → Gate
  gate header s = is_valid_auth_token db k header (auth s)

  -- A router behind the gate: its handler, or the next layer.
  abbrev pub guarded_router :
      List Route → Option String → Method → String → (S → Outcome R × S) → S → Outcome R × S
  guarded_router routes header m path after s =
      pass (gate header s)
        (λ admin. elim (first (takes m path) routes) [
          | none ↦ after s
          | some r ↦ run r.handler (some admin) s
        ])
        s

  -- What app.js does with a request under '/api'.
  unfoldable pub serve_api : List String → Option String → Method → String → S → Outcome R × S
  serve_api entities header m path s = elim (first (takes m path) core_auth_router) [
    | some r ↦
        if r.guarded
        then pass (gate header s) (λ admin. run r.handler (some admin) s) s
        else run r.handler none s
    | none ↦
        guarded_router core_api_router header m path
          (guarded_router (erp_api_router entities) header m path (λ t. (respond not_found, t))) s
  ]
