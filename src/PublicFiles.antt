-- ===== src/PublicFiles.antt =====
-- The files that anyone may read: backend/src/routes/coreRoutes/corePublicRouter.js, which stands
-- before no token's gate, and the guard against paths out of the public folder,
-- backend/src/utils/is-path-inside.js. node's `path` module is a parameter, on a system whose
-- separator is '/'.
pub mod Names
pub mod Guard
pub mod Laws
use Prim.Native.String.{◌++◌ as append}
use dev_ops_projet.Base.{
  ℕ, String, str_eq, Bool, true, false, not, ◌&&◌, Option, none, some, List, [], ◌∷◌, if◌then◌else◌,
}
use dev_ops_projet.Uploads.{starts_with}

pub record NodePath : Type 0 where
  pub join : List String → String
  pub relative : (from to : String) → String
  pub resolve : String → String

-- `isPathInside`
unfoldable pub is_path_inside : NodePath → (child_path parent_path : String) → Bool
is_path_inside n child_path parent_path =
    let relation = n.relative parent_path child_path in
    not (str_eq relation "")
    && not (str_eq relation "..")
    && not (starts_with relation "../")
    && not (str_eq relation (n.resolve child_path))

-- What the client gets: the file at a path, or an answer by its status and message.
pub data Served : Type 0 where
  file : String → Served
  answer : ℕ → String → Served

-- `decode` is decodeURIComponent, none if it throws; `sends` whether `sendFile` can send the file.
-- The names of the request are those of the route, which express has decoded once.
unfoldable pub serve_public :
    NodePath
    → (decode : String → Option String) → (sends : String → Bool)
    → (root_dir sub_path directory file_name : String) → Served
serve_public n decode sends root_dir sub_path directory file_name = elim (decode sub_path) [
  | none ↦ answer 503 "URI malformed"
  | some decoded_sub_path ↦ elim (decode directory) [
    | none ↦ answer 503 "URI malformed"
    | some decoded_directory ↦ elim (decode file_name) [
      | none ↦ answer 503 "URI malformed"
      | some decoded_file ↦
          let relative_path = n.join (decoded_sub_path ∷ decoded_directory ∷ decoded_file ∷ []) in
          let absolute_path = n.join (root_dir ∷ relative_path ∷ []) in
          if not (is_path_inside n absolute_path root_dir)
          then answer 400 "Invalid filepath"
          else if sends absolute_path
          then file absolute_path
          else answer 404 (append "we could not find : " file_name)
    ]
  ]
]
