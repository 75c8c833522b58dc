-- ===== src/Uploads.antt =====
-- backend/src/middlewares/uploadMiddleware: which files an upload takes, and the name that it stores
-- them under.
pub mod Filters
use Prim.Native.Char.{code}
use Prim.Native.String.{[] as nil, ◌∷◌ as char, ◌++◌ as append}
use dev_ops_projet.Base.{
  String, str_eq, includes, Bool, true, false, not, ◌&&◌, ◌==◌, Option, none, some, List, [], ◌∷◌,
  if◌then◌else◌,
}
use dev_ops_projet.Settings.{present}

abbrev pub starts_with : String → String → Bool
starts_with s nil = true
starts_with nil (char d p) = false
starts_with (char c s) (char d p) = let rest = starts_with s p in code c == code d && rest

-- `_fileType`
abbrev pub file_type : List String
file_type =
    "image/jpeg" ∷ "image/png" ∷ "image/gif" ∷ "image/webp" ∷ "image/svg+xml" ∷ "application/msword"
    ∷ "text/plain" ∷ "text/csv"
    ∷ "application/vnd.openxmlformats-officedocument.spreadsheetml.sheet"
    ∷ "application/vnd.ms-excel" ∷ "application/pdf" ∷ "application/zip" ∷ "application/vnd.rar"
    ∷ "video/mp4" ∷ "video/x-msvideo" ∷ "audio/mpeg" ∷ "video/webm" ∷ []

-- The chain of tests that clear `_flag`, the same in the two filters.
abbrev pub kept_flag : String → String → Bool → Bool
kept_flag type mimetype flag =
    if str_eq type "image"
    then if not (starts_with mimetype "image/") then false else flag
    else if str_eq type "pdf"
    then if not (starts_with mimetype "application/pdf") then false else flag
    else if str_eq type "video"
    then if not (starts_with mimetype "video/") then false else flag
    else if str_eq type "audio"
    then if not (starts_with mimetype "audio/") then false else flag
    else if str_eq type "text"
    then if not (starts_with mimetype "text/")
        && not (starts_with mimetype "application/vnd.ms-excel")
        && not (starts_with mimetype "application/msword")
        && not (
            starts_with mimetype
              "application/vnd.openxmlformats-officedocument.wordprocessingml.document")
      then false
      else flag
    else if str_eq type "excel"
    then if not (starts_with mimetype "application/vnd.ms-excel")
        && not (
            starts_with mimetype
              "application/vnd.openxmlformats-officedocument.spreadsheetml.sheet")
      then false
      else flag
    else if str_eq type "compressed"
    then if not (starts_with mimetype "application/zip")
        && not (starts_with mimetype "application/x-zip-compressed")
        && not (starts_with mimetype "application/vnd.rar")
      then false
      else flag
    else flag

-- What `cb` is called with: `null, true`, or an Error with that text.
pub data Verdict : Type 0 where
  accepted : Verdict
  refused : String → Verdict

-- LocalfileFilter.js; `type` defaults to 'default'.
unfoldable pub file_filter : String → String → Verdict
file_filter type mimetype =
    if str_eq type "default"
    then accepted
    else (let flag = kept_flag type mimetype (includes file_type mimetype) in
        if flag then accepted else refused (append mimetype " File type not supported!"))

-- fileFilterMiddleware.js.
unfoldable pub file_filter_middleware : String → String → Bool
file_filter_middleware type mimetype =
    if str_eq type "default"
    then true
    else (let flag = kept_flag type mimetype (includes file_type mimetype) in
        if flag then true else false)

-- `req.upload`, and the path that `req.body[fieldName]` gets.
pub record Upload : Type 0 where
  pub file_name : String
  pub field_ext : String
  pub entity : String
  pub field_name : String
  pub file_type : String
  pub file_path : String

-- The options of `singleStorageUpload`, and of the request: `seotitle` and the name of the file.
-- `slug` stands for `slugify` of a text in lower case, `extension` for `path.extname`, `stem` for the
-- part before the first dot, and `unique_id` for the random text.
unfoldable pub filename :
    (slug extension stem : String → String)
    → (unique_id entity field_name type : String) → Option String
    → String
    → Upload
filename slug extension stem unique_id entity field_name type seotitle original =
    let ext = extension original in
    let title : String = elim (present seotitle) [
      | none ↦ slug (stem original)
      | some t ↦ slug t
    ] in
    let name = append title (append "-" (append unique_id ext)) in
    record {
      file_name = name;
      field_ext = ext;
      entity = entity;
      field_name = field_name;
      file_type = type;
      file_path = append "public/uploads/" (append entity (append "/" name));
    }
