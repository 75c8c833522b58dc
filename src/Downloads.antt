-- ===== src/Downloads.antt =====
-- routes/coreRoutes/coreDownloadRouter.js and handlers/downloadHandler/downloadPdf.js of the backend:
-- the PDF of an invoice, a quote or a payment, by the file's name. The route has no token's gate.
pub mod Names
use Prim.Native.String.{[] as nil, ◌∷◌ as char, ◌++◌ as append}
use dev_ops_projet.Base.{
  ℕ, zero, suc, String, str_eq, Bool, true, false, Option, none, some, if◌then◌else◌, List, [], ◌∷◌,
  includes,
}
use dev_ops_projet.HttpClient.Query.{drop_last}

-- `slice(n)`, and `slice(0, -n)` for n from 1 on.
abbrev pub skip_chars : ℕ → String → String
skip_chars zero s = s
skip_chars (suc n) nil = nil
skip_chars (suc n) (char c s) = skip_chars n s

abbrev pub drop_end : ℕ → String → String
drop_end zero s = s
drop_end (suc n) s = drop_end n (drop_last s)

abbrev pub size : String → ℕ
size nil = 0
size (char c s) = suc (size s)

-- `id` of the route.
unfoldable pub id_of_file : String → String → String
id_of_file directory file = drop_end 4 (skip_chars (suc (size directory)) file)

abbrev pub first_char : String → String
first_char nil = nil
first_char (char c s) = char c nil

-- What the client gets: a download of the file at a path, or an answer by its status.
pub data Sent : Type 0 where
  download : String → Sent
  answer : ℕ → Sent
  no_answer crash : Sent

-- How `generatePdf` ends for a model that has a template: the file is written; what comes before
-- throws; or writing fails, which throws in a callback that nothing catches.
pub data Rendering : Type 0 where
  written not_rendered not_written : Rendering

-- `pugFiles`
abbrev pub pug_files : List String
pug_files = "invoice" ∷ "offer" ∷ "quote" ∷ "payment" ∷ []

-- A model without a template has no callback. `res.download` fails with an answer.
abbrev pub sent_of : Rendering → (has_template delivers : Bool) → String → Sent
sent_of not_rendered has_template delivers target = answer 500
sent_of written false delivers target = no_answer
sent_of written true delivers target = if delivers then download target else answer 500
sent_of not_written false delivers target = no_answer
sent_of not_written true delivers target = crash

-- A query by `_id`: an id that is none of the driver's throws its error, by its name, or there is a
-- document, as the id that it prints, or none.
pub data Found : Type 0 where
  throws : String → Found
  missing : Found
  found : String → Found

-- The file that `generatePdf` is told to write, under the name that the model's document has.
abbrev pub target_location : String → String → String
target_location folder id =
    append "src/public/download/"
      (append folder (append "/" (append folder (append "-" (append id ".pdf")))))

-- `upper` is JavaScript's `toUpperCase`.
abbrev pub model_name : (String → String) → String → String
model_name upper directory = append (upper (first_char directory)) (skip_chars 1 directory)

-- `upper` and `lower` are JavaScript's; `models` gives the queries of the models that there are, and
-- `generate` how the file at a path is generated, and `delivers` whether it can be sent.
module _ (upper lower : String → String) (models : String → Option (String → Found))
    (generate : String → Rendering) (delivers : String → Bool) where
  -- No document is a 'ValidationError' that the handler throws itself.
  unfoldable pub download_pdf : String → String → Sent
  download_pdf directory id = elim (models (model_name upper directory)) [
    | none ↦ answer 404
    | some find_one ↦ elim (find_one id) [
      | throws name ↦
          if str_eq name "ValidationError"
          then answer 400
          else if str_eq name "BSONTypeError"
          then answer 400
          else answer 500
      | missing ↦ answer 400
      | found result ↦
          let target = target_location (lower (model_name upper directory)) result in
          let has_template = includes pug_files (lower (model_name upper directory)) in
          sent_of (generate target) has_template (delivers target) target
    ]
  ]

  unfoldable pub download_route : String → String → Sent
  download_route directory file = download_pdf directory (id_of_file directory file)
