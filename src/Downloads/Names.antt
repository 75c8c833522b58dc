-- ===== src/Downloads/Names.antt =====
-- The names of the PDF files: what the client asks for, what the server reads of it, and what it sends.
use Prim.Native.Char.{Char}
use Prim.Native.String.{[] as nil, ◌∷◌ as char, ◌++◌ as append}
use Prim.Native.String.append.{nil as append-nil_left, cons as append-char}
use text.Mathlib.TextLemmas.{append_assoc}
use dev_ops_projet.Base.{suc, ◌≡◌, refl, sym, ap, ◌∙◌, String, Bool, Option, some, includes}
use dev_ops_projet.HttpClient.Query.{drop_last, drop_last-snoc}
use dev_ops_projet.Downloads.{
  skip_chars, drop_end, size, id_of_file, Found, found, model_name, download_pdf, Rendering,
  sent_of, pug_files, download_route,
}

-- The file that the client asks for: `${entity}/${entity}-${id}.pdf`, with the entity as directory.
abbrev pub file_of : String → String → String
file_of entity id = append entity (append "-" (append id ".pdf"))

skip_chars-append :
    (d rest : String) → skip_chars (suc (size d)) (append d (append "-" rest)) ≡ rest
skip_chars-append nil rest = ap (skip_chars 1) (
    append-nil_left (append "-" rest)
    ∙ append-char "-" nil rest
    ∙ ap (char "-") (append-nil_left rest))
skip_chars-append (char c d) rest =
    ap (skip_chars (suc (suc (size d)))) (append-char c d (append "-" rest))
    ∙ skip_chars-append d rest

drop_one : (s t : String) (e : Char) → drop_last (append s (append t (char e nil))) ≡ append s t
drop_one s t e = ap drop_last (sym (append_assoc s t (char e nil))) ∙ drop_last-snoc (append s t) e

drop_end-pdf : (id : String) → drop_end 4 (append id ".pdf") ≡ id
drop_end-pdf id =
    ap (drop_end 3) (drop_one id ".pd" "f")
    ∙ ap (drop_end 2) (drop_one id ".p" "d")
    ∙ ap drop_last (drop_one id "." "p")
    ∙ drop_last-snoc id "."

id_of_file-file_of : (entity id : String) → id_of_file entity (file_of entity id) ≡ id
unfolding id_of_file
id_of_file-file_of entity id =
    ap (drop_end 4) (skip_chars-append entity (append id ".pdf")) ∙ drop_end-pdf id

-- For the file that the client asks for, of an entity whose name the model's name gives in lower case,
-- and an id under which there is a document: the server reads back the id, and generates and
-- sends the file of that name in the folder of the entity: what the client gets is that file, 500 if
-- it cannot be rendered or sent, nothing if the entity has no template, and a crash if the file cannot
-- be written.
pub download_route-file_of :
    (upper lower : String → String) (models : String → Option (String → Found))
    (generate : String → Rendering) (delivers : String → Bool) (entity id : String)
    (find_one : String → Found)
    → lower (model_name upper entity) ≡ entity
    → models (model_name upper entity) ≡ some find_one
    → find_one id ≡ found id
    → (id_of_file entity (file_of entity id) ≡ id)
      × (download_route upper lower models generate delivers entity (file_of entity id) ≡ (
          let path =
            append "src/public/download/" (append entity (append "/" (file_of entity id))) in
          sent_of (generate path) (includes pug_files entity) (delivers path) path))
unfolding download_route download_pdf
download_route-file_of upper lower models generate delivers entity id find_one named known here =
    let read = id_of_file-file_of entity id in
    (
      read,
      ap (download_pdf upper lower models generate delivers entity) read
          ∙ rw (download_pdf, known, here, named) refl,
    )
