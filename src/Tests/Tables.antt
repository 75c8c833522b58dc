-- ===== src/Tests/Tables.antt =====
-- Collections as tables, settings written together, and files.
use dev_ops_projet.Base.{
  ℕ, ◌≡◌, ◌≢◌, refl, arith, String, true, false, Option, none, some, List, [], ◌∷◌, map, str_eq,
  if◌then◌else◌, includes,
}
use dev_ops_projet.Http.{reply, text}
use dev_ops_projet.Mongo.{in_memory}
use dev_ops_projet.Crud.{Doc, read}
use dev_ops_projet.Crud.Refinement.{
  Request, create_req, update_req, remove_req, AreFresh, run, replay, view, shown, run-read,
}
use dev_ops_projet.Settings.{Setting, SettingValue, missing, txt}
use dev_ops_projet.Settings.Many.{update_many_setting, in_order, value_at}
use dev_ops_projet.Settings.Rewrites.{complete, rewritten_option, update_many_setting-rewritten}
use dev_ops_projet.Downloads.{Found, found, download, written, id_of_file, download_route}
use dev_ops_projet.Downloads.Names.{file_of, download_route-file_of}
use dev_ops_projet.Tests.Models.{in_memory-IsMongoose}

one_ne_two : ◌≢◌ {A = ℕ} 1 2
one_ne_two = omega arith

abbrev first_note : Doc String
first_note = record { id = 1; removed = false; fields = "one" }

-- A creation, an update of the new document and the removal of the old one.
abbrev requests : List (Request String)
requests = create_req "two" 2 ∷ update_req true (λ _. "due") 2 ∷ remove_req 1 ∷ []

requests-AreFresh : AreFresh (λ _. true) in_memory requests (first_note ∷ [])
requests-AreFresh = ((one_ne_two, tt), (tt, (tt, tt)))

run_read_example :
    read in_memory 2 (run (λ _. true) in_memory requests (first_note ∷ []))
    ≡ shown 2 (replay (λ _. true) requests (view (first_note ∷ [])) 2)
run_read_example =
    run-read in_memory (λ _. true) requests (first_note ∷ []) 2 in_memory-IsMongoose (tt, tt)
      requests-AreFresh

abbrev language : Setting
language = record {
  id = 1;
  removed = false;
  enabled = true;
  setting_category = "app_settings";
  setting_key = "language";
  setting_value = missing;
  value_type = "String";
  is_private = false;
  is_core_setting = false;
}

abbrev changes : List (String × SettingValue)
changes = ("LANGUAGE", txt "fr") ∷ []

-- Lower case of the one key that the test needs.
abbrev lower_key : String → String
lower_key s = if str_eq s "LANGUAGE" then "language" else s

update_many_example :
    ((update_many_setting lower_key in_order
        (some (map complete (("language", txt "en") ∷ changes)))
        (language ∷ [])).0
      ≡ reply 200 true (some []) (text "we update all settings"))
    × (value_at "language"
          (update_many_setting lower_key in_order
            (some (map complete (("language", txt "en") ∷ changes)))
            (language ∷ [])).1
        ≡ rewritten_option lower_key "language"
            (("language", txt "en") ∷ changes)
            (value_at "language" (language ∷ [])))
update_many_example =
    update_many_setting-rewritten lower_key in_order ("language", txt "en") changes (language ∷ [])
      "language" (λ us t. refl)

-- Upper case of the one letter that the test needs, and back.
abbrev upper : String → String
upper s = if str_eq s "i" then "I" else s

abbrev lower : String → String
lower s = if str_eq s "Invoice" then "invoice" else s

abbrev models : String → Option (String → Found)
models s = if str_eq s "Invoice" then some (λ id. found id) else none

download_example :
    (id_of_file "invoice" (file_of "invoice" "65f0") ≡ "65f0")
    × (download_route upper lower models
          (λ _. written)
          (λ _. true)
          "invoice"
          (file_of "invoice" "65f0")
        ≡ download "src/public/download/invoice/invoice-65f0.pdf")
unfolding includes
download_example =
    download_route-file_of upper lower models (λ _. written) (λ _. true) "invoice" "65f0"
      (λ id. found id) refl refl refl
