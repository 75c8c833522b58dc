-- ===== src/Tests/Setup.antt =====
-- A database that is set up with two settings.
use dev_ops_projet.Base.{ℕ, ◌≡◌, refl, true, false, none, some, List, [], ◌∷◌, ◌++◌}
use dev_ops_projet.Http.{Response, respond, reply, of_key}
use dev_ops_projet.Mongo.{in_memory}
use dev_ops_projet.Settings.{txt}
use dev_ops_projet.Settings.Controller.{read_setting}
use dev_ops_projet.DefaultItem.Laws.{defaults}
use dev_ops_projet.Auth.{Session}
use dev_ops_projet.Auth.Login.{Credentials, login}
use dev_ops_projet.Setup.{
  Database, Seed, File, Bulk, IsBulk, NewIds, setting_of, setup_app, delete_data,
}
use dev_ops_projet.Setup.Laws.{setup_app-login}
use dev_ops_projet.Tests.Models.{in_memory-IsMongoose, plain, plain-IsCrypto}

abbrev bulk : Bulk
bulk = record { insert_many = λ docs xs. xs ++ docs; delete_many = λ xs. [] }

bulk-IsBulk : IsBulk bulk
bulk-IsBulk = record { insert_many_lem = λ A docs xs. refl; delete_many_lem = λ A xs. refl }

abbrev language : Seed
language = record {
  setting_category = "app_settings";
  setting_key = "idurar_app_language";
  setting_value = txt "en_us";
  value_type = some "string";
  is_private = none;
  is_core_setting = none;
}

abbrev symbol : Seed
symbol = record language {
  setting_category = "money_format_settings";
  setting_key = "currency_symbol";
  setting_value = txt "$";
}

abbrev files : List File
files = some (language ∷ []) ∷ some (symbol ∷ []) ∷ []

abbrev new : NewIds
new = record { admin = 1; first_setting = 2; tax = 4; payment_mode = 5; salt = "salt-" }

abbrev empty : Database
empty = record {
  auth = record { admins = []; passwords = [] };
  settings = [];
  payment_modes = [];
  taxes = [];
}

abbrev demo : Credentials
demo = record { email = "admin@admin.com"; password = "admin123"; remember = false }

setup_example :
    ((setup_app in_memory plain bulk files new (delete_data bulk empty)).0 ≡ true)
    × ((r : Response Session) × ((login in_memory plain
            (λ _. none)
            demo
            (setup_app in_memory plain bulk files new (delete_data bulk empty)).1.auth).0
          ≡ respond r)
        × (r.status ≡ 200))
    × (defaults (setup_app in_memory plain bulk files new (delete_data bulk empty)).1.taxes ≡ 1)
    × (defaults (setup_app in_memory plain bulk files new (delete_data bulk empty)).1.payment_modes
        ≡ 1)
    × ((n : ℕ) × (read_setting in_memory
            (some "currency_symbol")
            (setup_app in_memory plain bulk files new (delete_data bulk empty)).1.settings
          ≡ reply 200 true
              (some (setting_of n symbol))
              (of_key "we found this document by this settingKey: " "currency_symbol")))
setup_example =
    setup_app-login in_memory plain bulk files new empty (language ∷ symbol ∷ []) (λ _. none) demo
      "currency_symbol" symbol in_memory-IsMongoose plain-IsCrypto bulk-IsBulk refl refl refl refl
      refl refl
