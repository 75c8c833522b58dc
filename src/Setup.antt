-- ===== src/Setup.antt =====
-- backend/src/setup: setup.js, which fills an empty database for the first login, and reset.js, which
-- empties it again. The texts of the JSON files of defaultSettings are read by fs and glob: an argument
-- lists them, none for a file that JSON.parse refuses. `insertMany` and `deleteMany` of mongoose are
-- parameters.
pub mod Laws
use Prim.Native.String
use dev_ops_projet.Base.{
  ℕ, zero, suc, ◌+◌, ◌≡◌, pos, String, Bool, true, false, Option, none, some, List, [], ◌∷◌, ◌++◌,
}
use dev_ops_projet.Mongo.{Mongoose}
use dev_ops_projet.Calculate.{Decimal}
use dev_ops_projet.Settings.{Setting, SettingValue}
use dev_ops_projet.DefaultItem.{Entry, TaxContent, PaymentModeContent, Tax, PaymentMode}
use dev_ops_projet.Auth.{Admin, AdminPassword, AuthDb, Crypto}

-- The collections that the scripts write.
pub record Database : Type 0 where
  pub auth : AuthDb
  pub settings : List Setting
  pub payment_modes : List PaymentMode
  pub taxes : List Tax

-- An entry of a file of defaultSettings; a field that is left out is none.
pub record Seed : Type 0 where
  pub setting_category : String
  pub setting_key : String
  pub setting_value : SettingValue
  pub value_type : Option String
  pub is_private : Option Bool
  pub is_core_setting : Option Bool

abbrev pub File : Type 0
File = Option (List Seed)

-- `Model.insertMany` and `Model.deleteMany()` of mongoose.
pub record Bulk : Type 1 where
  pub insert_many : {A : Type 0} → List A → List A → List A
  pub delete_many : {A : Type 0} → List A → List A

-- Documented: the documents are appended in order, and no document is left.
pub record IsBulk (w : Bulk) : Type 1 where
  pub insert_many_lem : (A : Type 0) (docs xs : List A) → w.insert_many docs xs ≡ xs ++ docs
  pub delete_many_lem : (A : Type 0) (xs : List A) → w.delete_many xs ≡ []

abbrev given {ℓ} : {A : Type ℓ} → Option A → A → A
given none d = d
given (some a) d = a

-- The schema's defaults.
abbrev pub setting_of : ℕ → Seed → Setting
setting_of id x = record {
  id = id;
  removed = false;
  enabled = true;
  setting_category = x.setting_category;
  setting_key = x.setting_key;
  setting_value = x.setting_value;
  value_type = given x.value_type "String";
  is_private = given x.is_private false;
  is_core_setting = given x.is_core_setting false;
}

-- New ids are counted up from the first.
abbrev pub settings_of : ℕ → List Seed → List Setting
settings_of id [] = []
settings_of id (x ∷ xs) = setting_of id x ∷ settings_of (suc id) xs

-- `settingFiles.push(...file)` for each file, in order; `none` is the error of a file.
abbrev pub setting_files : List File → Option (List Seed)
setting_files [] = some []
setting_files (none ∷ files) = none
setting_files (some file ∷ files) = elim (setting_files files) [
  | none ↦ none
  | some rest ↦ some (file ++ rest)
]

abbrev pub demo_admin : ℕ → Admin
demo_admin id = record {
  id = id;
  removed = false;
  enabled = true;
  email = "admin@admin.com";
  name = "IDURAR";
  surname = some "Admin";
  photo = none;
  role = "owner";
}

abbrev pub admin_password_data : Crypto → String → ℕ → AdminPassword
admin_password_data k salt user = record {
  user = user;
  removed = false;
  password = k.hash_sync (String.◌++◌ salt "admin123");
  salt = salt;
  email_token = none;
  reset_token = none;
  email_verified = true;
  logged_sessions = [];
}

abbrev pub default_tax : ℕ → Tax
default_tax id = record {
  id = id;
  removed = false;
  enabled = true;
  is_default = true;
  content = record { tax_name = "Tax 0%"; tax_value = record { units = pos 0; scale = 0 } };
}

abbrev pub default_payment_mode : ℕ → PaymentMode
default_payment_mode id = record {
  id = id;
  removed = false;
  enabled = true;
  is_default = true;
  content = record {
    name = "Default Payment";
    description = "Default Payment Mode (Cash , Wire Transfert)";
    ref = none;
  };
}

-- The ids that the database gives, and the text that shortid generates.
pub record NewIds : Type 0 where
  pub admin : ℕ
  pub first_setting : ℕ
  pub tax : ℕ
  pub payment_mode : ℕ
  pub salt : String

-- The script ends in either case; `false` is its catch, with what was written until then.
module _ (db : Mongoose) (k : Crypto) (w : Bulk) where
  unfoldable pub setup_app : List File → NewIds → Database → Bool × Database
  setup_app settings_files new s =
      let auth : AuthDb = record {
        admins = db.save (demo_admin new.admin) s.auth.admins;
        passwords = db.save (admin_password_data k new.salt new.admin) s.auth.passwords;
      } in
      let s' : Database = record s { auth = auth } in
      elim (setting_files settings_files) [
        | none ↦ (false, s')
        | some files ↦ (
          true,
          record s' {
            settings = w.insert_many (settings_of new.first_setting files) s.settings;
            taxes = w.insert_many (default_tax new.tax ∷ []) s.taxes;
            payment_modes =
                w.insert_many (default_payment_mode new.payment_mode ∷ []) s.payment_modes;
          },
        )
      ]

module _ (w : Bulk) where
  -- reset.js
  unfoldable pub delete_data : Database → Database
  delete_data s = record {
    auth = record {
      admins = w.delete_many s.auth.admins;
      passwords = w.delete_many s.auth.passwords;
    };
    settings = w.delete_many s.settings;
    payment_modes = w.delete_many s.payment_modes;
    taxes = w.delete_many s.taxes;
  }
