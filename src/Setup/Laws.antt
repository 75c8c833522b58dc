-- ===== src/Setup/Laws.antt =====
-- What the setup leaves in a database that was reset: setup.js after reset.js.
use Prim.Native.String
use dev_ops_projet.Base.{
  ℕ, suc, ◌≡◌, refl, String, str_eq, true, Option, none, some, inl, inr, List, [], ◌∷◌, Bool-cases,
  ==_iff,
}
use dev_ops_projet.Http.{Response, respond, reply, of_key}
use dev_ops_projet.Mongo.{Mongoose, first, in_memory}
use dev_ops_projet.Mongo.Laws.{IsMongoose, eq-in_memory}
use dev_ops_projet.Settings.{has_key, present}
use dev_ops_projet.Settings.Controller.{read_setting}
use dev_ops_projet.DefaultItem.Laws.{defaults}
use dev_ops_projet.Auth.{Crypto, IsCrypto, Session}
use dev_ops_projet.Auth.Login.{Credentials, login}
use dev_ops_projet.Auth.Recovery.{login_succeeds}
use dev_ops_projet.Setup.{
  Database, Seed, File, Bulk, IsBulk, setting_of, settings_of, setting_files, demo_admin,
  admin_password_data, default_tax, default_payment_mode, NewIds, setup_app, delete_data,
}

abbrev fresh : Crypto → NewIds → List Seed → Database
fresh k new seeds = record {
  auth = record {
    admins = demo_admin new.admin ∷ [];
    passwords = admin_password_data k new.salt new.admin ∷ [];
  };
  settings = settings_of new.first_setting seeds;
  payment_modes = default_payment_mode new.payment_mode ∷ [];
  taxes = default_tax new.tax ∷ [];
}

setup_app-delete_data :
    (k : Crypto) (w : Bulk) (files : List File) (new : NewIds) (s : Database) (seeds : List Seed)
    → IsBulk w
    → setting_files files ≡ some seeds
    → setup_app in_memory k w files new (delete_data w s) ≡ (true, fresh k new seeds)
unfolding setup_app delete_data
setup_app-delete_data k w files new s seeds h parsed =
    rw (setup_app, parsed) (simp (h.insert_many_lem, h.delete_many_lem))

first-settings_of :
    (id : ℕ) (key : String) (seeds : List Seed) (x : Seed)
    → first (λ y. str_eq y.setting_key key) seeds ≡ some x
    → (n : ℕ) × (first (has_key key) (settings_of id seeds) ≡ some (setting_of n x))
first-settings_of id key [] x e = cc
first-settings_of id key (y ∷ seeds) x e = elim (Bool-cases (str_eq y.setting_key key)) [
  | inl t ↦ (id, rw (t, (let same : y ≡ x = cc (rw t at e) in same)) refl)
  | inr t ↦ rw t (first-settings_of (suc id) key seeds x (rw t at e))
]

fresh-login :
    (k : Crypto) (validate : Credentials → Option String) (creds : Credentials) (new : NewIds)
    (seeds : List Seed)
    → IsCrypto k
    → validate creds ≡ none
    → creds.email ≡ "admin@admin.com"
    → creds.password ≡ "admin123"
    → (r : Response Session) × ((login in_memory k validate creds (fresh k new seeds).auth).0
        ≡ respond r)
      × (r.status ≡ 200)
fresh-login k validate creds new seeds h fine email password =
    login_succeeds k validate creds (fresh k new seeds).auth (demo_admin new.admin)
      (admin_password_data k new.salt new.admin) fine (rw email refl) refl
      (rw ((==_iff new.admin new.admin).1 refl) refl)
      (rw password (h.compare-hash_sync (String.◌++◌ new.salt "admin123")))

read_setting-seed :
    (key : String) (k : String) (id : ℕ) (seeds : List Seed) (x : Seed)
    → present (some key) ≡ some k
    → first (λ y. str_eq y.setting_key k) seeds ≡ some x
    → (n : ℕ) × (read_setting in_memory (some key) (settings_of id seeds)
        ≡ reply 200 true
            (some (setting_of n x))
            (of_key "we found this document by this settingKey: " k))
unfolding read_setting
read_setting-seed key k id seeds x given e =
    let (n, found) = first-settings_of id k seeds x e in (n, rw (read_setting, given, found))

-- After a reset of any database and a setup whose files of settings can all be read: the setup
-- succeeds; a valid login as admin@admin.com with the password admin123 is answered with 200; there is
-- one default tax and one default payment mode; and a read of any key that is in the files is
-- answered with the setting that their first entry with that key makes.
pub setup_app-login :
    (db : Mongoose) (k : Crypto) (w : Bulk) (files : List File) (new : NewIds) (s : Database)
    (seeds : List Seed) (validate : Credentials → Option String) (creds : Credentials)
    (key : String) (x : Seed)
    → IsMongoose db
    → IsCrypto k
    → IsBulk w
    → setting_files files ≡ some seeds
    → validate creds ≡ none
    → creds.email ≡ "admin@admin.com"
    → creds.password ≡ "admin123"
    → present (some key) ≡ some key
    → first (λ y. str_eq y.setting_key key) seeds ≡ some x
    → let done = setup_app db k w files new (delete_data w s) in
      (done.0 ≡ true)
      × ((r : Response Session) × ((login db k validate creds done.1.auth).0 ≡ respond r)
          × (r.status ≡ 200))
      × (defaults done.1.taxes ≡ 1)
      × (defaults done.1.payment_modes ≡ 1)
      × ((n : ℕ) × (read_setting db (some key) done.1.settings
            ≡ reply 200 true
                (some (setting_of n x))
                (of_key "we found this document by this settingKey: " key)))
unfolding defaults
setup_app-login db k w files new s seeds validate creds key x m h b parsed fine email password given
      e =
    rw (eq-in_memory m) (
      rw (setup_app-delete_data k w files new s seeds b parsed) (
        refl,
        fresh-login k validate creds new seeds h fine email password,
        refl,
        refl,
        read_setting-seed key key new.first_setting seeds x given e,
      ))
