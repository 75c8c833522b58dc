-- ===== src/Settings/Laws.antt =====
-- Reading a setting after its update.
use dev_ops_projet.Base.{◌≡◌, refl, ap, ◌∙◌, String, true, Option, some, List}
use dev_ops_projet.Http.{reply, of_key}
use dev_ops_projet.Mongo.{Mongoose, in_memory, first, update_first}
use dev_ops_projet.Mongo.Laws.{IsMongoose, eq-in_memory}
use dev_ops_projet.Mongo.Lookup.{first-update_first_self}
use dev_ops_projet.Settings.{Setting, SettingValue, is_truthy, present, has_key}
use dev_ops_projet.Settings.Controller.{update_setting, read_setting}

update_setting-update_first :
    (key : Option String) (k : String) (v : SettingValue) (s : List Setting) (d : Setting)
    → present key ≡ some k
    → is_truthy v ≡ true
    → first (has_key k) s ≡ some d
    → (update_setting in_memory key v s).1
      ≡ update_first (has_key k) (λ x. record x { setting_value = v }) s
unfolding update_setting
update_setting-update_first key k v s d given truthy found =
    rw (update_setting, given, truthy, found)

read_setting-first :
    (key : Option String) (k : String) (s : List Setting) (d : Setting)
    → present key ≡ some k
    → first (has_key k) s ≡ some d
    → read_setting in_memory key s
      ≡ reply 200 true (some d) (of_key "we found this document by this settingKey: " k)
unfolding read_setting
read_setting-first key k s d given found = rw (read_setting, given, found)

-- An update with a key, a value that is true in JavaScript, and a setting for the key: then a read of
-- the key is answered with that setting, holding the new value, whatever the value was.
pub update_setting-read_setting :
    (db : Mongoose) (key : Option String) (k : String) (v : SettingValue) (s : List Setting)
    (d : Setting)
    → IsMongoose db
    → present key ≡ some k
    → is_truthy v ≡ true
    → first (has_key k) s ≡ some d
    → read_setting db key (update_setting db key v s).1
      ≡ reply 200 true
          (some (record d { setting_value = v }))
          (of_key "we found this document by this settingKey: " k)
update_setting-read_setting db key k v s d m given truthy found =
    let change : Setting → Setting = λ x. record x { setting_value = v } in
    let kept : first (has_key k) (update_first (has_key k) change s) ≡ some (change d) =
      first-update_first_self (has_key k) change s d (λ x. refl) found in
    rw (eq-in_memory m) (
      ap (λ t. read_setting in_memory key t)
        (update_setting-update_first key k v s d given truthy found)
      ∙ read_setting-first key k (update_first (has_key k) change s) (change d) given kept)
