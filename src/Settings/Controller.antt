-- ===== src/Settings/Controller.antt =====
-- backend/src/controllers/coreControllers/settingController: updateBySettingKey.js,
-- readBySettingKey.js and listBySettingKey.js.
use dev_ops_projet.Base.{
  String, true, false, not, ◌&&◌, includes, leb, length, if◌then◌else◌, Option, none, some, List,
  [], ◌∷◌,
}
use dev_ops_projet.Http.{Outcome, reply, text, of_key}
use dev_ops_projet.Mongo.{Mongoose, updated}
use dev_ops_projet.Settings.{Setting, SettingValue, is_truthy, present, has_key}

module _ (db : Mongoose) where
  unfoldable pub update_setting :
      Option String → SettingValue → List Setting → Outcome Setting × List Setting
  update_setting key v s = elim (present key) [
    | none ↦ (reply 202 false none (text "No settingKey provided "), s)
    | some k ↦
        if is_truthy v
        then (let (result, t) =
              db.find_one_and_update updated (has_key k) (λ d. record d { setting_value = v }) s in
            elim result [
              | none ↦ (reply 404 false none (of_key "No document found by this settingKey: " k), t)
              | some d ↦ (
                reply 200 true (some d) (of_key "we update this document by this settingKey: " k),
                t,
              )
            ])
        else (reply 202 false none (text "No settingValue provided "), s)
  ]

  unfoldable pub read_setting : Option String → List Setting → Outcome Setting
  read_setting key s = elim (present key) [
    | none ↦ reply 202 false none (text "No settingKey provided ")
    | some k ↦ elim (db.find_one (has_key k) s) [
      | none ↦ reply 404 false none (of_key "No document found by this settingKey: " k)
      | some d ↦ reply 200 true (some d) (of_key "we found this document by this settingKey: " k)
    ]
  ]

  -- The list is the query's text split at its commas.
  unfoldable pub list_settings : List String → List Setting → Outcome (List Setting)
  list_settings [] s = reply 202 false (some []) (text "Please provide settings you need")
  list_settings (k ∷ ks) s =
      let results = db.find (λ d. includes (k ∷ ks) d.setting_key && not d.removed) s in
      if leb 1 (length results)
      then reply 200 true (some results) (text "Successfully found all documents")
      else reply 202 false (some []) (text "No document found by this request")
