-- ===== src/Settings/Rewrites.antt =====
-- What the settings of a request become: the last value that the request has for a key.
use dev_ops_projet.Base.{
  ◌≡◌, refl, sym, ap, ◌∙◌, arith, eq_iff, String, str_eq, true, false, if◌then◌else◌, Option, none,
  some, inl, inr, List, [], ◌∷◌, map, Bool-cases,
}
use dev_ops_projet.Http.{reply, text}
use dev_ops_projet.Mongo.{update_first}
use dev_ops_projet.Settings.{Setting, SettingValue, has_key}
use dev_ops_projet.Settings.Many.{
  Change, UpdateOne, with_value, update_data_array, update_many_setting, in_order, value_at,
}

-- A complete entry of the request, and what entries in their order make of the value of a key.
abbrev pub complete : String × SettingValue → Change
complete (k, v) = record { setting_key = some k; setting_value = some v }

abbrev pub rewritten :
    (String → String) → String → List (String × SettingValue) → SettingValue → SettingValue
rewritten lower k [] v = v
rewritten lower k ((j, w) ∷ rest) v = rewritten lower k rest (if str_eq (lower j) k then w else v)

abbrev pub rewritten_option :
    (String → String)
    → String
    → List (String × SettingValue)
    → Option SettingValue
    → Option SettingValue
rewritten_option lower k changes none = none
rewritten_option lower k changes (some v) = some (rewritten lower k changes v)

-- An entry for another key changes nothing at `k`.
other_key :
    (lower : String → String) (k j : String) (w : SettingValue) (o : Option SettingValue)
    → str_eq (lower j) k ≡ false
    → rewritten_option lower k ((j, w) ∷ []) o ≡ o
other_key lower k j w none n = refl
other_key lower k j w (some v) n = rw n refl

value_at-update_first :
    (lower : String → String) (k j : String) (w : SettingValue) (s : List Setting)
    → value_at k (update_first (has_key (lower j)) (with_value w) s)
      ≡ rewritten_option lower k ((j, w) ∷ []) (value_at k s)
value_at-update_first lower k j w [] = refl
value_at-update_first lower k j w (d ∷ s) =
    let at_j = eq_iff d.setting_key (lower j) in
    let at_k = eq_iff d.setting_key k in
    let same = eq_iff (lower j) k in
    elim (Bool-cases (str_eq d.setting_key (lower j))) [
      | inl e ↦ elim (Bool-cases (str_eq d.setting_key k)) [
        | inl f ↦
            let t : str_eq (lower j) k ≡ true = same.1 (sym (at_j.0 e) ∙ at_k.0 f) in
            rw (e, value_at, f, t) refl
        | inr f ↦
            let n : str_eq (lower j) k ≡ false = ground (arith, at_j, at_k, same) in
            rw (e, value_at, f) (sym (other_key lower k j w (value_at k s) n))
      ]
      | inr e ↦ elim (Bool-cases (str_eq d.setting_key k)) [
        | inl f ↦
            let n : str_eq (lower j) k ≡ false = ground (arith, at_j, at_k, same) in
            rw (e, value_at, f, n) refl
        | inr f ↦ rw (e, value_at, f) (value_at-update_first lower k j w s)
      ]
    ]

rewritten_option-cons :
    (lower : String → String) (k j : String) (w : SettingValue)
    (rest : List (String × SettingValue)) (o : Option SettingValue)
    → rewritten_option lower k rest (rewritten_option lower k ((j, w) ∷ []) o)
      ≡ rewritten_option lower k ((j, w) ∷ rest) o
rewritten_option-cons lower k j w rest none = refl
rewritten_option-cons lower k j w rest (some v) = refl

value_at-in_order :
    (lower : String → String) (k : String) (changes : List (String × SettingValue))
    (s : List Setting)
    → value_at k (in_order (update_data_array lower (map complete changes)).0 s)
      ≡ rewritten_option lower k changes (value_at k s)
value_at-in_order lower k [] s = unchanged (value_at k s)
  where
    unchanged : (o : Option SettingValue) → o ≡ rewritten_option lower k [] o
    unchanged none = refl
    unchanged (some v) = refl
value_at-in_order lower k ((j, w) ∷ rest) s =
    value_at-in_order lower k rest (update_first (has_key (lower j)) (with_value w) s)
    ∙ ap (rewritten_option lower k rest) (value_at-update_first lower k j w s)
    ∙ rewritten_option-cons lower k j w rest (value_at k s)

no_error :
    (lower : String → String) (changes : List (String × SettingValue))
    → (update_data_array lower (map complete changes)).1 ≡ false
no_error lower [] = refl
no_error lower ((j, w) ∷ rest) = no_error lower rest

-- A request with one or more complete entries, where `bulkWrite` makes its updates in their order, is
-- answered with 200, and then every key that has a setting holds the last value that the request has
-- for a key that is it in lower case, or its old value, and a key that has none has none still.
pub update_many_setting-rewritten :
    (lower : String → String) (bulk_write : List UpdateOne → List Setting → List Setting)
    (change : String × SettingValue) (changes : List (String × SettingValue)) (s : List Setting)
    (k : String)
    → ((us : List UpdateOne) (t : List Setting) → bulk_write us t ≡ in_order us t)
    → ((update_many_setting lower bulk_write (some (map complete (change ∷ changes))) s).0
        ≡ reply 200 true (some []) (text "we update all settings"))
      × (value_at k
            (update_many_setting lower bulk_write (some (map complete (change ∷ changes))) s).1
          ≡ rewritten_option lower k (change ∷ changes) (value_at k s))
unfolding update_many_setting
update_many_setting-rewritten lower bulk_write (j, w) changes s k h = rw (no_error lower changes) (
  refl,
  ap (value_at k) (h (update_data_array lower (map complete ((j, w) ∷ changes))).0 s)
      ∙ value_at-in_order lower k ((j, w) ∷ changes) s,
)
