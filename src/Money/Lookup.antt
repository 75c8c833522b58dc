-- ===== src/Money/Lookup.antt =====
-- What the settings hold for a key of the money format: in the object that the server loads, and in the
-- list that it sends.
use dev_ops_projet.Base.{
  ◌≡◌, refl, sym, ap, ◌∙◌, String, str_eq, eq_iff, Bool, true, false, not, ◌&&◌, ◌||◌, Option, none,
  some, inl, inr, List, [], ◌∷◌, All, if◌then◌else◌, Bool-cases, arith, ◌↔◌,
}
use dev_ops_projet.Mongo.{select}
use dev_ops_projet.Settings.{Setting, SettingValue, has_key, assign, assign_all}
use dev_ops_projet.SettingsStore.Laws.{last_value}
use dev_ops_projet.Money.{get}

abbrev pub money : String
money = "money_format_settings"

-- Every live setting with the key is public, of the money format, and has the value `v`.
abbrev pub Says : String → SettingValue → Setting → Type 0
Says k v d =
    d.removed ≡ false
    → d.setting_key ≡ k
    → (d.is_private ≡ false) × (d.setting_category ≡ money) × (d.setting_value ≡ v)

abbrev Tells : String → SettingValue → Setting → Type 0
Tells k v d = d.setting_key ≡ k → (d.setting_category ≡ money) × (d.setting_value ≡ v)

abbrev pub any_key : String → List Setting → Bool
any_key k [] = false
any_key k (d ∷ ds) = has_key k d || any_key k ds

get-assign :
    (k j : String) (v : SettingValue) (o : List (String × SettingValue))
    → get (assign j v o) k ≡ (if str_eq j k then some v else get o k)
unfolding assign
get-assign k j v [] = refl
get-assign k j v ((i, w) ∷ o) =
    ground (arith, eq_iff i j, eq_iff j k, eq_iff i k, get-assign k j v o)

-- The server's object and the client's store hold, for a key that every setting tells the same, that
-- value if there is a setting with the key.
get-assign_all :
    (k : String) (v : SettingValue) (ds : List Setting) (o : List (String × SettingValue))
    → All (Tells k v) ds
    → get (assign_all ds o) k ≡ (if any_key k ds then some v else get o k)
unfolding assign_all
get-assign_all k v [] o h = refl
get-assign_all k v (d ∷ ds) o (here, h) =
    get-assign_all k v ds (assign d.setting_key d.setting_value o) h
    ∙ elim (Bool-cases (any_key k ds)) [
      | inl later ↦ elim (Bool-cases (str_eq d.setting_key k)) [
        | inl at ↦ rw (later, at) refl
        | inr away ↦ rw (later, away) refl
      ]
      | inr never ↦ elim (Bool-cases (str_eq d.setting_key k)) [
        | inl at ↦
            rw (never, at)
              (get-assign k d.setting_key d.setting_value o
                ∙ rw at (ap some (here ((eq_iff d.setting_key k).0 at)).1))
        | inr away ↦ rw (never, away) (get-assign k d.setting_key d.setting_value o ∙ rw away refl)
      ]
    ]

last_value-any_key :
    (k : String) (v : SettingValue) (ds : List Setting) (before : Option SettingValue)
    → All (Tells k v) ds
    → last_value ds money k before ≡ (if any_key k ds then some v else before)
last_value-any_key k v [] before h = refl
last_value-any_key k v (d ∷ ds) before (here, h) =
    last_value-any_key k v ds _ h ∙ elim (Bool-cases (any_key k ds)) [
      | inl later ↦ elim (Bool-cases (str_eq d.setting_key k)) [
        | inl at ↦ rw (later, at) refl
        | inr away ↦ rw (later, away) refl
      ]
      | inr never ↦ elim (Bool-cases (str_eq d.setting_key k)) [
        | inl at ↦
            let (category, value) = here ((eq_iff d.setting_key k).0 at) in
            rw (never, at, (eq_iff d.setting_category money).1 category) (ap some value)
        | inr away ↦ elim (Bool-cases (str_eq d.setting_category money)) [
          | inl of_money ↦ rw (never, away, of_money) refl
          | inr other ↦ rw (never, away, other) refl
        ]
      ]
    ]

-- The settings that the server loads, and those that it lists for the client.
abbrev pub live : List Setting → List Setting
live = select (λ d. not d.removed)

abbrev pub public : List Setting → List Setting
public = select (λ d. not d.removed && not d.is_private)

any_key-public :
    (k : String) (v : SettingValue) (s : List Setting)
    → All (Says k v) s
    → any_key k (public s) ≡ any_key k (live s)
any_key-public k v [] h = refl
any_key-public k v (d ∷ s) (here, h) = elim (Bool-cases d.removed) [
  | inl gone ↦ rw gone (any_key-public k v s h)
  | inr kept ↦ elim (Bool-cases d.is_private) [
    | inr open_ ↦ rw (kept, open_) (ap (λ b. has_key k d || b) (any_key-public k v s h))
    | inl hidden ↦ elim (Bool-cases (str_eq d.setting_key k)) [
      | inl at ↦ cc (here kept ((eq_iff d.setting_key k).0 at)).0
      | inr away ↦ rw (kept, hidden, away) (any_key-public k v s h)
    ]
  ]
]

-- What holds of every setting that a test keeps, if the test keeps only live ones.
Tells-select :
    (k : String) (v : SettingValue) (p : Setting → Bool) (s : List Setting)
    → ((d : Setting) → p d ≡ true → d.removed ≡ false)
    → All (Says k v) s
    → All (Tells k v) (select p s)
Tells-select k v p [] lives h = tt
Tells-select k v p (d ∷ s) lives (here, h) = elim (Bool-cases (p d)) [
  | inl t ↦
      rw t
        ((λ at. let says = here (lives d t) at in (says.1, says.2)), Tells-select k v p s lives h)
  | inr f ↦ rw f (Tells-select k v p s lives h)
]

-- A sort gives the same settings in some order: what holds of all of the one holds of all of the other.
pub record IsSort (sort : List Setting → List Setting) : Type 1 where
  pub All-sort : (P : Setting → Type 0) (s : List Setting) → All P s ↔ All P (sort s)

any_key-false :
    (k : String) (s : List Setting) → (any_key k s ≡ false) ↔ All (λ d. has_key k d ≡ false) s
any_key-false k [] = ((λ e. tt), (λ h. refl))
any_key-false k (d ∷ s) = (
  (λ e. elim (Bool-cases (has_key k d)) [
    | inl at ↦ cc (rw at at e)
    | inr away ↦ (away, (any_key-false k s).0 (rw away at e))
  ]),
  (λ h. rw (h.0) ((any_key-false k s).1 h.1)),
)

any_key-sort :
    (sort : List Setting → List Setting) (k : String) (s : List Setting)
    → IsSort sort
    → any_key k (sort s) ≡ any_key k s
any_key-sort sort k s h =
    let same = h.All-sort (λ d. has_key k d ≡ false) s in
    elim (Bool-cases (any_key k s)) [
      | inr never ↦ (any_key-false k (sort s)).1 (same.0 ((any_key-false k s).0 never)) ∙ sym never
      | inl some_of ↦ elim (Bool-cases (any_key k (sort s))) [
        | inl t ↦ t ∙ sym some_of
        | inr never ↦
            absurd
              (cc (some_of, (any_key-false k s).1 (same.1 ((any_key-false k (sort s)).0 never))))
      ]
    ]

-- A key of the money format: what the server's object and the client's store hold for it.
pub value-agrees :
    (sort : List Setting → List Setting) (k : String) (v : SettingValue) (s : List Setting)
    → IsSort sort
    → All (Says k v) s
    → get (assign_all (live s) []) k ≡ last_value (sort (public s)) money k none
value-agrees sort k v s h says =
    let tells =
      Tells-select k v (λ d. not d.removed && not d.is_private) s (λ d e. ground arith) says in
    get-assign_all k v (live s) []
      (Tells-select k v (λ d. not d.removed) s (λ d e. ground arith) says)
    ∙ ap (λ b. if b then some v else none)
        (sym (any_key-sort sort k (public s) h ∙ any_key-public k v s says))
    ∙ sym (last_value-any_key k v (sort (public s)) none ((h.All-sort _ (public s)).0 tells))
