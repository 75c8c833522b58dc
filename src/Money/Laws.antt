-- ===== src/Money/Laws.antt =====
-- An amount reads the same on the client's pages and in the server's PDF files.
use dev_ops_projet.Base.{
  ltb, length, Option-cases, ℤ, ◌≡◌, refl, sym, ap, ◌∙◌, String, true, false, Option, none, some,
  inl, inr, List, [], All, includes, Bool-cases,
}
use dev_ops_projet.Mongo.{Mongoose, in_memory}
use dev_ops_projet.Mongo.Laws.{IsMongoose, eq-in_memory}
use dev_ops_projet.Settings.{Setting, SettingValue, assign_all, load_settings, list_all_settings}
use dev_ops_projet.Http.{Outcome, respond}
use dev_ops_projet.Settings.Many.{list_all}
use dev_ops_projet.SettingsStore.{Category, spread, World, Answer, update}
use dev_ops_projet.SettingsStore.Laws.{last_value, update-last_value}
use dev_ops_projet.Money.{
  Formatter, get, money_keys, selected, pdf_money_formatter, money_format_state,
  client_money_formatter, money_formatter,
}
use dev_ops_projet.Money.Lookup.{money, Says, live, public, IsSort, value-agrees}

-- The listing as the client's answer has it.
abbrev pub answer_of : Outcome (List Setting) → Answer
answer_of (respond r) = record {
  success = r.success;
  result = elim r.result [ none ↦ [] | some ds ↦ ds ];
}
answer_of _ = record { success = false; result = [] }

-- The two formatters differ in nothing but where they read.
client_money_formatter-money_formatter :
    (f : Formatter) (state : Option Category) (settings : Category) (amount : ℤ)
    → ((k : String) → includes money_keys k ≡ true → spread state k ≡ settings k)
    → client_money_formatter f state amount ≡ money_formatter f settings amount
unfolding client_money_formatter money_formatter includes
client_money_formatter-money_formatter f state settings amount same = simp (
  same "currency_symbol" refl,
  same "currency_position" refl,
  same "decimal_sep" refl,
  same "thousand_sep" refl,
  same "cent_precision" refl,
  same "zero_format" refl,
)

list_all-public :
    (sort : List Setting → List Setting) (s : List Setting)
    → (answer_of (list_all in_memory sort s)).success ≡ true
    → (answer_of (list_all in_memory sort s)).result ≡ sort (public s)
unfolding list_all
list_all-public sort s got = elim (Bool-cases (ltb 0 (length (sort (public s))))) [
  | inl t ↦ rw (list_all, t) refl
  | inr t ↦ cc (rw (list_all, t) at got)
]

money_format_state-store :
    (w : World) → w.local ≡ some w.store.result → money_format_state w ≡ w.store.result money
unfolding money_format_state
money_format_state-store w kept = elim (Option-cases (w.store.result money)) [
  | inl missing ↦ rw (money_format_state, missing, kept) missing
  | inr (c, found) ↦ rw (money_format_state, found)
]

agrees_in_memory :
    (f : Formatter) (sort : List Setting → List Setting) (s : List Setting)
    (v : String → SettingValue) (answer : Answer) (w : World) (amount : ℤ)
    → IsSort sort
    → ((k : String) → includes money_keys k ≡ true → All (Says k (v k)) s)
    → answer.success ≡ true
    → (answer_of (list_all in_memory sort s)).success ≡ true
    → client_money_formatter f
        (money_format_state (update (some answer) (some (answer_of (list_all in_memory sort s))) w))
        amount
      ≡ pdf_money_formatter in_memory f s amount
unfolding pdf_money_formatter load_settings list_all_settings
agrees_in_memory f sort s v answer w amount h says ok got =
    let settings : Category = get (assign_all (live s) []) in
    let listed = answer_of (list_all in_memory sort s) in
    let w' = update (some answer) (some listed) w in
    client_money_formatter-money_formatter f (money_format_state w') (selected settings) amount
      (λ k of_money.
        let (holds, _, kept) = update-last_value answer listed w money k ok got in
        ap (λ c. spread c k) (money_format_state-store w' kept)
        ∙ holds
        ∙ ap (λ ds. last_value ds money k none) (list_all-public sort s got)
        ∙ sym (value-agrees sort k (v k) s h (says k of_money))
        ∙ rw of_money refl)

-- After an update that the server accepts and a listing: if every live setting with a key of the money
-- format is public, of that category, and says the same as the others with its key, an amount reads
-- the same on the client's pages as in the PDF files of the server.
pub client_money_formatter-pdf_money_formatter :
    (db : Mongoose) (f : Formatter) (sort : List Setting → List Setting) (s : List Setting)
    (v : String → SettingValue) (answer : Answer) (w : World) (amount : ℤ)
    → IsMongoose db
    → IsSort sort
    → ((k : String) → includes money_keys k ≡ true → All (Says k (v k)) s)
    → answer.success ≡ true
    → (answer_of (list_all db sort s)).success ≡ true
    → client_money_formatter f
        (money_format_state (update (some answer) (some (answer_of (list_all db sort s))) w))
        amount
      ≡ pdf_money_formatter db f s amount
client_money_formatter-pdf_money_formatter db f sort s v answer w amount m h says ok got =
    let t : (answer_of (list_all in_memory sort s)).success ≡ true = rw (eq-in_memory m) at got in
    rw (eq-in_memory m) (agrees_in_memory f sort s v answer w amount h says ok t)
