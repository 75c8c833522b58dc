-- ===== src/DefaultItem/Drift.antt =====
-- Where taxesController and paymentModeController lose the single default: the update of an entry
-- that is not the default.
use dev_ops_projet.Base.{
  ℕ, suc, ◌≡◌, refl, ◌∙◌, String, Bool, true, false, not, ◌&&◌, ◌||◌, leb, length, none, some, inl,
  inr, List, arith, Bool-cases, Option-cases, ◌==◌,
}
use dev_ops_projet.Mongo.{Mongoose, in_memory, first, select, update_first}
use dev_ops_projet.Mongo.Laws.{IsMongoose, eq-in_memory}
use dev_ops_projet.Mongo.Keys.{update_first-none}
use dev_ops_projet.DefaultItem.{
  Entry, EntryChange, given, is_live, is_candidate, promote, apply_change, update_entry,
  update_resolved,
}
use dev_ops_projet.DefaultItem.Laws.{defaults, defaults-update_first, default_to-eq, weight}

module _ {X : Type 0} (body : EntryChange X) (id : ℕ) (silent : body.is_default ≡ none) where
  -- A body that leaves `isDefault` out changes no default.
  defaults-apply_change :
      (s : List (Entry X))
      → defaults (update_first (λ e. e.id == id) (apply_change body) s) ≡ defaults s
  defaults-apply_change s = elim (Option-cases (first (λ e. e.id == id) s)) [
    | inl absent ↦ rw (update_first-none (λ e. e.id == id) (apply_change body) s absent)
    | inr (d, found) ↦
        let kept : weight (given body.is_default d.is_default) ≡ weight d.is_default = rw silent in
        omega (arith, defaults-update_first (λ e. e.id == id) (apply_change body) s d found, kept)
  ]

  defaults-promote :
      (s : List (Entry X)) (e : Entry X)
      → first (is_candidate id) s ≡ some e
      → e.is_default ≡ false
      → defaults (update_first (is_candidate id) promote s) ≡ suc (defaults s)
  defaults-promote s e found plain =
      let was : weight e.is_default ≡ 0 = rw plain in
      omega (arith, defaults-update_first (is_candidate id) promote s e found, was)

  resolved_adds :
      (done only_one : String) (enabled : Bool) (s : List (Entry X)) (e : Entry X)
      → first (is_candidate id) s ≡ some e
      → e.is_default ≡ false
      → defaults (update_resolved in_memory done only_one body id false enabled s).1
        ≡ suc (defaults s)
  unfolding update_resolved
  resolved_adds done only_one enabled s e found plain =
      let s₁ = update_first (is_candidate id) promote s in
      let refused = (not enabled || true) && leb (length (select (λ _. true) s₁)) 1 in
      elim (Bool-cases refused) [
        | inl few ↦ rw (few, update_resolved) (defaults-promote s e found plain)
        | inr many ↦
            rw (many, update_resolved) (defaults-apply_change s₁ ∙ defaults-promote s e found plain)
      ]

adds_in_memory :
    {X : Type 0} (done only_one : String) (body : EntryChange X) (id : ℕ) (s : List (Entry X))
    (d e : Entry X)
    → first (is_live id) s ≡ some d
    → d.is_default ≡ false
    → body.is_default ≡ none
    → first (is_candidate id) s ≡ some e
    → e.is_default ≡ false
    → defaults (update_entry in_memory done only_one body id s).1 ≡ suc (defaults s)
unfolding update_entry
adds_in_memory done only_one body id s d e found plain silent next other =
    let e₁ = default_to-eq body.is_default (λ x. x.is_default) d false (rw silent plain) in
    let e₂ = default_to-eq body.enabled (λ x. x.enabled) d _ refl in
    rw (update_entry, found, e₁, found, e₂)
      (resolved_adds body id silent done only_one (given body.enabled d.enabled) s e next other)

-- A body that leaves `isDefault` out, for an entry that is not the default, makes another enabled
-- entry a default: the first that is not this one, if it is not a default yet, is added to those
-- that there are. So renaming one tax may leave two defaults.
pub update_entry-adds_default :
    {X : Type 0} (db : Mongoose) (done only_one : String) (body : EntryChange X) (id : ℕ)
    (s : List (Entry X)) (d e : Entry X)
    → IsMongoose db
    → first (is_live id) s ≡ some d
    → d.is_default ≡ false
    → body.is_default ≡ none
    → first (is_candidate id) s ≡ some e
    → e.is_default ≡ false
    → defaults (update_entry db done only_one body id s).1 ≡ suc (defaults s)
update_entry-adds_default db done only_one body id s d e m found plain silent next other =
    rw (eq-in_memory m) (adds_in_memory done only_one body id s d e found plain silent next other)
