-- ===== src/Crud/Refinement.antt =====
-- A collection behind its handlers is a table from ids to fields: what the handlers do to the list of
-- documents is what the plain operations do to the table.
use dev_ops_projet.Base.{
  ℕ, ◌≡◌, refl, ap, ◌∙◌, ◌≢◌, subst, Bool, true, false, Option, none, some, inl, inr, List, [], ◌∷◌,
  ◌++◌, arith, All, Bool-cases, Option-cases, ◌==◌, ==_iff, if◌then◌else◌,
}
use mathlib.Core.Path.{fun_ext}
use dev_ops_projet.Http.{Outcome, reply, text}
use dev_ops_projet.Mongo.{Mongoose, in_memory, first, update_first}
use dev_ops_projet.Mongo.Laws.{IsMongoose, eq-in_memory}
use dev_ops_projet.Mongo.Keys.{first-eq-true, Distinct, Distinct-snoc, Distinct-update_first}
use dev_ops_projet.Crud.Laws.{first_live-fresh}
use dev_ops_projet.Crud.{Doc, is_live, create, read, update, remove}

-- The table, and its operations.
abbrev pub Table : Type 0 → Type 0
Table X = ℕ → Option X

module _ {X : Type 0} where
  abbrev pub insert : ℕ → X → Table X → Table X
  insert id x t = λ j. if id == j then some x else t j

  abbrev map_option : (X → X) → Option X → Option X
  map_option f none = none
  map_option f (some x) = some (f x)

  abbrev pub modify : ℕ → (X → X) → Table X → Table X
  modify id f t = λ j. if id == j then map_option f (t j) else t j

  abbrev pub delete : ℕ → Table X → Table X
  delete id t = λ j. if id == j then none else t j

  abbrev fields_of : Option (Doc X) → Option X
  fields_of none = none
  fields_of (some d) = some d.fields

  -- What a collection shows: the fields of the documents that are not removed.
  abbrev pub view : List (Doc X) → Table X
  view s = λ j. fields_of (first (is_live j) s)

-- Requests that change the collection: `id` of a creation is the new ObjectId, `accepts` the result
-- of an update's validators.
pub data Request (X : Type 0) : Type 0 where
  create_req : X → ℕ → Request X
  update_req : Bool → (X → X) → ℕ → Request X
  remove_req : ℕ → Request X

module _ {X : Type 0} (is_valid : X → Bool) where
  abbrev pub serve : Mongoose → Request X → List (Doc X) → List (Doc X)
  serve db (create_req body id) s = (create db is_valid body id s).1
  serve db (update_req accepts body id) s = (update db accepts body id s).1
  serve db (remove_req id) s = (remove db id s).1

  abbrev pub perform : Request X → Table X → Table X
  perform (create_req body id) t = if is_valid body then insert id body t else t
  perform (update_req accepts body id) t = if accepts then modify id body t else t
  perform (remove_req id) t = delete id t

  abbrev pub run : Mongoose → List (Request X) → List (Doc X) → List (Doc X)
  run db [] s = s
  run db (r ∷ rs) s = run db rs (serve db r s)

  abbrev pub replay : List (Request X) → Table X → Table X
  replay [] t = t
  replay (r ∷ rs) t = replay rs (perform r t)

  -- Every creation has an id that no document has at that moment.
  abbrev pub IsFresh : Request X → List (Doc X) → Type 0
  IsFresh (create_req body id) s = All (λ d. d.id ≢ id) s
  IsFresh (update_req accepts body id) s = Unit
  IsFresh (remove_req id) s = Unit

  abbrev pub AreFresh : Mongoose → List (Request X) → List (Doc X) → Type 0
  AreFresh db [] s = Unit
  AreFresh db (r ∷ rs) s = IsFresh r s × AreFresh db rs (serve db r s)

module _ {X : Type 0} (id j : ℕ) where
  view-save :
      (x : X) (s : List (Doc X))
      → All (λ d. d.id ≢ id) s
      → view (s ++ record { id = id; removed = false; fields = x } ∷ []) j ≡ insert id x (view s) j
  view-save x [] _ = ground arith
  view-save x (d ∷ s) (n, h) = ground (arith, view-save x s h, ==_iff d.id j, ==_iff id j)

  view-update :
      (f : X → X) (s : List (Doc X))
      → view
          (update_first (is_live id) (λ d. record d { removed = false; fields = f d.fields }) s)
          j
        ≡ modify id f (view s) j
  view-update f [] = ground arith
  view-update f (d ∷ s) =
      ground (arith, view-update f s, ==_iff d.id j, ==_iff d.id id, ==_iff id j)

  view-remove :
      (s : List (Doc X))
      → Distinct (λ d. d.id) s
      → view (update_first (λ d. d.id == id) (λ d. record d { removed = true }) s) j
        ≡ delete id (view s) j
  view-remove [] _ = ground arith
  view-remove (d ∷ s) (apart, u) = elim (Bool-cases (d.id == id)) [
    | inl at ↦
        let hidden : first (is_live d.id) s ≡ none = first_live-fresh d.id s apart in
        elim (Bool-cases (id == j)) [
          | inl here ↦
              let same : d.id ≡ j = (==_iff d.id id).0 at ∙ (==_iff id j).0 here in
              let gone : first (is_live j) s ≡ none =
                subst (λ k. first (is_live k) s ≡ none) same hidden in
              rw (at, here, gone) (ground arith)
          | inr there ↦ rw (at, there) (ground (arith, ==_iff d.id j, ==_iff d.id id, ==_iff id j))
        ]
    | inr away ↦ ground (arith, view-remove s u, away, ==_iff d.id j, ==_iff d.id id, ==_iff id j)
  ]

module _ {X : Type 0} (is_valid : X → Bool) where
  serve-view :
      (r : Request X) (s : List (Doc X)) (j : ℕ)
      → Distinct (λ d. d.id) s
      → IsFresh is_valid r s
      → view (serve is_valid in_memory r s) j ≡ perform is_valid r (view s) j
  unfolding create update remove
  serve-view (create_req body id) s j u fresh = elim (Bool-cases (is_valid body)) [
    | inl ok ↦ rw (serve, create, ok) (view-save id j body s fresh)
    | inr bad ↦ rw (serve, create, bad) refl
  ]
  serve-view (update_req false body id) s j u _ = refl
  serve-view (update_req true body id) s j u _ =
      let p : Doc X → Bool = is_live id in
      elim (Option-cases (first p s)) [
        | inl absent ↦ rw (serve, update, absent) (view-update id j body s)
        | inr (d, found) ↦ rw (serve, update, found) (view-update id j body s)
      ]
  serve-view (remove_req id) s j u _ = elim (Option-cases (first (λ d. d.id == id) s)) [
    | inl absent ↦ rw (serve, remove, absent) (view-remove id j s u)
    | inr (d, found) ↦ rw (serve, remove, found) (view-remove id j s u)
  ]

  serve-Distinct :
      (r : Request X) (s : List (Doc X))
      → Distinct (λ d. d.id) s
      → IsFresh is_valid r s
      → Distinct (λ d. d.id) (serve is_valid in_memory r s)
  unfolding create update remove
  serve-Distinct (create_req body id) s u fresh = elim (Bool-cases (is_valid body)) [
    | inl ok ↦ rw (serve, create, ok) (Distinct-snoc _ s _ fresh u)
    | inr bad ↦ rw (serve, create, bad) u
  ]
  serve-Distinct (update_req false body id) s u _ = u
  serve-Distinct (update_req true body id) s u _ =
      let kept =
        Distinct-update_first (is_live id)
          (λ d. record d { removed = false; fields = body d.fields }) (λ d. d.id) (λ d. refl) s u in
      elim (Option-cases (first (is_live id) s)) [
        | inl absent ↦ rw (serve, update, absent) kept
        | inr (d, found) ↦ rw (serve, update, found) kept
      ]
  serve-Distinct (remove_req id) s u _ =
      let kept =
        Distinct-update_first (λ d. d.id == id) (λ d. record d { removed = true }) (λ d. d.id)
          (λ d. refl) s u in
      elim (Option-cases (first (λ d. d.id == id) s)) [
        | inl absent ↦ rw (serve, remove, absent) kept
        | inr (d, found) ↦ rw (serve, remove, found) kept
      ]

  run-view :
      (rs : List (Request X)) (s : List (Doc X))
      → Distinct (λ d. d.id) s
      → AreFresh is_valid in_memory rs s
      → view (run is_valid in_memory rs s) ≡ replay is_valid rs (view s)
  run-view [] s _ _ = refl
  run-view (r ∷ rs) s u (fresh, later) =
      run-view rs (serve is_valid in_memory r s) (serve-Distinct r s u fresh) later
      ∙ ap (replay is_valid rs) (fun_ext (λ j. serve-view r s j u fresh))

-- What a table answers to a read.
abbrev pub shown : {X : Type 0} → ℕ → Option X → Outcome (Doc X)
shown id none = reply 404 false none (text "No document found ")
shown id (some x) =
    reply 200 true (some (record { id = id; removed = false; fields = x }))
      (text "we found this document ")

read-shown : {X : Type 0} (id : ℕ) (s : List (Doc X)) → read in_memory id s ≡ shown id (view s id)
unfolding read
read-shown id s = elim (Option-cases (first (is_live id) s)) [
  | inl absent ↦ rw (read, absent) refl
  | inr (d, found) ↦
      let live : is_live id d ≡ true = first-eq-true (is_live id) s d found in
      let same : d.id ≡ id = ground (arith, live, ==_iff d.id id) in
      let kept : d.removed ≡ false = ground (arith, live) in rw (read, found) (exact id d same kept)
]
  where
    exact :
        {X : Type 0} (id : ℕ) (d : Doc X)
        → d.id ≡ id
        → d.removed ≡ false
        → reply 200 true (some d) (text "we found this document ") ≡ shown id (some d.fields)
    exact id d same kept =
        ap (λ k. reply 200 true (some k) (text "we found this document "))
          (λ i. record { id = same i; removed = kept i; fields = d.fields })

-- Any run of creations, updates and removals, followed by a read of an id, answers what the same run
-- of insertions, changes and deletions of a table from ids to fields holds under that id: 200 with
-- the fields, or 404. The collection starts with distinct ids, and every creation gets an id that no
-- document has at that moment.
pub run-read :
    {X : Type 0} (db : Mongoose) (is_valid : X → Bool) (rs : List (Request X)) (s : List (Doc X))
    (id : ℕ)
    → IsMongoose db
    → Distinct (λ d. d.id) s
    → AreFresh is_valid db rs s
    → read db id (run is_valid db rs s) ≡ shown id (replay is_valid rs (view s) id)
run-read db is_valid rs s id m u = rw (eq-in_memory m) (λ fresh.
    read-shown id (run is_valid in_memory rs s)
    ∙ ap (λ t. shown id (t id)) (run-view is_valid rs s u fresh))
