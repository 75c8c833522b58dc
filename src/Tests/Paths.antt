-- ===== src/Tests/Paths.antt =====
-- The paths of a system like node's, and requests for public files.
use Prim.Native.Char.{code}
use Prim.Native.String.{[] as nil, ◌∷◌ as char, ◌++◌ as append}
use dev_ops_projet.Base.{
  ◌≡◌, refl, sym, ap, ◌∙◌, ◌≢◌, ◌↔◌, ◌⊎◌, inl, inr, String, str_eq, eq_iff, true, false, ◌||◌, some,
  List, [], ◌∷◌, ◌++◌, All, arith, ◌==◌, Bool-cases, if◌then◌else◌,
}
use dev_ops_projet.PublicFiles.{NodePath, file, serve_public}
use dev_ops_projet.PublicFiles.Names.{IsName, no_slash, joined}
use dev_ops_projet.PublicFiles.Guard.{IsNodePath, Below, split}
use dev_ops_projet.PublicFiles.Laws.{Asks, serve_public-Below}

-- The parts of a path between its slashes.
abbrev pieces : String → List String
pieces nil = "" ∷ []
pieces (char c s) = elim (pieces s) [
  | [] ↦ []
  | x ∷ xs ↦ if code c == 47 then "" ∷ x ∷ xs else char c x ∷ xs
]

-- The names on the way, the last one first.
abbrev enter : List String → String → List String
enter way x =
    if str_eq x "" || str_eq x "."
    then way
    else if str_eq x ".."
    then elim way [ [] ↦ [] | y ∷ ys ↦ ys ]
    else x ∷ way

abbrev walk : List String → List String → List String
walk way [] = way
walk way (x ∷ xs) = walk (enter way x) xs

abbrev turned : List String → List String → List String
turned [] acc = acc
turned (x ∷ xs) acc = turned xs (x ∷ acc)

abbrev names_of : String → List String
names_of p = turned (walk [] (pieces p)) []

abbrev NoSlash : String → Type 0
NoSlash x = no_slash x ≡ true

pieces-NoSlash : (s : String) → All NoSlash (pieces s)
pieces-NoSlash nil = (refl, tt)
pieces-NoSlash (char c s) = by_rest (pieces s) (pieces-NoSlash s)
  where
    by_rest :
        (l : List String)
        → All NoSlash l
        → All NoSlash
            (elim l [ [] ↦ [] | x ∷ xs ↦ if code c == 47 then "" ∷ x ∷ xs else char c x ∷ xs ])
    by_rest [] h = tt
    by_rest (x ∷ xs) (p, h) = elim (Bool-cases (code c == 47)) [
      | inl t ↦ rw t (refl, (p, h))
      | inr f ↦ rw f ((rw f p), h)
    ]

enter-IsName :
    (way : List String) (x : String) → NoSlash x → All IsName way → All IsName (enter way x)
enter-IsName way x plain h = elim (Bool-cases (str_eq x "" || str_eq x ".")) [
  | inl t ↦ rw t h
  | inr f ↦ elim (Bool-cases (str_eq x "..")) [
    | inl t ↦ rw (f, t) (up way h)
    | inr g ↦ rw (f, g) (((λ e. empty x e f), (λ e. inner x e g), plain), h)
  ]
]
  where
    up : (l : List String) → All IsName l → All IsName (elim l [ [] ↦ [] | y ∷ ys ↦ ys ])
    up [] h = tt
    up (y ∷ ys) h = h.1

    empty : (x : String) → x ≡ "" → (str_eq x "" || str_eq x ".") ≡ false → ⊥
    empty x e f = ground (arith, eq_iff x "")

    inner : (x : String) → x ≡ ".." → str_eq x ".." ≡ false → ⊥
    inner x e f = ground (arith, eq_iff x "..")

walk-IsName : (way xs : List String) → All NoSlash xs → All IsName way → All IsName (walk way xs)
walk-IsName way [] plain h = h
walk-IsName way (x ∷ xs) (p, plain) h = walk-IsName (enter way x) xs plain (enter-IsName way x p h)

turned-IsName : (xs acc : List String) → All IsName xs → All IsName acc → All IsName (turned xs acc)
turned-IsName [] acc h k = k
turned-IsName (x ∷ xs) acc (p, h) k = turned-IsName xs (x ∷ acc) h (p, k)

-- The names that remain behind a folder's, or the way up.
abbrev relative_names : List String → List String → String
relative_names us vs = elim (split us vs) [ inl (rest, e) ↦ joined rest | inr other ↦ ".." ]

abbrev posix : NodePath
posix = record {
  join = joined;
  relative = λ from to. relative_names (names_of from) (names_of to);
  resolve = λ p. append "/" p;
}

same_rest : (us a b : List String) → us ++ a ≡ us ++ b → a ≡ b
same_rest [] a b e = e
same_rest (u ∷ us) a b e = same_rest us a b (cc)

relative-joined : (us vs rest : List String) → vs ≡ us ++ rest → relative_names us vs ≡ joined rest
relative-joined us vs rest e = by_split (split us vs)
  where
    by_split :
        (d : ((r : List String) × (vs ≡ us ++ r)) ⊎ ((r : List String) → vs ≢ us ++ r))
        → elim d as (λ x. String) [ inl (r, q) ↦ joined r | inr other ↦ ".." ] ≡ joined rest
    by_split (inl (r, q)) = ap joined (same_rest us r rest (sym q ∙ e))
    by_split (inr other) = absurd (other rest e)

relative-up :
    (us vs : List String) → ((rest : List String) → vs ≢ us ++ rest) → relative_names us vs ≡ ".."
relative-up us vs h = by_split (split us vs)
  where
    by_split :
        (d : ((r : List String) × (vs ≡ us ++ r)) ⊎ ((r : List String) → vs ≢ us ++ r))
        → elim d as (λ x. String) [ inl (r, q) ↦ joined r | inr other ↦ ".." ] ≡ ".."
    by_split (inl (r, q)) = absurd (h r q)
    by_split (inr other) = refl

posix-IsNodePath : IsNodePath posix names_of
posix-IsNodePath = record {
  names_lem = λ p. turned-IsName _ [] (walk-IsName [] (pieces p) (pieces-NoSlash p) tt) tt;
  relative-below = λ from to rest e. relative-joined (names_of from) (names_of to) rest e;
  relative-above = λ from to h. inl (relative-up (names_of from) (names_of to) h);
  resolve_lem = λ p. (p, refl);
}

public_file_example :
    (serve_public posix some (λ p. true) "/srv/public" "images" "photos" "a.jpg"
      ≡ file "/srv/public/images/photos/a.jpg")
    ↔ (Asks posix some "/srv/public" "images" "photos" "a.jpg" "/srv/public/images/photos/a.jpg"
        × Below names_of "/srv/public" "/srv/public/images/photos/a.jpg"
        × (true ≡ true))
public_file_example =
    serve_public-Below posix names_of some (λ p. true) "/srv/public" "images" "photos" "a.jpg"
      "/srv/public/images/photos/a.jpg" posix-IsNodePath
