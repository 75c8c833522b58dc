-- ===== src/PublicFiles/Guard.antt =====
-- The guard against paths out of a folder, by the names in the paths.
use Prim.Native.String.{◌++◌ as append}
use dev_ops_projet.Base.{
  ◌≡◌, refl, sym, ap, subst, ◌∙◌, ◌≢◌, ◌↔◌, ◌⊎◌, inl, inr, String, str_eq, eq_iff, Bool, true,
  false, not, ◌&&◌, List, [], ◌∷◌, ◌++◌, All, arith, Bool-cases,
}
use dev_ops_projet.Uploads.{starts_with}
use dev_ops_projet.PublicFiles.{NodePath, is_path_inside}
use dev_ops_projet.PublicFiles.Names.{
  IsName, joined, first_name, first_name-slash, first_name-joined, first_name-starts_with,
  starts_with-append,
}

-- The documented behaviour of node's `path` on absolute paths, whose names `names` lists: the path from
-- a folder to what is in it, or to itself, has the names that remain; any other leads to the folder
-- above first; and `resolve` gives an absolute path.
pub record IsNodePath (n : NodePath) (names : String → List String) : Type 0 where
  pub names_lem : (p : String) → All IsName (names p)
  pub relative-below :
      (from to : String) (rest : List String)
      → names to ≡ names from ++ rest
      → n.relative from to ≡ joined rest
  pub relative-above :
      (from to : String)
      → ((rest : List String) → names to ≢ names from ++ rest)
      → (n.relative from to ≡ "..") ⊎ ((t : String) × (n.relative from to ≡ append "../" t))
  pub resolve_lem : (p : String) → (t : String) × (n.resolve p ≡ append "/" t)

-- The path `p` is below the folder `root`, and not the folder itself.
abbrev pub Below : (String → List String) → String → String → Type 0
Below names root p = (x : String) × (xs : List String) × (names p ≡ names root ++ (x ∷ xs))

-- Whether a list starts with another, and what remains.
pub split :
    (us vs : List String)
    → ((rest : List String) × (vs ≡ us ++ rest)) ⊎ ((rest : List String) → vs ≢ us ++ rest)
split [] vs = inl (vs, refl)
split (u ∷ us) [] = inr (λ rest e. cc)
split (u ∷ us) (v ∷ vs) = elim (Bool-cases (str_eq u v)) [
  | inl t ↦ elim (split us vs) [
    | inl (rest, e) ↦ inl (rest, cc ((eq_iff u v).0 t))
    | inr other ↦ inr (λ rest e. other rest (cc))
  ]
  | inr f ↦ inr (λ rest e. differ u v (cc) f)
]
  where
    differ : (a b : String) → a ≡ b → str_eq a b ≡ false → ⊥
    differ a b e f = ground (arith, eq_iff a b)

str_eq-ne : (s t : String) → s ≢ t → str_eq s t ≡ false
str_eq-ne s t h = ground (arith, eq_iff s t)

All-middle :
    {A : Type 0} (P : A → Type 0) (us : List A) (x : A) (xs : List A) → All P (us ++ x ∷ xs) → P x
All-middle P [] x xs h = h.0
All-middle P (u ∷ us) x xs h = All-middle P us x xs h.1

module _ (n : NodePath) (names : String → List String) (h : IsNodePath n names)
    (child parent : String) where
  -- The four tests, by what the relation is.
  inside_of_joined :
      (x : String) (xs : List String)
      → IsName x
      → n.relative parent child ≡ joined (x ∷ xs)
      → is_path_inside n child parent ≡ true
  unfolding is_path_inside
  inside_of_joined x xs (filled, inner, plain) e =
      let r = n.relative parent child in
      let first : first_name r ≡ x =
        ap first_name e ∙ first_name-joined x xs (filled, inner, plain) in
      let (t, absolute) = h.resolve_lem child in
      let here : str_eq r "" ≡ false = str_eq-ne r "" (λ q. filled (sym first ∙ ap first_name q)) in
      let up : str_eq r ".." ≡ false =
        str_eq-ne r ".." (λ q. inner (sym first ∙ ap first_name q)) in
      let from_root : str_eq r (n.resolve child) ≡ false =
        str_eq-ne r (n.resolve child) (λ q.
          filled (sym first ∙ ap first_name q ∙ ap first_name absolute ∙ first_name-slash t)) in
      elim (Bool-cases (starts_with r "../")) [
        | inl above ↦ absurd (inner (sym first ∙ first_name-starts_with r above))
        | inr within ↦ rw (here, up, within, from_root) refl
      ]

  outside_of_dots :
      (n.relative parent child ≡ "..") ⊎ ((t : String) × (n.relative parent child ≡ append "../" t))
      → is_path_inside n child parent ≡ false
  unfolding is_path_inside
  outside_of_dots (inl e) = not_up _ _ _ _ ((eq_iff (n.relative parent child) "..").1 e)
    where
      not_up : (a b c d : Bool) → b ≡ true → (not a && not b && not c && not d) ≡ false
      not_up a b c d t = ground arith
  outside_of_dots (inr (t, e)) =
      not_above _ _ _ _ (ap (λ r. starts_with r "../") e ∙ starts_with-append t)
    where
      not_above : (a b c d : Bool) → c ≡ true → (not a && not b && not c && not d) ≡ false
      not_above a b c d t = ground arith

  outside_of_same : n.relative parent child ≡ "" → is_path_inside n child parent ≡ false
  unfolding is_path_inside
  outside_of_same e = same _ _ _ _ ((eq_iff (n.relative parent child) "").1 e)
    where
      same : (a b c d : Bool) → a ≡ true → (not a && not b && not c && not d) ≡ false
      same a b c d t = ground arith

  -- The guard accepts exactly the paths below the folder.
  pub is_path_inside-Below : (is_path_inside n child parent ≡ true) ↔ Below names parent child
  is_path_inside-Below = (
    (λ inside. elim (split (names parent) (names child)) [
      | inl ([], e) ↦ absurd (cc (inside, outside_of_same (h.relative-below parent child [] e)))
      | inl (x ∷ xs, e) ↦ (x, xs, e)
      | inr other ↦ absurd (cc (inside, outside_of_dots (h.relative-above parent child other)))
    ]),
    (λ (x, xs, e).
        inside_of_joined x xs
          (All-middle IsName (names parent) x xs (subst (All IsName) e (h.names_lem child)))
          (h.relative-below parent child (x ∷ xs) e)),
  )
