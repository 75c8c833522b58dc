-- ===== src/PublicFiles/Laws.antt =====
-- Which files the public route sends.
use dev_ops_projet.Base.{
  ◌≡◌, refl, sym, ap, subst, ◌∙◌, ◌↔◌, inl, inr, String, Bool, true, Option, some, List, [], ◌∷◌,
  Bool-cases, Option-cases,
}
use dev_ops_projet.PublicFiles.{NodePath, is_path_inside, file, serve_public}
use dev_ops_projet.PublicFiles.Guard.{IsNodePath, Below, is_path_inside-Below}

-- The route decodes each of the three names once more, and joins them to the root.
abbrev pub Asks :
    NodePath → (String → Option String) → (root sub_path directory file_name path : String) → Type 0
Asks n decode root sub_path directory file_name path =
    (a : String) × (b : String) × (c : String) × (decode sub_path ≡ some a)
    × (decode directory ≡ some b)
    × (decode file_name ≡ some c)
    × (path ≡ n.join (root ∷ n.join (a ∷ b ∷ c ∷ []) ∷ []))

-- A request is answered with the file at a path exactly when its three names, decoded, ask for that
-- path, the path is below the public folder and not the folder itself, and the file can be sent.
pub serve_public-Below :
    (n : NodePath) (names : String → List String) (decode : String → Option String)
    (sends : String → Bool) (root sub_path directory file_name path : String)
    → IsNodePath n names
    → (serve_public n decode sends root sub_path directory file_name ≡ file path) ↔ (
        Asks n decode root sub_path directory file_name path
        × Below names root path
        × (sends path ≡ true))
unfolding serve_public
serve_public-Below n names decode sends root sub_path directory file_name path h = (to, from)
  where
    to :
        serve_public n decode sends root sub_path directory file_name ≡ file path
        → Asks n decode root sub_path directory file_name path
          × Below names root path
          × (sends path ≡ true)
    to e = elim (Option-cases (decode sub_path)) [
      | inl bad ↦ cc (rw (serve_public, bad) at e)
      | inr (a, da) ↦ elim (Option-cases (decode directory)) [
        | inl bad ↦ cc (rw (serve_public, da, bad) at e)
        | inr (b, db) ↦ elim (Option-cases (decode file_name)) [
          | inl bad ↦ cc (rw (serve_public, da, db, bad) at e)
          | inr (c, dc) ↦
              let p = n.join (root ∷ n.join (a ∷ b ∷ c ∷ []) ∷ []) in
              elim (Bool-cases (is_path_inside n p root)) [
                | inr out ↦ cc (rw (serve_public, da, db, dc, out) at e)
                | inl inside ↦ elim (Bool-cases (sends p)) [
                  | inr lost ↦ cc (rw (serve_public, da, db, dc, inside, lost) at e)
                  | inl sent ↦
                      let same : p ≡ path = cc (rw (serve_public, da, db, dc, inside, sent) at e) in
                      (
                        (a, b, c, da, db, dc, sym same),
                        subst (Below names root) same
                            ((is_path_inside-Below n names h p root).0 inside),
                        ap sends (sym same) ∙ sent,
                      )
                ]
              ]
        ]
      ]
    ]

    from :
        Asks n decode root sub_path directory file_name path
          × Below names root path
          × (sends path ≡ true)
        → serve_public n decode sends root sub_path directory file_name ≡ file path
    from ((a, b, c, da, db, dc, e), below, sent) =
        let inside = (is_path_inside-Below n names h path root).1 below in
        rw (serve_public, da, db, dc, ← e, inside, sent) refl
