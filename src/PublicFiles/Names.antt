-- ===== src/PublicFiles/Names.antt =====
-- The names in a path: the first name, and paths that are put together of names.
use Prim.Native.Char.{code}
use Prim.Native.String.{[] as nil, ◌∷◌ as char, ◌++◌ as append}
use Prim.Native.String.append.{nil as append-nil_left, cons as append-char}
use text.Mathlib.TextEquality.{Char-path}
use dev_ops_projet.Base.{
  ◌≡◌, refl, ap, ◌∙◌, ◌≢◌, String, Bool, true, false, ◌&&◌, List, [], ◌∷◌, ◌==◌, ==_iff, inl, inr,
  if◌then◌else◌, Bool-cases, arith,
}
use dev_ops_projet.Uploads.{starts_with}

-- What stands before the first slash.
abbrev pub first_name : String → String
first_name nil = nil
first_name (char c s) = let rest = first_name s in if code c == 47 then nil else char c rest

abbrev pub no_slash : String → Bool
no_slash nil = true
no_slash (char c s) = let rest = no_slash s in if code c == 47 then false else rest

-- A name in a path: not empty, without a slash, and not the name of the folder above.
abbrev pub IsName : String → Type 0
IsName x = (x ≢ "") × (x ≢ "..") × (no_slash x ≡ true)

-- The names with slashes between them.
abbrev pub joined : List String → String
joined [] = ""
joined (x ∷ []) = x
joined (x ∷ y ∷ rest) = append x (append "/" (joined (y ∷ rest)))

first_name-whole : (x : String) → no_slash x ≡ true → first_name x ≡ x
first_name-whole nil h = refl
first_name-whole (char c s) h = elim (Bool-cases (code c == 47)) [
  | inl at ↦ cc (rw at at h)
  | inr away ↦ rw away (ap (char c) (first_name-whole s (rw away at h)))
]

-- A slash and what follows it, and a text put before it.
pub first_name-slash : (t : String) → first_name (append "/" t) ≡ ""
first_name-slash t = ap first_name (append-char "/" nil t)

first_name-append : (x t : String) → no_slash x ≡ true → first_name (append x (append "/" t)) ≡ x
first_name-append nil t h = ap first_name (append-nil_left (append "/" t)) ∙ first_name-slash t
first_name-append (char c s) t h = elim (Bool-cases (code c == 47)) [
  | inl at ↦ cc (rw at at h)
  | inr away ↦
      ap first_name (append-char c s (append "/" t))
      ∙ rw away (ap (char c) (first_name-append s t (rw away at h)))
]

pub first_name-joined :
    (x : String) (xs : List String) → IsName x → first_name (joined (x ∷ xs)) ≡ x
first_name-joined x [] (_, _, plain) = first_name-whole x plain
first_name-joined x (y ∷ rest) (_, _, plain) = first_name-append x (joined (y ∷ rest)) plain

all_three : (x y z : Bool) → (x && (y && (z && true))) ≡ true → (x ≡ true) × (y ≡ true) × (z ≡ true)
all_three x y z h = ground arith

-- A text that starts with the folder above has it as its first name, and so has that name alone.
dots :
    (s : String)
    → starts_with s "../" ≡ true
    → (t : String) × (s ≡ char "." (char "." (char "/" t)))
dots nil h = cc
dots (char a nil) h = absurd (none_of (code a == 46) h)
  where
    none_of : (x : Bool) → (x && false) ≡ true → ⊥
    none_of x e = ground arith
dots (char a (char b nil)) h = absurd (none_of (code a == 46) (code b == 46) h)
  where
    none_of : (x y : Bool) → (x && (y && false)) ≡ true → ⊥
    none_of x y e = ground arith
dots (char a (char b (char c s))) h =
    let (p, q, r) = all_three (code a == 46) (code b == 46) (code c == 47) h in
    (
      s,
      cc (
        Char-path a "." ((==_iff (code a) 46).0 p),
        Char-path b "." ((==_iff (code b) 46).0 q),
        Char-path c "/" ((==_iff (code c) 47).0 r),
      ),
    )

pub first_name-starts_with : (s : String) → starts_with s "../" ≡ true → first_name s ≡ ".."
first_name-starts_with s h = let (t, e) = dots s h in ap first_name e

pub starts_with-append : (t : String) → starts_with (append "../" t) "../" ≡ true
starts_with-append t =
    ap (λ s. starts_with s "../")
      (append-char "." "./" t
        ∙ ap (char ".") (append-char "." "/" t ∙ ap (char ".") (append-char "/" nil t)))
