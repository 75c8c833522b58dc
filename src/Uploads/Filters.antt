-- ===== src/Uploads/Filters.antt =====
-- What the filters of the uploads let through, as a table.
use dev_ops_projet.Base.{
  ◌≡◌, refl, sym, ◌∙◌, inl, inr, arith, String, str_eq, includes, Bool, true, false, not, ◌&&◌,
  ◌||◌, List, [], ◌∷◌, subst, eq_iff, if◌then◌else◌, Bool-cases,
}
use Prim.Native.String.{◌++◌ as append}
use dev_ops_projet.Uploads.{
  starts_with, file_type, kept_flag, accepted, refused, file_filter, file_filter_middleware,
}

-- The starts of the media types that a kind of file can have; any for a kind without a row.
abbrev pub starts_of : String → List String
starts_of type =
    if str_eq type "image"
    then "image/" ∷ []
    else if str_eq type "pdf"
    then "application/pdf" ∷ []
    else if str_eq type "video"
    then "video/" ∷ []
    else if str_eq type "audio"
    then "audio/" ∷ []
    else if str_eq type "text"
    then "text/" ∷ "application/vnd.ms-excel" ∷ "application/msword" ∷ []
    else if str_eq type "excel"
    then "application/vnd.ms-excel"
      ∷ "application/vnd.openxmlformats-officedocument.spreadsheetml.sheet" ∷ []
    else if str_eq type "compressed"
    then "application/zip" ∷ "application/vnd.rar" ∷ []
    else "" ∷ []

abbrev pub starts_with_any : String → List String → Bool
starts_with_any s [] = false
starts_with_any s (p ∷ ps) = starts_with s p || starts_with_any s ps

abbrev all_of : (String → Bool) → List String → Bool
all_of test [] = true
all_of test (x ∷ xs) = let rest = all_of test xs in test x && rest

all_of-includes :
    (test : String → Bool) (xs : List String) (s : String)
    → all_of test xs ≡ true
    → includes xs s ≡ true
    → test s ≡ true
unfolding includes
all_of-includes test [] s h e = cc
all_of-includes test (x ∷ xs) s h e = elim (Bool-cases (test x)) [
  | inr bad ↦ cc (rw bad at h)
  | inl good ↦ elim (Bool-cases (str_eq x s)) [
    | inl same ↦ subst (λ y. test y ≡ true) ((eq_iff x s).0 same) good
    | inr other ↦ all_of-includes test xs s (rw good at h) (rw (includes, other) at e)
  ]
]

-- The starts that the chain names and that no listed type has.
abbrev is_unlisted : String → Bool
is_unlisted m =
    starts_with m "application/vnd.openxmlformats-officedocument.wordprocessingml.document"
    || starts_with m "application/x-zip-compressed"

kept_flag-listed :
    (type m : String)
    → kept_flag type m (includes file_type m)
      ≡ (includes file_type m && starts_with_any m (starts_of type))
kept_flag-listed type m = elim (Bool-cases (includes file_type m)) [
  | inl e ↦
      let n = all_of-includes (λ x. not (is_unlisted x)) file_type m refl e in
      rw e (ground (arith, n))
  | inr e ↦ rw e (ground arith)
]

-- A file passes the filter of the memory uploads exactly when its kind is 'default', or its media type
-- is a listed one that has a start of its kind's row; and the filter of the disk uploads accepts the
-- same files and refuses the others with an error.
pub file_filter-listed :
    (type m : String)
    → (file_filter_middleware type m
        ≡ (str_eq type "default" || (includes file_type m && starts_with_any m (starts_of type))))
      × (file_filter type m ≡ (
          if file_filter_middleware type m
          then accepted
          else refused (append m " File type not supported!")))
unfolding file_filter file_filter_middleware
file_filter-listed type m = elim (Bool-cases (str_eq type "default")) [
  | inl t ↦ rw (file_filter, file_filter_middleware, t) (refl, refl)
  | inr n ↦
      let row = kept_flag-listed type m in
      elim (Bool-cases (kept_flag type m (includes file_type m))) [
        | inl k ↦ rw (file_filter, file_filter_middleware, n, k) (sym k ∙ row, refl)
        | inr k ↦ rw (file_filter, file_filter_middleware, n, k) (sym k ∙ row, refl)
      ]
]
