-- ===== src/Auth/Url.antt =====
-- createAuthMiddleware/checkAndCorrectURL.js: the address of the application in the mail of a forgotten
-- password.
use Prim.Native.Char.{Char, code}
use Prim.Native.String.{[] as nil, ◌∷◌ as char, ◌++◌ as append}
use dev_ops_projet.Base.{
  ◌≡◌, refl, ◌+◌, String, Bool, true, false, ◌&&◌, ◌||◌, ltb, ◌==◌, if◌then◌else◌, inl, inr,
  Bool-cases,
}
use dev_ops_projet.Downloads.{skip_chars}
use dev_ops_projet.Uploads.{starts_with}

-- The flag `i` of the pattern: a letter in upper case is 32 below the one in lower case.
abbrev in_either_case : Char → Char → Bool
in_either_case c d =
    code c == code d || (ltb 64 (code c) && ltb (code c) 91 && (code c + 32 == code d))

abbrev starts_in_either_case : String → String → Bool
starts_in_either_case s nil = true
starts_in_either_case nil (char d p) = false
starts_in_either_case (char c s) (char d p) =
    let rest = starts_in_either_case s p in in_either_case c d && rest

-- `replace(/^https?:\/\//i, '')`
abbrev pub without_scheme : String → String
without_scheme url =
    if starts_in_either_case url "http://"
    then skip_chars 7 url
    else if starts_in_either_case url "https://"
    then skip_chars 8 url
    else url

abbrev is_empty : String → Bool
is_empty nil = true
is_empty (char c s) = false

-- `replace(/\/+$/, '')`
abbrev pub without_slashes : String → String
without_slashes nil = nil
without_slashes (char c s) =
    let rest = without_slashes s in if is_empty rest && (code c == 47) then nil else char c rest

unfoldable pub check_and_correct_url : String → String
check_and_correct_url url =
    let has_https = starts_with url "https://" in
    append (if has_https then "https://" else "http://") (without_slashes (without_scheme url))

-- No slash is left at the end: another pass changes nothing.
without_slashes-twice : (s : String) → without_slashes (without_slashes s) ≡ without_slashes s
without_slashes-twice nil = refl
without_slashes-twice (char c s) =
    elim (Bool-cases (is_empty (without_slashes s) && (code c == 47))) [
      | inl t ↦ rw t refl
      | inr t ↦ rw (t, without_slashes-twice s, t) refl
    ]
