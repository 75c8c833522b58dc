-- ===== src/Auth/Header.antt =====
-- `authHeader && authHeader.split(' ')[1]`, and its truth: the token of isValidAuthToken.js and
-- logout.js. `none` is an absent or empty token.
use Prim.Native.Char.{code}
use Prim.Native.String.{[], ◌∷◌}
use dev_ops_projet.Base.{String, Option, none, some, ◌==◌, if◌then◌else◌}
use dev_ops_projet.Settings.{present}

-- The part before the first space, and the part behind it if there is a space.
abbrev pub before_space : String → String
before_space [] = ""
before_space (c ∷ s) = let rest = before_space s in if code c == 32 then "" else c ∷ rest

abbrev pub behind_space : String → Option String
behind_space [] = none
behind_space (c ∷ s) = let rest = behind_space s in if code c == 32 then some s else rest

unfoldable pub token_of : Option String → Option String
token_of none = none
token_of (some header) = elim (behind_space header) [
  | none ↦ none
  | some rest ↦ present (some (before_space rest))
]
