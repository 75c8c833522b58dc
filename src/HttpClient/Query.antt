-- ===== src/HttpClient/Query.antt =====
-- The query strings of request.js.
use Prim.Native.Char.{Char}
use Prim.Native.String.{[] as nil, ◌∷◌ as char, ◌++◌ as append}
use Prim.Native.String.append.{nil as append-nil_left, cons as append-char}
use text.Mathlib.TextLemmas.{append_assoc}
use dev_ops_projet.Base.{
  ◌≡◌, refl, sym, ap, ◌∙◌, String, str_eq, Option, none, some, List, [], ◌∷◌, if◌then◌else◌,
}

-- `slice(0, -1)`
abbrev pub drop_last : String → String
drop_last nil = nil
drop_last (char c nil) = nil
drop_last (char c (char d s)) = char c (drop_last (char d s))

-- `key + '=' + options[key]`
abbrev pub pair : String × String → String
pair (key, value) = append key (append "=" value)

-- The loop over the keys of `options`, in their order.
abbrev pub query_from : String → List (String × String) → String
query_from query [] = query
query_from query (option ∷ rest) = query_from (append query (append (pair option) "&")) rest

-- The query of `search`, `list`, `listAll` and `summary`.
unfoldable pub query_of : List (String × String) → String
query_of options = drop_last (query_from "?" options)

-- The query of `filter`; an option that is missing or empty gives no part.
abbrev pub part : String → Option String → String
part name none = ""
part name (some value) = if str_eq value "" then "" else append name value

unfoldable pub filter_query : Option String → Option String → String
filter_query filter equal = append "?" (append (part "filter=" filter) (part "&equal=" equal))

-- Independent of the loop: pairs with a separator between them.
abbrev pub joined : String × String → List (String × String) → String
joined option [] = pair option
joined option (next ∷ rest) = append (pair option) (append "&" (joined next rest))

pub drop_last-snoc : (s : String) (e : Char) → drop_last (append s (char e nil)) ≡ s
drop_last-snoc nil e = ap drop_last (append-nil_left (char e nil))
drop_last-snoc (char c nil) e =
    ap drop_last (append-char c nil (char e nil) ∙ ap (char c) (append-nil_left (char e nil)))
drop_last-snoc (char c (char d s)) e =
    let last = char e nil in
    ap drop_last (append-char c (char d s) last ∙ ap (char c) (append-char d s last))
    ∙ ap (λ t. char c (drop_last t)) (sym (append-char d s last))
    ∙ ap (char c) (drop_last-snoc (char d s) e)

drop_last-query_from :
    (query : String) (option : String × String) (rest : List (String × String))
    → drop_last (query_from query (option ∷ rest)) ≡ append query (joined option rest)
drop_last-query_from query option [] =
    ap drop_last (sym (append_assoc query (pair option) "&"))
    ∙ drop_last-snoc (append query (pair option)) "&"
drop_last-query_from query option (next ∷ rest) =
    drop_last-query_from (append query (append (pair option) "&")) next rest
    ∙ append_assoc query (append (pair option) "&") (joined next rest)
    ∙ ap (append query) (append_assoc (pair option) "&" (joined next rest))

-- A question mark and the pairs, nothing for no pair.
abbrev pub spelled : List (String × String) → String
spelled [] = ""
spelled (option ∷ rest) = append "?" (joined option rest)

-- The loop and the cut of its last character give nothing for no options, and otherwise a question
-- mark and the pairs with one separator between each two.
query_of-spelled : (options : List (String × String)) → query_of options ≡ spelled options
unfolding query_of
query_of-spelled [] = refl
query_of-spelled (option ∷ rest) = drop_last-query_from "?" option rest
