-- ===== src/Exchange/Paths.antt =====
-- Paths with dots between their names: strings.Split and the functions at the end of
-- internal/oe/federator/plan.go.
use Prim.Native.Char.{Char, code}
use openndx_core.Base.{
  String, ◌<>◌, Bool, true, false, ◌||◌, Option, none, some, List, [], ◌∷◌, ◌==◌, nat_eq, string_eq,
  if◌then◌else◌, ◌≡◌, refl,
}

abbrev pub is_dot : Char → Bool
is_dot c = code c == 46

-- A character before the first of some words.
abbrev pub before_first : Char → List String → List String
before_first c [] = (String.◌∷◌ c "") ∷ []
before_first c (w ∷ ws) = (String.◌∷◌ c w) ∷ ws

-- strings.Split, at every character that passes the test
unfoldable pub split_on : (Char → Bool) → String → List String
split_on sep String.[] = "" ∷ []
split_on sep (String.◌∷◌ c s) =
    let rest = split_on sep s in if sep c then "" ∷ rest else before_first c rest

-- strings.Split(path, ".")
abbrev pub split : String → List String
split path = split_on is_dot path

-- strings.CutPrefix
unfoldable pub cut_prefix : String → String → Option String
cut_prefix s String.[] = some s
cut_prefix String.[] (String.◌∷◌ d p) = none
cut_prefix (String.◌∷◌ c s) (String.◌∷◌ d p) =
    let rest = cut_prefix s p in if code c == code d then rest else none

abbrev pub is_some {ℓ} : {A : Type ℓ} → Option A → Bool
is_some none = false
is_some (some _) = true

-- strings.HasPrefix
abbrev pub starts_with : String → String → Bool
starts_with s p = is_some (cut_prefix s p)

unfoldable pub has_dot : String → Bool
has_dot String.[] = false
has_dot (String.◌∷◌ c s) = is_dot c || has_dot s

-- path[strings.LastIndex(path, ".")+1:]
unfoldable pub last_segment : String → String
unfolding has_dot
last_segment String.[] = ""
last_segment (String.◌∷◌ c s) =
    let rest = last_segment s in if has_dot s then rest else if is_dot c then s else String.◌∷◌ c s

unfoldable pub relative_path : String → String → String
relative_path path list = elim (cut_prefix path (list <> ".")) [
  | some rest ↦ rest
  | none ↦ last_segment path
]

unfoldable pub is_path_prefix : String → String → Bool
is_path_prefix path prefix = (path == prefix) || starts_with path (prefix <> ".")

-- hasPrefix, on paths of response keys
unfoldable pub has_prefix : List String → List String → Bool
has_prefix path [] = true
has_prefix [] (q ∷ prefix) = false
has_prefix (p ∷ path) (q ∷ prefix) =
    let rest = has_prefix path prefix in if p == q then rest else false

test_split : split "person.name" ≡ "person" ∷ "name" ∷ []
unfolding split_on nat_eq
test_split = refl

test_relative : relative_path "people.items.name" "people.items" ≡ "name"
unfolding relative_path cut_prefix nat_eq
test_relative = refl
