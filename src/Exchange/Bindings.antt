-- ===== src/Exchange/Bindings.antt =====
-- The arguments of a query that mappings name: BindArguments of
-- internal/oe/federator/operation/operation.go.
use Prim.Native.Char.{Char, code}
use openndx_core.Base.{
  String, ◌<>◌, Bool, true, false, Option, none, some, List, [], ◌∷◌, ◌++◌, lookup, ◌==◌, string_eq,
  nat_eq, if◌then◌else◌,
}
use openndx_core.Exchange.Value.{Value}
use openndx_core.Exchange.Paths.{split_on}
use openndx_core.Exchange.Operation.{FieldInfo, field, Fields, end, cons}

pub record ArgMapping : Type 0 where
  pub target_arg_name : String
  pub schema_id : String
  pub source_arg_path : String
  pub target_arg_path : String
  pub target_arg_type : String

pub record ArgumentBinding : Type 0 where
  pub mapping : ArgMapping
  pub bound_field : FieldInfo
  pub value : Value

abbrev pub is_dash : Char → Bool
is_dash c = code c == 45

-- segments[:len(segments)-1]
unfoldable pub all_but_last : List String → List String
all_but_last [] = []
all_but_last (s ∷ []) = []
all_but_last (s ∷ t ∷ rest) = s ∷ all_but_last (t ∷ rest)

-- segments[len(segments)-1]
unfoldable pub last_of : List String → String
last_of [] = ""
last_of (s ∷ []) = s
last_of (s ∷ t ∷ rest) = last_of (t ∷ rest)

-- strings.Join(segments, ".")
unfoldable pub joined : List String → String
joined [] = ""
joined (s ∷ []) = s
joined (s ∷ t ∷ rest) = s <> "." <> joined (t ∷ rest)

unfoldable pub same_path : List String → List String → Bool
same_path [] [] = true
same_path (x ∷ a) (y ∷ b) = let rest = same_path a b in if x == y then rest else false
same_path _ _ = false

-- The visit of BindArguments
abbrev pub binding_at : ArgMapping → FieldInfo → List ArgumentBinding
binding_at m i =
    let segments = split_on is_dash m.source_arg_path in
    if same_path i.schema_path (all_but_last segments)
    then (elim (lookup (last_of segments) i.arguments) [
      | none ↦ []
      | some v ↦ record { mapping = m; bound_field = i; value = v } ∷ []
    ])
    else []

-- walk, with that visit
unfoldable pub bindings_of : ArgMapping → Fields → List ArgumentBinding
bindings_of m end = []
bindings_of m (cons (field i selections) rest) =
    binding_at m i ++ (bindings_of m selections ++ bindings_of m rest)

-- A mapping may be nil.
unfoldable pub bind_arguments : List (Option ArgMapping) → Fields → List ArgumentBinding
bind_arguments [] fields = []
bind_arguments (none ∷ mappings) fields = bind_arguments mappings fields
bind_arguments (some m ∷ mappings) fields = bindings_of m fields ++ bind_arguments mappings fields
