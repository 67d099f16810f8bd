-- ===== src/Exchange/Printing.antt =====
-- The operation of a fetch: print, operationName, child and selectionSet of
-- internal/oe/federator/plan.go. A document is kept as a tree, where the code hands it to the
-- formatter of a library; the printing of numbers is an argument.
pub mod Variables
use Prim.Native.Char.{Char, code}
use Prim.Native.String
use openndx_core.Base.{
  ℕ, zero, suc, String, ◌<>◌, Bool, true, false, ◌&&◌, ◌||◌, Option, none, some, List, [], ◌∷◌,
  ◌++◌, map, length, contains, Dict, insert, ◌==◌, string_eq, nat_eq, leb, if◌then◌else◌,
}
use openndx_core.Exchange.Value.{Value}
use openndx_core.Exchange.Paths.{split}
use openndx_core.Exchange.Operation.{TypeRef}
use openndx_core.Exchange.Fetches.{ProviderArgument, Fetch}

-- An argument of a provider field: its name and the variable that it takes.
pub record NodeArgument : Type 0 where
  pub argument_name : String
  pub variable : String

-- selectionNode; a document's selections are the same tree.
mutual
  pub data Node : Type 0 where
    node : String → List NodeArgument → Nodes → Node

  pub data Nodes : Type 0 where
    no_nodes : Nodes
    next_node : Node → Nodes → Nodes

-- A chain of new nodes along a path, with the arguments of the last.
unfoldable pub new_path : List NodeArgument → String → List String → Nodes
new_path args name [] = next_node (node name args no_nodes) no_nodes
new_path args name (next ∷ path) = next_node (node name [] (new_path args next path)) no_nodes

-- The walk along a path with child, and the arguments appended to the last node.
unfoldable pub add_path : List NodeArgument → String → List String → Nodes → Nodes
add_path args name path no_nodes = new_path args name path
add_path args name [] (next_node (node n own children) rest) =
    let others = add_path args name [] rest in
    if n == name
    then next_node (node n (own ++ args) children) rest
    else next_node (node n own children) others
add_path args name (next ∷ path) (next_node (node n own children) rest) =
    let others = add_path args name (next ∷ path) rest in
    let inner = add_path args next path children in
    if n == name then next_node (node n own inner) rest else next_node (node n own children) others

abbrev pub add_segments : List NodeArgument → List String → Nodes → Nodes
add_segments args [] root = root
add_segments args (name ∷ path) root = add_path args name path root

-- The root of a fetch, from the fields that were added to it.
unfoldable pub root_of : List String → Nodes → Nodes
root_of [] root = root
root_of (field ∷ fields) root = root_of fields (add_segments [] (split field) root)

-- A variable of the document.
pub record Definition : Type 0 where
  pub variable : String
  pub typ : TypeRef

abbrev pub names_of : List Definition → List String
names_of definitions = map (λ d. Definition.variable d) definitions

-- The candidates with a suffix, from `i` on; `fuel` bounds how many are tried.
unfoldable pub free_name : (ℕ → String) → String → List String → ℕ → ℕ → Option String
free_name show name used zero i = none
free_name show name used (suc fuel) i =
    let later = free_name show name used fuel (suc i) in
    let candidate = name <> "_" <> show i in
    if contains used candidate then later else some candidate

-- The loop that names a variable: as many candidates as there are names, and one more.
unfoldable pub variable_name : (ℕ → String) → String → List String → Option String
variable_name show name used =
    if contains used name then free_name show name used (suc (length used)) 2 else some name

pub record Document : Type 0 where
  pub operation : String
  pub definitions : List Definition
  pub variables : Dict Value
  pub selections : Nodes

-- operationName
abbrev pub is_name_char : Char → Bool
is_name_char c =
    (code c == 95)
    || (leb 97 (code c) && leb (code c) 122)
    || (leb 65 (code c) && leb (code c) 90)
    || (leb 48 (code c) && leb (code c) 57)

unfoldable pub operation_name : String → String
operation_name String.[] = ""
operation_name (String.◌∷◌ c s) =
    let rest = operation_name s in if is_name_char c then String.◌∷◌ c rest else "_" <> rest

-- One argument's variable in a document.
abbrev pub with_argument : String → ProviderArgument → Document → Document
with_argument name a d = record d {
  definitions = d.definitions ++ record { variable = name; typ = a.typ } ∷ [];
  variables = insert name a.value d.variables;
  selections =
      add_segments (record { argument_name = a.name; variable = name } ∷ []) (split a.path)
        d.selections;
}

-- The loop of print; none where no name is free.
unfoldable pub add_arguments : (ℕ → String) → List ProviderArgument → Document → Option Document
add_arguments show [] d = some d
add_arguments show (a ∷ args) d = elim (variable_name show a.name (names_of d.definitions)) [
  | none ↦ none
  | some name ↦ add_arguments show args (with_argument name a d)
]

-- (*fetch).print
unfoldable pub print : (ℕ → String) → Fetch → Option Document
print show f = add_arguments show f.args (record {
  operation = "Query" <> operation_name f.schema_id;
  definitions = [];
  variables = [];
  selections = root_of f.fields no_nodes;
})
