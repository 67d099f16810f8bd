-- ===== src/Exchange/Fetches.antt =====
-- The fetches of a plan, their arguments and their keys: fetchFor, arguments, consumerArgType and
-- addField of internal/oe/federator/plan.go. A fetch is known by its key, where the code points to
-- it, and a consumer field by its path.
use Prim.Native.Char.{nul}
use Prim.Native.String.{compare}
use Prim.Native.Nat.{Ordering}
use openndx_core.Base.{
  String, ◌<>◌, Bool, true, false, not, ◌&&◌, ◌||◌, Option, none, some, List, [], ◌∷◌, ◌++◌, lookup,
  contains, ◌==◌, string_eq, nat_eq, if◌then◌else◌, Result, ok, err, Action, ◌>>=◌,
}
use openndx_core.Exchange.Value.{Value, is_null}
use openndx_core.Exchange.Paths.{split_on, is_path_prefix, has_prefix}
use openndx_core.Exchange.Operation.{TypeRef, named, list_of, non_null, SourceInfo, FieldInfo}
use openndx_core.Exchange.Bindings.{ArgMapping, ArgumentBinding, is_dash, joined, last_of}

pub record ProviderArgument : Type 0 where
  pub path : String
  pub name : String
  pub typ : TypeRef
  pub value : Value

pub record Fetch : Type 0 where
  pub schema_id : String
  pub fields : List String
  pub consumer_fields : List FieldInfo
  pub key : String
  pub args : List ProviderArgument

-- The plan, as the planner builds it: `sources` has the key of the fetch that serves a field.
pub record Plan : Type 0 where
  pub fetches : List Fetch
  pub sources : List (List String × String)

-- What the planner uses of other code: targetTypes, with the parsed types of the mappings that set
-- one; json.Marshal, which may fail; and ast.Type's String.
pub record Tools : Type 0 where
  pub target_type : ArgMapping → Option TypeRef
  pub marshal : Value → Result String String
  pub print_type : TypeRef → String

abbrev pub with_non_null : TypeRef → TypeRef
with_non_null (named n _) = named n true
with_non_null (list_of t _) = list_of t true

unfoldable pub consumer_arg_type : ArgumentBinding → Result String TypeRef
consumer_arg_type b =
    let name = last_of (split_on is_dash b.mapping.source_arg_path) in
    elim (lookup name b.bound_field.argument_types) [
      | none ↦ err (
          "argument " <> name <> " of " <> joined b.bound_field.schema_path <> " has no definition")
      | some typ ↦
          ok (if not (is_null b.value) && not (non_null typ) then with_non_null typ else typ)
    ]

abbrev pub argument_type : Tools → ArgumentBinding → Result String TypeRef
argument_type tools b = elim (tools.target_type b.mapping) [
  | some typ ↦ ok typ
  | none ↦ consumer_arg_type b
]

-- A binding for the provider field that serves a field.
abbrev pub is_for : FieldInfo → SourceInfo → ArgumentBinding → Bool
is_for i info b =
    (b.mapping.schema_id == info.schema_id)
    && is_path_prefix info.provider_field b.mapping.target_arg_path
    && has_prefix i.path b.bound_field.path

-- seen[id], among the arguments so far
unfoldable pub has_argument : String → String → List ProviderArgument → Bool
has_argument path name [] = false
has_argument path name (a ∷ args) =
    ((a.path == path) && (a.name == name)) || has_argument path name args

-- The less function of sort.Slice
abbrev pub argument_before : ProviderArgument → ProviderArgument → Bool
argument_before a b = elim (compare a.path b.path) [
  | Ordering.lt ↦ true
  | Ordering.gt ↦ false
  | Ordering.eq ↦ elim (compare a.name b.name) [ Ordering.lt ↦ true | _ ↦ false ]
]

unfoldable pub sorted_in : ProviderArgument → List ProviderArgument → List ProviderArgument
sorted_in a [] = a ∷ []
sorted_in a (b ∷ args) =
    let rest = sorted_in a args in if argument_before b a then b ∷ rest else a ∷ b ∷ args

unfoldable pub sort_arguments : List ProviderArgument → List ProviderArgument
sort_arguments [] = []
sort_arguments (a ∷ args) = sorted_in a (sort_arguments args)

abbrev pub map_ok {ℓ} : {E A B : Type ℓ} → (A → B) → Result E A → Result E B
map_ok f (ok a) = ok (f a)
map_ok f (err e) = err e

-- The loop of arguments, with those that it has already.
unfoldable pub collect_arguments :
    Tools
    → FieldInfo
    → SourceInfo
    → List ArgumentBinding
    → List ProviderArgument
    → Result String (List ProviderArgument)
collect_arguments tools i info [] args = ok args
collect_arguments tools i info (b ∷ bindings) args =
    let m = b.mapping in
    if not (is_for i info b) || has_argument m.target_arg_path m.target_arg_name args
    then collect_arguments tools i info bindings args
    else (elim (argument_type tools b) [
      | err e ↦ err e
      | ok typ ↦ collect_arguments tools i info bindings (
          args
          ++ record {
            path = m.target_arg_path;
            name = m.target_arg_name;
            typ = typ;
            value = b.value;
          }
            ∷ [])
    ])

-- (*planner).arguments
unfoldable pub arguments :
    Tools → List ArgumentBinding → FieldInfo → SourceInfo → Result String (List ProviderArgument)
arguments tools bindings i info = map_ok sort_arguments (collect_arguments tools i info bindings [])

abbrev pub zero_byte : String
zero_byte = String.◌∷◌ nul ""

-- What the key has after the schema.
unfoldable pub key_rest : Tools → List ProviderArgument → Result String String
key_rest tools [] = ok ""
key_rest tools (a ∷ args) =
    let rest = key_rest tools args in
    elim (tools.marshal a.value) [
      | err e ↦ err ("argument " <> a.name <> " of " <> a.path <> ": " <> e)
      | ok value ↦
          map_ok
            (λ after.
              zero_byte
              <> a.path
              <> zero_byte
              <> a.name
              <> zero_byte
              <> tools.print_type a.typ
              <> zero_byte
              <> value
              <> after)
            rest
    ]

unfoldable pub fetch_key : Tools → SourceInfo → List ProviderArgument → Result String String
fetch_key tools info args = map_ok (λ rest. info.schema_id <> rest) (key_rest tools args)

-- p.byKey[key]
unfoldable pub has_fetch : String → List Fetch → Bool
has_fetch key [] = false
has_fetch key (f ∷ fetches) = (f.key == key) || has_fetch key fetches

abbrev pub new_fetch : SourceInfo → String → List ProviderArgument → Fetch
new_fetch info key args = record {
  schema_id = info.schema_id;
  fields = [];
  consumer_fields = [];
  key = key;
  args = args;
}

abbrev pub with_fetch : SourceInfo → String → List ProviderArgument → Plan → Plan
with_fetch info key args p =
    if has_fetch key p.fetches
    then p
    else record p { fetches = p.fetches ++ new_fetch info key args ∷ [] }

-- A method of the planner: it changes the plan, or fails.
abbrev pub Planner : Type 0 → Type 0
Planner A = Action Plan String A

abbrev pub lift {ℓ} : {S E A : Type ℓ} → Result E A → Action S E A
lift r s = (r, s)

-- (*planner).fetchFor: the key of the fetch
unfoldable pub fetch_for : Tools → List ArgumentBinding → FieldInfo → SourceInfo → Planner String
fetch_for tools bindings i info = lift (arguments tools bindings i info) >>= λ args.
    lift (fetch_key tools info args) >>= λ key p. (ok key, with_fetch info key args p)

-- A change of the fetch with a key.
unfoldable pub change_fetch : (Fetch → Fetch) → String → List Fetch → List Fetch
change_fetch change key [] = []
change_fetch change key (f ∷ fetches) =
    let rest = change_fetch change key fetches in
    if f.key == key then change f ∷ fetches else f ∷ rest

abbrev pub with_field : String → Fetch → Fetch
with_field path f =
    if contains f.fields path then f else record f { fields = f.fields ++ path ∷ [] }

-- (*fetch).addField
abbrev pub add_field : String → String → Planner (Unit {0})
add_field key path p = (ok tt, record p { fetches = change_fetch (with_field path) key p.fetches })

abbrev pub with_consumer_field : FieldInfo → Fetch → Fetch
with_consumer_field i f = record f { consumer_fields = f.consumer_fields ++ i ∷ [] }

-- p.plan.sources[field] = f, and the field among those of the fetch.
abbrev pub serve : FieldInfo → String → Planner (Unit {0})
serve i key p = (
  ok tt,
  record {
    fetches = change_fetch (with_consumer_field i) key p.fetches;
    sources = p.sources ++ (i.path, key) ∷ [];
  },
)
