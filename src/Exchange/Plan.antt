-- ===== src/Exchange/Plan.antt =====
-- The provider operations that answer a consumer's query: fields, field, buildPlan and
-- requiredFields of internal/oe/federator/plan.go.
pub mod Reads
pub mod Keys
pub mod Authorized
pub mod Lists
use Prim.Native.Char.{Char, code, nul}
use Prim.Native.String.{compare}
use Prim.Native.Nat.{Ordering}
use openndx_core.Base.{
  ℕ, String, ◌<>◌, Bool, true, false, not, ◌&&◌, ◌||◌, Option, none, some, List, [], ◌∷◌, ◌++◌,
  Dict, lookup, contains, ◌==◌, string_eq, nat_eq, if◌then◌else◌, Result, ok, err, Action, pure,
  raise, ◌>>=◌, ◌>>◌,
}
use openndx_core.Exchange.Value.{Value, null, is_null}
use openndx_core.Exchange.Paths.{split_on, starts_with, relative_path, is_path_prefix, has_prefix}
use openndx_core.Exchange.Operation.{
  TypeRef, named, list_of, non_null, SourceInfo, FieldInfo, Field, field, Fields, end, cons,
}
use openndx_core.Exchange.Access.{RequiredField}
use openndx_core.Exchange.Completion.{is_list, has_selections}
use openndx_core.Exchange.Bindings.{
  ArgMapping, ArgumentBinding, all_but_last, bind_arguments, binding_at, bindings_of, is_dash,
  joined, last_of, same_path,
}
use openndx_core.Exchange.Fetches.{
  Fetch, Plan, Planner, ProviderArgument, Tools, add_field, argument_before, argument_type,
  arguments, change_fetch, collect_arguments, consumer_arg_type, fetch_for, fetch_key, has_argument,
  has_fetch, is_for, key_rest, lift, map_ok, new_fetch, serve, sort_arguments, sorted_in,
  with_consumer_field, with_fetch, with_field, with_non_null, zero_byte,
}

pub record ElementScope : Type 0 where
  pub fetch : String
  pub declared : String
  pub requested : String

-- How the selections of a field are planned, in a scope.
abbrev pub PlanSelections : Type 0
PlanSelections = Option ElementScope → Planner (Unit {0})

abbrev pub plan_in_list :
    FieldInfo → SourceInfo → PlanSelections → Bool → ElementScope → Planner (Unit {0})
plan_in_list i info selections selected scope =
    let requested = scope.requested <> "." <> relative_path info.provider_field scope.declared in
    if is_list i.typ && selected
    then selections (
        some
          (record { fetch = scope.fetch; declared = info.provider_field; requested = requested }))
    else add_field scope.fetch requested

abbrev pub plan_outside :
    Tools
    → List ArgumentBinding
    → FieldInfo
    → SourceInfo
    → PlanSelections
    → Bool
    → Planner (Unit {0})
plan_outside tools bindings i info selections selected = fetch_for tools bindings i info >>= λ key.
    serve i key
    >> (if is_list i.typ && selected
        then selections (
            some (record {
              fetch = key;
              declared = info.provider_field;
              requested = info.provider_field;
            }))
        else add_field key info.provider_field)

-- The last two cases of the switch
abbrev pub plan_unread :
    FieldInfo → PlanSelections → Bool → Option ElementScope → Planner (Unit {0})
plan_unread i selections selected scope =
    if is_list i.typ && selected
    then raise (
        "list field "
        <> joined i.schema_path
        <> " has no @sourceInfo, so its items can't be read from a provider")
    else selections scope

abbrev pub plan_read :
    Tools
    → List ArgumentBinding
    → FieldInfo
    → SourceInfo
    → PlanSelections
    → Bool
    → Option ElementScope
    → Planner (Unit {0})
plan_read tools bindings i info selections selected (some scope) =
    plan_in_list i info selections selected scope
plan_read tools bindings i info selections selected none =
    plan_outside tools bindings i info selections selected

-- The switch
abbrev pub plan_switch :
    Tools
    → List ArgumentBinding
    → FieldInfo
    → PlanSelections
    → Bool
    → Option ElementScope
    → Option SourceInfo
    → Planner (Unit {0})
plan_switch tools bindings i selections selected scope none =
    plan_unread i selections selected scope
plan_switch tools bindings i selections selected scope (some info) =
    if is_list i.typ || not selected
    then plan_read tools bindings i info selections selected scope
    else plan_unread i selections selected scope

-- (*planner).field
unfoldable pub plan_field :
    Tools
    → List ArgumentBinding
    → FieldInfo
    → PlanSelections
    → Bool
    → Option ElementScope
    → Planner (Unit {0})
plan_field tools bindings i selections selected scope =
    if i.name == "__typename"
    then pure tt
    else if starts_with i.name "__"
    then raise ("introspection field " <> i.name <> " is not supported")
    else plan_switch tools bindings i selections selected scope i.source

-- (*planner).fields
unfoldable pub plan_fields :
    Tools → List ArgumentBinding → Fields → Option ElementScope → Planner (Unit {0})
plan_fields tools bindings end scope = pure tt
plan_fields tools bindings (cons (field i selections) rest) scope =
    plan_field tools bindings i (plan_fields tools bindings selections) (has_selections selections)
      scope
    >> plan_fields tools bindings rest scope

abbrev pub no_plan : Plan
no_plan = record { fetches = []; sources = [] }

abbrev pub planned : Result String (Unit {0}) × Plan → Result String Plan
planned (ok _, p) = ok p
planned (err e, p) = err e

-- buildPlan, before the printing of the fetches
unfoldable pub build_plan : Tools → List (Option ArgMapping) → Fields → Result String Plan
build_plan tools mappings fields =
    planned (plan_fields tools (bind_arguments mappings fields) fields none no_plan)

unfoldable pub has_field : List RequiredField → RequiredField → Bool
has_field [] f = false
has_field (g ∷ fields) f =
    ((g.schema_id == f.schema_id) && (g.field_name == f.field_name)) || has_field fields f

unfoldable pub add_required : String → List String → List RequiredField → List RequiredField
add_required schema_id [] fields = fields
add_required schema_id (path ∷ paths) fields =
    let f : RequiredField = record { field_name = path; schema_id = schema_id } in
    add_required schema_id paths (if has_field fields f then fields else fields ++ f ∷ [])

unfoldable pub add_fetches : List Fetch → List RequiredField → List RequiredField
add_fetches [] fields = fields
add_fetches (f ∷ fetches) fields = add_fetches fetches (add_required f.schema_id f.fields fields)

-- (*plan).requiredFields
abbrev pub required_fields : Plan → List RequiredField
required_fields p = add_fetches p.fetches []
