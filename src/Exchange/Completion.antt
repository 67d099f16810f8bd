-- ===== src/Exchange/Completion.antt =====
-- The completion of the values of a response: object, value, list and complete of
-- internal/oe/federator/merge.go. Where the code appends to the merger's errors, a function here
-- returns the errors that it adds.
use openndx_core.Base.{
  ℕ, suc, String, ◌<>◌, Bool, true, false, not, ◌||◌, Option, none, some, List, [], ◌∷◌, ◌++◌, ◌==◌,
  string_eq, if◌then◌else◌,
}
use openndx_core.Exchange.Value.{
  Value, null, boolean, number, text, array, object, Items, no_items, item, Members, no_members,
  get_member, set_member, add_item, is_null,
}
use openndx_core.Exchange.Paths.{split, relative_path}
use openndx_core.Exchange.Operation.{
  TypeRef, named, list_of, non_null, SourceInfo, FieldInfo, field, Fields, end, cons,
}

pub data PathStep : Type 0 where
  key : String → PathStep
  index : ℕ → PathStep

pub record FieldError : Type 0 where
  pub message : String
  pub code : String
  pub path : List PathStep

-- The result of the fetch that serves a field: that the provider of a schema could not be asked,
-- or the data of its response.
pub data FetchAnswer : Type 0 where
  unavailable : String → FetchAnswer
  answered : Members → FetchAnswer

-- What plan.sources and the results give for the field at a path.
abbrev pub Answers : Type 0
Answers = List String → FetchAnswer

pub record ItemScope : Type 0 where
  pub scope_item : Value
  pub declared : String

-- A value that a field is completed with; `failed` where a null must go up to the parent.
pub record Completed : Type 0 where
  pub value : Value
  pub failed : Bool
  pub errors : List FieldError

pub record ObjectResult : Type 0 where
  pub members : Members
  pub failed : Bool
  pub errors : List FieldError

mutual
  at_name : String → (Value → Value) → Value → Value
  at_name name next (object ms) = next (get_member name ms)
  at_name name next (array items) = array (at_items name next items)
  at_name name next null = null
  at_name name next (boolean _) = null
  at_name name next (number _) = null
  at_name name next (text _) = null

  at_items : String → (Value → Value) → Items → Items
  at_items name next no_items = no_items
  at_items name next (item v rest) = item (at_name name next v) (at_items name next rest)

unfoldable pub value_at_segments : List String → Value → Value
unfolding at_name
value_at_segments [] v = v
value_at_segments (name ∷ segments) v = at_name name (value_at_segments segments) v

unfoldable pub value_at : Value → String → Value
unfolding value_at_segments
value_at v path = value_at_segments (split path) v

-- Type.Name()
unfoldable pub type_name : TypeRef → String
type_name (named n _) = n
type_name (list_of t _) = type_name t

-- Type.Elem
abbrev pub elem_of : TypeRef → Option TypeRef
elem_of (named _ _) = none
elem_of (list_of t _) = some t

abbrev pub has_selections : Fields → Bool
has_selections end = false
has_selections (cons _ _) = true

-- %T of a value that is neither null nor a list
abbrev pub go_type : Value → String
go_type (boolean _) = "bool"
go_type (number _) = "float64"
go_type (text _) = "string"
go_type (object _) = "map[string]interface {}"
go_type (array _) = "[]interface {}"
go_type null = "<nil>"

abbrev pub provider_error_code : String
provider_error_code = "PROVIDER_ERROR"

abbrev pub field_error : String → String → List PathStep → FieldError
field_error message code path = record { message = message; code = code; path = path }

unfoldable pub complete : FieldInfo → String → Value → Bool → List PathStep → Completed
complete i parent v reported path =
    if not (is_null v)
    then record { value = v; failed = false; errors = [] }
    else if not (non_null i.typ)
    then record { value = null; failed = false; errors = [] }
    else record {
      value = null;
      failed = true;
      errors =
          if reported
          then []
          else field_error
              ("Cannot return null for non-nullable field " <> parent <> "." <> i.name <> ".") ""
              path
            ∷ [];
    }

-- The errors `es` come before those of a completion.
abbrev pub after_errors : List FieldError → Completed → Completed
after_errors es c = record c { errors = es ++ c.errors }

-- How the selections of a field are completed: by the name of their type, from a scope, at a path.
abbrev pub Complete : Type 0
Complete = String → Option ItemScope → List PathStep → ObjectResult

pub record ListResult : Type 0 where
  pub items : Items
  pub failed : Bool
  pub errors : List FieldError

-- One item of a list.
unfoldable pub complete_item :
    FieldInfo → String → Complete → TypeRef → String → List PathStep → Value → Completed
complete_item i parent selections elem declared path v =
    if is_null v
    then (if non_null elem
        then record {
          value = null;
          failed = true;
          errors =
              field_error
                ("Cannot return null for non-nullable list item of " <> parent <> "." <> i.name
                  <> ".")
                "" path
              ∷ [];
        }
        else record { value = null; failed = false; errors = [] })
    else (let r =
          selections (type_name elem) (some (record { scope_item = v; declared = declared }))
            path in
        if not r.failed
        then record { value = object r.members; failed = false; errors = r.errors }
        else record { value = null; failed = non_null elem; errors = r.errors })

-- The loop over the items, which stops at the first null that must go up.
unfoldable pub complete_items :
    FieldInfo
    → String
    → Complete
    → TypeRef
    → String
    → List PathStep
    → ℕ
    → Items
    → Items
    → ListResult
complete_items i parent selections elem declared path n out no_items = record {
  items = out;
  failed = false;
  errors = [];
}
complete_items i parent selections elem declared path n out (item v rest) =
    let c = complete_item i parent selections elem declared (path ++ index n ∷ []) v in
    let later =
      complete_items i parent selections elem declared path (suc n) (add_item out c.value) rest in
    if c.failed
    then record { items = out; failed = true; errors = c.errors }
    else record later { errors = c.errors ++ later.errors }

-- (*merger).list
unfoldable pub complete_list :
    FieldInfo → String → Complete → TypeRef → Value → String → List PathStep → Completed
complete_list i parent selections elem null declared path = complete i parent null false path
complete_list i parent selections elem (array items) declared path =
    let r = complete_items i parent selections elem declared path 0 no_items items in
    after_errors r.errors (
      if r.failed
      then complete i parent null true path
      else complete i parent (array r.items) false path)
complete_list i parent selections elem v declared path =
    after_errors
      (field_error ("Expected a list from the provider, got " <> go_type v) provider_error_code path
        ∷ [])
      (complete i parent null true path)

-- What is done with the value read from a provider.
abbrev pub complete_raw :
    FieldInfo → String → Complete → Bool → String → List PathStep → Value → Completed
complete_raw i parent selections selected declared path raw = elim (elem_of i.typ) [
  | none ↦ complete i parent raw false path
  | some elem ↦
      if selected
      then complete_list i parent selections elem raw declared path
      else complete i parent raw false path
]

-- A field outside a provider's list, from the result of its fetch.
abbrev pub from_answer :
    FieldInfo → SourceInfo → String → Complete → Bool → List PathStep → FetchAnswer → Completed
from_answer i info parent selections selected path (unavailable schema_id) =
    after_errors
      (field_error ("Failed to fetch data from provider for schema " <> schema_id)
          provider_error_code path
        ∷ [])
      (complete i parent null true path)
from_answer i info parent selections selected path (answered response) =
    complete_raw i parent selections selected info.provider_field path
      (value_at (object response) info.provider_field)

-- A field that is read from a provider.
unfoldable pub complete_sourced :
    Answers
    → FieldInfo
    → SourceInfo
    → String
    → Complete
    → Bool
    → Option ItemScope
    → List PathStep
    → Completed
complete_sourced answers i info parent selections selected (some scope) path =
    complete_raw i parent selections selected info.provider_field path
      (value_at scope.scope_item (relative_path info.provider_field scope.declared))
complete_sourced answers i info parent selections selected none path =
    from_answer i info parent selections selected path (answers i.path)

-- An object whose fields carry their own sources.
unfoldable pub complete_nested :
    FieldInfo → String → Complete → Option ItemScope → List PathStep → Completed
complete_nested i parent selections scope path =
    let r = selections (type_name i.typ) scope path in
    after_errors r.errors (
      if r.failed
      then complete i parent null true path
      else complete i parent (object r.members) false path)

abbrev pub is_list : TypeRef → Bool
is_list (named _ _) = false
is_list (list_of _ _) = true

-- A field whose value is not read by itself.
abbrev pub complete_unsourced :
    FieldInfo → String → Complete → Bool → Option ItemScope → List PathStep → Completed
complete_unsourced i parent selections true scope path =
    complete_nested i parent selections scope path
complete_unsourced i parent selections false scope path = complete i parent null false path

-- The switch of (*merger).value
abbrev pub complete_read :
    Answers
    → FieldInfo
    → Complete
    → Bool
    → String
    → Option ItemScope
    → List PathStep
    → Option SourceInfo
    → Completed
complete_read answers i selections selected parent scope path none =
    complete_unsourced i parent selections selected scope path
complete_read answers i selections selected parent scope path (some info) =
    if is_list i.typ || not selected
    then complete_sourced answers i info parent selections selected scope path
    else complete_unsourced i parent selections selected scope path

-- (*merger).value
unfoldable pub complete_field :
    Answers → FieldInfo → Complete → Bool → String → Option ItemScope → List PathStep → Completed
complete_field answers i selections selected parent scope parent_path =
    if i.name == "__typename"
    then record { value = text parent; failed = false; errors = [] }
    else complete_read answers i selections selected parent scope
        (parent_path ++ key i.response_key ∷ []) i.source

-- (*merger).object, with the members that are there already
unfoldable pub complete_object :
    Answers → Fields → Members → String → Option ItemScope → List PathStep → ObjectResult
complete_object answers end out type scope path = record {
  members = out;
  failed = false;
  errors = [];
}
complete_object answers (cons (field i selections) rest) out type scope path =
    let c =
      complete_field answers i (complete_object answers selections no_members)
        (has_selections selections) type scope path in
    let later =
      complete_object answers rest (set_member i.response_key c.value out) type scope path in
    if c.failed
    then record { members = no_members; failed = true; errors = c.errors }
    else record later { errors = c.errors ++ later.errors }
