-- ===== src/Exchange/Merge.antt =====
-- The consumer's response from the results of the fetches: merge and the provider's errors of
-- internal/oe/federator/merge.go.
pub mod Nulls
pub mod Reports
use openndx_core.Base.{
  ℕ, zero, suc, ◌+◌, String, ◌<>◌, Bool, true, false, not, ◌&&◌, ◌||◌, Option, none, some, List, [],
  ◌∷◌, ◌++◌, map, ◌==◌, string_eq, if◌then◌else◌,
}
use openndx_core.Exchange.Value.{
  Value, null, boolean, number, text, array, object, Items, no_items, item, Members, no_members,
  member, get_member, set_member, add_item, is_null,
}
use openndx_core.Exchange.Paths.{split, relative_path}
use openndx_core.Exchange.Operation.{
  TypeRef, named, list_of, non_null, SourceInfo, FieldInfo, Field, field, Fields, end, cons,
}
use openndx_core.Exchange.Completion.{
  Answers, Complete, Completed, FetchAnswer, FieldError, ItemScope, ListResult, ObjectResult,
  PathStep, after_errors, answered, complete, complete_field, complete_item, complete_items,
  complete_list, complete_nested, complete_object, complete_raw, complete_read, complete_sourced,
  complete_unsourced, elem_of, field_error, from_answer, go_type, has_selections, index, is_list,
  key, provider_error_code, type_name, unavailable, value_at, value_at_segments,
}

-- graphql.Response: the data is nil or an object, an error of a provider is any value of JSON.
pub record ProviderResponse : Type 0 where
  pub body : Members
  pub provider_errors : List Value

-- A fetch as merge sees it: its schema, the consumer fields that it serves, and its result, an
-- error or a response.
pub record Fetched : Type 0 where
  pub schema_id : String
  pub consumer_fields : List FieldInfo
  pub result : Option ProviderResponse

pub record Response : Type 0 where
  pub body : Option Members
  pub errors : List FieldError

-- The leading names of a path.
unfoldable pub leading_names : Items → List String
leading_names (item (text name) rest) = name ∷ leading_names rest
leading_names _ = []

abbrev pub text_or_empty : Value → String
text_or_empty (text s) = s
text_or_empty _ = ""

abbrev pub names_of : Value → List String
names_of (array items) = leading_names items
names_of _ = []

-- providerError; `sprint` is fmt.Sprint.
abbrev pub provider_error : (Value → String) → Value → String × List String
provider_error sprint (object ms) =
    (text_or_empty (get_member "message" ms), names_of (get_member "path" ms))
provider_error sprint v = (sprint v, [])

unfoldable pub one_starts_other : List String → List String → Bool
one_starts_other [] b = true
one_starts_other a [] = true
one_starts_other (x ∷ a) (y ∷ b) = let rest = one_starts_other a b in if x == y then rest else false

-- pathsOverlap
abbrev pub paths_overlap : List String → List String → Bool
paths_overlap [] b = false
paths_overlap a [] = false
paths_overlap (x ∷ a) (y ∷ b) = one_starts_other (x ∷ a) (y ∷ b)

-- field.SourceInfo.ProviderField; a fetch serves only fields with a source.
abbrev pub provider_field_of : FieldInfo → String
provider_field_of i = elim i.source [ none ↦ "" | some info ↦ info.provider_field ]

-- The path in the consumer's response of the first field that an error of a provider is about.
unfoldable pub error_place : List String → List FieldInfo → List PathStep
error_place path [] = []
error_place path (i ∷ fields) =
    let rest = error_place path fields in
    if paths_overlap path (split (provider_field_of i)) then map key i.path else rest

abbrev pub passed_on : (Value → String) → Fetched → Value → FieldError
passed_on sprint f raw =
    field_error ("Provider for schema " <> f.schema_id <> ": " <> (provider_error sprint raw).0)
      provider_error_code (error_place (provider_error sprint raw).1 f.consumer_fields)

abbrev pub errors_of : (Value → String) → Fetched → List FieldError
errors_of sprint f = elim f.result [
  | none ↦ []
  | some response ↦ map (passed_on sprint f) response.provider_errors
]

-- (*merger).providerErrors
unfoldable pub pass_on_errors : (Value → String) → List Fetched → List FieldError
pass_on_errors sprint [] = []
pass_on_errors sprint (f ∷ fetches) = errors_of sprint f ++ pass_on_errors sprint fetches

unfoldable pub merge : (Value → String) → Answers → Fields → List Fetched → Response
merge sprint answers fields fetches =
    let r = complete_object answers fields no_members "Query" none [] in
    record {
      body = if r.failed then none else some r.members;
      errors = r.errors ++ pass_on_errors sprint fetches;
    }
