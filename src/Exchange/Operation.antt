-- ===== src/Exchange/Operation.antt =====
-- A normalized query and the owner that it is about: internal/oe/federator/operation/operation.go,
-- and dataOwnerID of internal/oe/federator/access.go. Of a field's definition
-- there are its type and the types of its arguments.
pub mod Owner
use openndx_core.Base.{
  String, Bool, true, false, Option, none, some, List, Dict, lookup, ◌==◌, ◌!=◌, string_eq,
  if◌then◌else◌, Result, ok, err,
}
use openndx_core.Exchange.Value.{Value, text}
use openndx_core.Exchange.Access.{Rejection, reject_with_code}

-- A type reference: a named type or a list, each with or without `!`.
pub data TypeRef : Type 0 where
  named : String → Bool → TypeRef
  list_of : TypeRef → Bool → TypeRef

-- Type.NonNull
abbrev pub non_null : TypeRef → Bool
non_null (named _ nn) = nn
non_null (list_of _ nn) = nn

-- @sourceInfo: the provider field, a path with dots, that serves a field.
pub record SourceInfo : Type 0 where
  pub schema_id : String
  pub provider_field : String

-- What a field has besides its selections. The path is of response keys, the schema path of field
-- names; `typ` and `argument_types` are those of its definition.
pub record FieldInfo : Type 0 where
  pub response_key : String
  pub name : String
  pub path : List String
  pub schema_path : List String
  pub arguments : Dict Value
  pub typ : TypeRef
  pub argument_types : Dict TypeRef
  pub source : Option SourceInfo

mutual
  pub data Field : Type 0 where
    field : FieldInfo → Fields → Field

  pub data Fields : Type 0 where
    end : Fields
    cons : Field → Fields → Fields

pub data OwnerError : Type 0 where
  missing_identifier ambiguous_identifier : OwnerError

abbrev pub text_of : Option Value → Option String
text_of (some (text v)) = if v == "" then none else some v
text_of _ = none

-- The value that counts: a text that is not empty.
abbrev pub id_value : String → Field → Option String
id_value arg (field i _) = text_of (lookup arg i.arguments)

-- The two variables of DataOwnerID: the first value, and whether another differs from it.
abbrev pub Found : Type 0
Found = String × Bool

abbrev pub note_value : Option String → Found → Found
note_value none found = found
note_value (some v) (id, ambiguous) =
    if id == "" then (v, ambiguous) else if v != id then (id, true) else (id, ambiguous)

-- walk, with the visit of DataOwnerID
unfoldable pub walk : String → Fields → Found → Found
walk arg end found = found
walk arg (cons (field i selections) rest) found =
    walk arg rest (walk arg selections (note_value (text_of (lookup arg i.arguments)) found))

abbrev pub chosen : Found → Result OwnerError String
chosen (id, ambiguous) =
    if ambiguous
    then err ambiguous_identifier
    else if id == ""
    then err missing_identifier
    else ok id

-- (*Operation).DataOwnerID, on the root fields
unfoldable pub data_owner_id : String → Fields → Result OwnerError String
data_owner_id arg fields = chosen (walk arg fields ("", false))

abbrev pub owner_rejection : OwnerError → Rejection
owner_rejection missing_identifier =
    reject_with_code "Data Owner ID argument is missing or invalid" "MISSING_IDENTIFIER"
owner_rejection ambiguous_identifier =
    reject_with_code "Conflicting Data Owner ID values in query" "AMBIGUOUS_IDENTIFIER"
