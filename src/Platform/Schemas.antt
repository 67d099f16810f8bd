-- ===== src/Platform/Schemas.antt =====
-- The schemas of providers: internal/pb/schema/model.go, dto.go and service.go. A schema is created
-- in the database and at the policy decision point; the creation undoes the first where the second
-- fails.
pub mod Ids
pub mod Metadata
pub mod Submissions
pub mod Creation
use Prim.Native.Char.{Char, code}
use Prim.Native.String
use openndx_core.Base.{
  String, ℕ, Bool, true, false, not, ◌&&◌, ◌||◌, Option, none, some, List, [], ◌∷◌, map, is_empty,
  ◌==◌, string_eq, nat_eq, leb, if◌then◌else◌, Result, ok, err, Action, pure, raise, ◌>>=◌, ◌>>◌,
  on_error,
}
use openndx_core.Base.Table.{Table, DbError}
use openndx_core.Policy.Model.{CreateRequestRecord}
use openndx_core.Platform.Systems.{
  active_version, Member, attempt, part, given_or, given_else, of_member, shown,
}

pub record Schema : Type 0 where
  pub schema_id : String
  pub member_id : String
  pub schema_name : String
  pub sdl : String
  pub endpoint : String
  pub version : String
  pub schema_description : Option String
  pub created_at : ℕ
  pub updated_at : ℕ

pub record SchemaSubmission : Type 0 where
  pub submission_id : String
  pub previous_schema_id : Option String
  pub schema_name : String
  pub schema_description : Option String
  pub sdl : String
  pub schema_endpoint : String
  pub status : String
  pub member_id : String
  pub review : Option String
  pub created_at : ℕ
  pub updated_at : ℕ

pub record CreateSchemaRequest : Type 0 where
  pub schema_id : String
  pub schema_name : String
  pub schema_description : Option String
  pub sdl : String
  pub fields : List CreateRequestRecord
  pub endpoint : String
  pub member_id : String

pub record UpdateSchemaRequest : Type 0 where
  pub schema_name : Option String
  pub schema_description : Option String
  pub sdl : Option String
  pub endpoint : Option String
  pub version : Option String

-- The errors, by what failed; an error of a compensation beside the one that it follows.
pub data SchemaError : Type 0 where
  one_of_sdl_and_fields invalid_schema_id schema_already_exists sdl_empty : SchemaError
  not_stored schema_not_found not_updated not_retrieved : DbError → SchemaError
  member_not_found previous_not_found submission_not_found submission_failed : DbError → SchemaError
  not_registered : String → Option DbError → SchemaError
  pdp_failed : String → SchemaError
  metadata_not_found : String → SchemaError
  not_created : SchemaError → Option DbError → SchemaError

-- What the service works on: three tables, and the client of the policy decision point, of whose
-- metadata records the IDs count here. A patch is what the client makes of its request.
pub record Systems : Type 1 where
  pub schemas : Table Schema
  pub submissions : Table SchemaSubmission
  pub members : Table Member
  pub Pdp : Type 0
  pub Patch : Type 0
  pub Metadata : Type 0
  pub metadata_id : Metadata → String
  pub create_from_records : String → List CreateRequestRecord → Action Pdp String (Unit {0})
  pub create_from_sdl : String → String → Action Pdp String (Unit {0})
  pub list_metadata : String → Action Pdp String (List Metadata)
  pub patch_metadata : String → Patch → Action Pdp String Metadata
  pub delete_metadata : String → Action Pdp String (Unit {0})
  pub revoke_entry : String → String → Action Pdp String (Unit {0})

pub record World (Y : Systems) : Type 0 where
  pub schemas : Table.State (Y.schemas)
  pub submissions : Table.State (Y.submissions)
  pub members : Table.State (Y.members)
  pub pdp : Y.Pdp

abbrev pub same_schema : Schema → Schema → Bool
same_schema a b = a.schema_id == b.schema_id

abbrev pub same_submission : SchemaSubmission → SchemaSubmission → Bool
same_submission a b = a.submission_id == b.submission_id

abbrev pub is_between : ℕ → ℕ → Char → Bool
is_between low high c = leb low (code c) && leb (code c) high

-- [a-z0-9]
abbrev pub is_lower_or_digit : Char → Bool
is_lower_or_digit c = is_between 97 122 c || is_between 48 57 c

-- [a-z0-9._-]
abbrev pub is_id_char : Char → Bool
is_id_char c = is_lower_or_digit c || (code c == 46) || (code c == 95) || (code c == 45)

unfoldable pub all_chars : (Char → Bool) → String → Bool
all_chars p String.[] = true
all_chars p (String.◌∷◌ c s) = let rest = all_chars p s in p c && rest

-- schemaIDPattern: ^[a-z0-9][a-z0-9._-]{2,63}$
unfoldable pub is_schema_id : String → Bool
is_schema_id String.[] = false
is_schema_id (String.◌∷◌ c s) =
    is_lower_or_digit c
    && all_chars is_id_char s
    && leb 2 (String.count s)
    && leb (String.count s) 63

abbrev pub store_error : DbError → SchemaError
store_error DbError.duplicated = schema_already_exists
store_error e = not_stored e

-- A response has the fields of the schema, and no empty description.
abbrev pub response_of : Schema → Schema
response_of s = record s { schema_description = shown s.schema_description }

abbrev pub schema_of : String → ℕ → CreateSchemaRequest → Schema
schema_of id now req = record {
  schema_id = id;
  member_id = req.member_id;
  schema_name = req.schema_name;
  sdl = req.sdl;
  endpoint = req.endpoint;
  version = active_version;
  schema_description = req.schema_description;
  created_at = now;
  updated_at = now;
}

abbrev pub updated_schema : UpdateSchemaRequest → Schema → Schema
updated_schema req s = record s {
  schema_name = given_or req.schema_name s.schema_name;
  schema_description = given_else req.schema_description s.schema_description;
  sdl = given_or req.sdl s.sdl;
  endpoint = given_or req.endpoint s.endpoint;
  version = given_or req.version s.version;
}

-- hasSDL
abbrev pub has_sdl : CreateSchemaRequest → Bool
has_sdl req = not (req.sdl == "")

-- hasFields
abbrev pub has_fields : CreateSchemaRequest → Bool
has_fields req = not (is_empty req.fields)

abbrev pub both_or_neither : CreateSchemaRequest → Bool
both_or_neither req = if has_sdl req then has_fields req else not (has_fields req)

-- The ID of the schema: the request's, or the new UUID.
abbrev pub chosen_id : String → CreateSchemaRequest → String
chosen_id uuid req = if req.schema_id == "" then uuid else req.schema_id

module _ (Y : Systems) where
  -- A method of the service
  abbrev pub Service : Type 0 → Type 0
  Service A = Action (World Y) SchemaError A

  abbrev pub on_schemas :
      {E A : Type 0} → Action (Table.State (Y.schemas)) E A → Action (World Y) E A
  on_schemas = part (λ w. w.schemas) (λ t w. record w { schemas = t })

  abbrev pub on_submissions :
      {E A : Type 0} → Action (Table.State (Y.submissions)) E A → Action (World Y) E A
  on_submissions = part (λ w. w.submissions) (λ t w. record w { submissions = t })

  abbrev pub on_members :
      {E A : Type 0} → Action (Table.State (Y.members)) E A → Action (World Y) E A
  on_members = part (λ w. w.members) (λ t w. record w { members = t })

  abbrev pub on_pdp : {E A : Type 0} → Action Y.Pdp E A → Action (World Y) E A
  on_pdp = part (λ w. w.pdp) (λ t w. record w { pdp = t })

  abbrev pub find_schema : (DbError → SchemaError) → String → Service Schema
  find_schema e id = on_error e (on_schemas (Table.first (Y.schemas) (λ s. s.schema_id == id)))

  abbrev pub register : CreateSchemaRequest → Schema → Action Y.Pdp String (Unit {0})
  register req s =
      if has_fields req
      then Y.create_from_records s.schema_id req.fields
      else Y.create_from_sdl s.schema_id s.sdl

  -- Deletes the schema's row: the error of the deletion, if it fails.
  unfoldable pub undo_schema : Schema → Service (Option DbError)
  undo_schema s = attempt (on_schemas (Table.delete (Y.schemas) (same_schema s))) >>= λ r.
      pure (elim r [ ok _ ↦ none | err e ↦ some e ])

  -- Steps 1 and 2 of the creation
  abbrev pub store_and_register : CreateSchemaRequest → Schema → Service Schema
  store_and_register req s =
      on_error store_error (on_schemas (Table.create (Y.schemas) s))
      >> attempt (on_pdp (register req s))
      >>= λ r. elim r [
        | ok _ ↦ pure (response_of s)
        | err e ↦ undo_schema s >>= λ undone. raise (not_registered e undone)
      ]

  -- CreateSchema, with its new UUID and the time
  unfoldable pub create_schema : String → ℕ → CreateSchemaRequest → Service Schema
  create_schema uuid now req =
      if both_or_neither req
      then raise one_of_sdl_and_fields
      else if not (req.schema_id == "") && not (is_schema_id req.schema_id)
      then raise invalid_schema_id
      else store_and_register req (schema_of (chosen_id uuid req) now req)

  -- `saved` is the schema as Save leaves it in memory, with its new time.
  unfoldable pub update_schema :
      (ℕ → Schema → Schema) → String → UpdateSchemaRequest → Service Schema
  update_schema saved id req = find_schema schema_not_found id >>= λ s w.
      let b = updated_schema req s in
      (on_error not_updated (on_schemas (Table.save (Y.schemas) b))
          >> pure (response_of (saved (Table.clock (Y.schemas) w.schemas) b)))
        w

  unfoldable pub get_schema : String → Service Schema
  get_schema id = find_schema schema_not_found id >>= λ s. pure (response_of s)

  unfoldable pub get_schemas : Option String → Service (List Schema)
  get_schemas member_id =
      on_error not_retrieved (
        on_schemas
          (Table.find_desc (Y.schemas) (λ s. of_member member_id s.member_id) (λ s. s.created_at)))
      >>= λ schemas. pure (map response_of schemas)
