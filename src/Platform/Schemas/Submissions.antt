-- ===== src/Platform/Schemas/Submissions.antt =====
-- The submissions of schemas: CreateSchemaSubmission, UpdateSchemaSubmission, GetSchemaSubmission
-- and GetSchemaSubmissions of internal/pb/schema/service.go.
use openndx_core.Base.{
  String, ℕ, Bool, true, false, ◌&&◌, Option, none, some, List, [], ◌==◌, string_eq, if◌then◌else◌,
  ok, err, pure, raise, ◌>>=◌, ◌>>◌, on_error,
}
use openndx_core.Base.Table.{Table, DbError}
use openndx_core.Platform.Systems.{
  status_pending, status_approved, attempt, of_member, in_statuses, given_or, given_else,
}
use openndx_core.Platform.Schemas.{
  SchemaSubmission, CreateSchemaRequest, SchemaError, Systems, Service, on_submissions, on_members,
  find_schema, create_schema,
}

pub record CreateSchemaSubmissionRequest : Type 0 where
  pub schema_name : String
  pub schema_description : Option String
  pub sdl : String
  pub schema_endpoint : String
  pub previous_schema_id : Option String
  pub member_id : String

pub record UpdateSchemaSubmissionRequest : Type 0 where
  pub schema_name : Option String
  pub schema_description : Option String
  pub sdl : Option String
  pub schema_endpoint : Option String
  pub status : Option String
  pub previous_schema_id : Option String
  pub review : Option String

abbrev pub updated_submission : UpdateSchemaSubmissionRequest → SchemaSubmission → SchemaSubmission
updated_submission req s = record s {
  schema_name = given_or req.schema_name s.schema_name;
  schema_description = given_else req.schema_description s.schema_description;
  sdl = given_or req.sdl s.sdl;
  schema_endpoint = given_or req.schema_endpoint s.schema_endpoint;
  previous_schema_id = given_else req.previous_schema_id s.previous_schema_id;
  status = given_or req.status s.status;
  review = given_else req.review s.review;
}

-- shouldCreateSchema
abbrev pub is_approval : Option String → Bool
is_approval none = false
is_approval (some status) = status == status_approved

-- An SDL that is given and empty
abbrev pub is_empty_sdl : Option String → Bool
is_empty_sdl none = false
is_empty_sdl (some sdl) = sdl == ""

abbrev pub request_of : SchemaSubmission → CreateSchemaRequest
request_of s = record {
  schema_id = "";
  schema_name = s.schema_name;
  schema_description = s.schema_description;
  sdl = s.sdl;
  fields = [];
  endpoint = s.schema_endpoint;
  member_id = s.member_id;
}

-- A new submission, with its UUID and the time.
abbrev pub submission_of : String → ℕ → CreateSchemaSubmissionRequest → SchemaSubmission
submission_of id now req = record {
  submission_id = id;
  previous_schema_id = req.previous_schema_id;
  schema_name = req.schema_name;
  schema_description = req.schema_description;
  sdl = req.sdl;
  schema_endpoint = req.schema_endpoint;
  status = status_pending;
  member_id = req.member_id;
  review = none;
  created_at = now;
  updated_at = now;
}

module _ (Y : Systems) where
  -- The check of a previous schema, where one is given.
  abbrev pub check_previous : Option String → Service Y (Unit {0})
  check_previous none = pure tt
  check_previous (some id) = find_schema Y SchemaError.previous_not_found id >>= λ s. pure tt

  -- The response has the fields of the submission.
  unfoldable pub create_submission :
      String → ℕ → CreateSchemaSubmissionRequest → Service Y SchemaSubmission
  create_submission id now req =
      on_error SchemaError.member_not_found
        (on_members Y (Table.first (Y.members) (λ m. m.member_id == req.member_id)))
      >> check_previous req.previous_schema_id
      >> on_error SchemaError.submission_failed
          (on_submissions Y (Table.create (Y.submissions) (submission_of id now req)))
      >> pure (submission_of id now req)

  abbrev pub save_submission : SchemaSubmission → Service Y (Unit {0})
  save_submission s =
      on_error SchemaError.submission_failed (on_submissions Y (Table.save (Y.submissions) s))

  -- The status goes back to pending: the error of that, if it fails.
  abbrev pub undo_approval : SchemaSubmission → Service Y (Option DbError)
  undo_approval s =
      attempt (on_submissions Y (Table.save (Y.submissions) (record s { status = status_pending })))
      >>= λ r. pure (elim r [ ok _ ↦ none | err e ↦ some e ])

  -- The schema of an approved submission, with its UUID and the time.
  abbrev pub approve : String → ℕ → SchemaSubmission → Service Y (Unit {0})
  approve id now s = attempt (create_schema Y id now (request_of s)) >>= λ r. elim r [
    | ok _ ↦ pure tt
    | err e ↦ undo_approval s >>= λ undone. raise (SchemaError.not_created e undone)
  ]

  abbrev pub if_approval : Bool → Service Y (Unit {0}) → Service Y (Unit {0})
  if_approval true m = m
  if_approval false m = pure tt

  -- `saved` is the submission as Save leaves it in memory, with its new time.
  unfoldable pub update_submission :
      (ℕ → SchemaSubmission → SchemaSubmission)
      → String
      → ℕ
      → String
      → UpdateSchemaSubmissionRequest
      → Service Y SchemaSubmission
  update_submission saved schema_id now id req =
      on_error SchemaError.submission_not_found
        (on_submissions Y (Table.first (Y.submissions) (λ s. s.submission_id == id)))
      >>= λ found.
          check_previous req.previous_schema_id
          >> (if is_empty_sdl req.sdl then raise SchemaError.sdl_empty else pure tt)
          >> λ w.
              let s = updated_submission req found in
              let stamped = saved (Table.clock (Y.submissions) w.submissions) s in
              (save_submission s
                  >> if_approval (is_approval req.status) (approve schema_id now stamped)
                  >> pure stamped)
                w

  unfoldable pub get_submission : String → Service Y SchemaSubmission
  get_submission id =
      on_error SchemaError.submission_not_found
        (on_submissions Y (Table.first (Y.submissions) (λ s. s.submission_id == id)))

  unfoldable pub get_submissions :
      Option String → Option (List String) → Service Y (List SchemaSubmission)
  get_submissions member_id statuses = on_error SchemaError.not_retrieved (
      on_submissions Y (
        Table.find_desc (Y.submissions)
          (λ s. of_member member_id s.member_id && in_statuses statuses s.status)
          (λ s. s.created_at)))
