-- ===== src/Platform/Applications/Submissions.antt =====
-- The submissions of applications: CreateApplicationSubmission, UpdateApplicationSubmission,
-- GetApplicationSubmission and GetApplicationSubmissions of internal/pb/application/service.go. An
-- approval creates the application, and goes back to pending where that fails.
use openndx_core.Base.{
  String, ℕ, Bool, true, false, ◌&&◌, Option, none, some, List, ◌∷◌, ◌==◌, string_eq, ok, err, pure,
  raise, ◌>>=◌, ◌>>◌, on_error,
}
use openndx_core.Base.Table.{Table, DbError}
use openndx_core.Policy.Model.{FieldRef}
use openndx_core.Platform.Systems.{
  status_pending, status_approved, attempt, of_member, in_statuses, given_or, given_else,
}
use openndx_core.Platform.Applications.{
  ApplicationSubmission, CreateApplicationRequest, AppError, Systems, Service, on_submissions,
  find_application, find_member, create_application,
}

pub record CreateSubmissionRequest : Type 0 where
  pub application_name : String
  pub application_description : Option String
  pub selected_fields : List FieldRef
  pub previous_application_id : Option String
  pub member_id : String

pub record UpdateSubmissionRequest : Type 0 where
  pub application_name : Option String
  pub application_description : Option String
  pub selected_fields : Option (List FieldRef)
  pub status : Option String
  pub previous_application_id : Option String
  pub review : Option String

-- A non-empty list of fields takes the place of the old one.
abbrev pub fields_or : Option (List FieldRef) → List FieldRef → List FieldRef
fields_or (some (f ∷ fields)) old = f ∷ fields
fields_or _ old = old

abbrev pub updated_submission :
    UpdateSubmissionRequest → ApplicationSubmission → ApplicationSubmission
updated_submission req s = record s {
  application_name = given_or req.application_name s.application_name;
  application_description = given_else req.application_description s.application_description;
  selected_fields = fields_or req.selected_fields s.selected_fields;
  previous_application_id = given_else req.previous_application_id s.previous_application_id;
  status = given_or req.status s.status;
  review = given_else req.review s.review;
}

-- shouldCreateApplication
abbrev pub is_approval : Option String → Bool
is_approval none = false
is_approval (some status) = status == status_approved

abbrev pub request_of : ApplicationSubmission → CreateApplicationRequest
request_of s = record {
  application_name = s.application_name;
  application_description = s.application_description;
  selected_fields = s.selected_fields;
  member_id = s.member_id;
  idp_application_id = none;
  idp_client_id = none;
}

-- A new submission, with its UUID and the time.
abbrev pub submission_of : String → ℕ → CreateSubmissionRequest → ApplicationSubmission
submission_of id now req = record {
  submission_id = id;
  previous_application_id = req.previous_application_id;
  application_name = req.application_name;
  application_description = req.application_description;
  selected_fields = req.selected_fields;
  member_id = req.member_id;
  status = status_pending;
  review = none;
  created_at = now;
  updated_at = now;
}

module _ (Y : Systems) where
  -- The check of a previous application, where one is given.
  abbrev pub check_previous : (DbError → AppError) → Option String → Service Y (Unit {0})
  check_previous e none = pure tt
  check_previous e (some id) = find_application Y e id >>= λ a. pure tt

  abbrev pub save_submission : (DbError → AppError) → ApplicationSubmission → Service Y (Unit {0})
  save_submission e s = on_error e (on_submissions Y (Table.save (Y.submissions) s))

  -- The response has the fields of the submission.
  unfoldable pub create_submission :
      String → ℕ → CreateSubmissionRequest → Service Y ApplicationSubmission
  create_submission id now req =
      check_previous AppError.db_failed req.previous_application_id
      >> find_member Y AppError.db_failed req.member_id
      >> on_error AppError.db_failed
          (on_submissions Y (Table.create (Y.submissions) (submission_of id now req)))
      >> pure (submission_of id now req)

  -- The status goes back to pending: the error of that, if it fails.
  abbrev pub undo_approval : ApplicationSubmission → Service Y (Option DbError)
  undo_approval s =
      attempt (on_submissions Y (Table.save (Y.submissions) (record s { status = status_pending })))
      >>= λ r. pure (elim r [ ok _ ↦ none | err e ↦ some e ])

  -- The application of an approved submission, with its UUID and the time.
  abbrev pub approve : String → ℕ → ApplicationSubmission → Service Y (Unit {0})
  approve id now s = attempt (create_application Y id now (request_of s)) >>= λ r. elim r [
    | ok _ ↦ pure tt
    | err e ↦ undo_approval s >>= λ undone. raise (AppError.not_created e undone)
  ]

  abbrev pub if_approval : Bool → Service Y (Unit {0}) → Service Y (Unit {0})
  if_approval true m = m
  if_approval false m = pure tt

  -- `saved` is the submission as Save leaves it in memory, with its new time.
  unfoldable pub update_submission :
      (ℕ → ApplicationSubmission → ApplicationSubmission)
      → String
      → ℕ
      → String
      → UpdateSubmissionRequest
      → Service Y ApplicationSubmission
  update_submission saved application_id now id req =
      on_error AppError.submission_not_found
        (on_submissions Y (Table.first (Y.submissions) (λ s. s.submission_id == id)))
      >>= λ found. check_previous AppError.previous_not_found req.previous_application_id >> λ w.
          let s = updated_submission req found in
          let stamped = saved (Table.clock (Y.submissions) w.submissions) s in
          (save_submission AppError.submission_failed s
              >> if_approval (is_approval req.status) (approve application_id now stamped)
              >> pure stamped)
            w

  unfoldable pub get_submission : String → Service Y ApplicationSubmission
  get_submission id =
      on_error AppError.db_failed
        (on_submissions Y (Table.first (Y.submissions) (λ s. s.submission_id == id)))

  unfoldable pub get_submissions :
      Option String → Option (List String) → Service Y (List ApplicationSubmission)
  get_submissions member_id statuses = on_error AppError.db_failed (
      on_submissions Y (
        Table.find_desc (Y.submissions)
          (λ s. of_member member_id s.member_id && in_statuses statuses s.status)
          (λ s. s.created_at)))
