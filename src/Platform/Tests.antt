-- ===== src/Platform/Tests.antt =====
-- The creation of applications, on tables in memory, an identity provider that knows the IDs of its
-- clients, and a policy decision point that may refuse.
pub mod Schemas
use openndx_core.Base.{
  arith, String, ℕ, ◌≡◌, ◌⊎◌, refl, inl, inr, Bool, true, false, none, some, List, [], ◌∷◌, ◌++◌,
  ◌==◌, string_eq, if◌then◌else◌, Bool-cases, contains, count, filter, find, ok, err, Action,
}
use openndx_core.Base.Table.{Table, DbError}
use openndx_core.Base.Memory.{memory, memory-IsLawful}
use openndx_core.Policy.Model.{AllowListUpdateRequest}
use openndx_core.Platform.Systems.{Member, same_member}
use openndx_core.Platform.Applications.{
  Application, ApplicationSubmission, CreateApplicationRequest, ApplicationResponse, IdpApplication,
  CreatedApplication, AppError, Systems, World, same_application, same_submission,
  create_application, undo_client, undo_row,
}
use openndx_core.Platform.Applications.Operations.{get_application}
use openndx_core.Base.Table.{update_where}
use openndx_core.Platform.Applications.Submissions.{UpdateSubmissionRequest, update_submission}
use openndx_core.Platform.Applications.Approval.{IsPending, failed_approval-IsPending}
use openndx_core.Platform.Applications.Creation.{IsIdp, Settled, without, creation-Settled}
use openndx_core.Platform.Applications.Clients.{brought_client_untouched, created_application_read}

abbrev stamp : ℕ → Application → Application
stamp t a = record a { updated_at = t }

abbrev stamp_submission : ℕ → ApplicationSubmission → ApplicationSubmission
stamp_submission t s = record s { updated_at = t }

abbrev pub stamp_member : ℕ → Member → Member
stamp_member t m = record m { updated_at = t }

abbrev new_client : CreatedApplication
new_client = record { id = "idp-1"; client_id = "client-1"; client_secret = "secret" }

abbrev provide : IdpApplication → Action (List String) String CreatedApplication
provide a ids =
    if contains ids "idp-1" then (err "conflict", ids) else (ok new_client, ids ++ "idp-1" ∷ [])

abbrev systems : Bool → Systems
systems refuses = record {
  applications = memory same_application stamp;
  submissions = memory same_submission stamp_submission;
  members = memory same_member stamp_member;
  Clients = List String;
  create_client = provide;
  delete_client = λ id ids. (ok tt, without id ids);
  Grants = List AllowListUpdateRequest;
  allow = λ req grants. if refuses then (err "refused", grants) else (ok tt, grants ++ req ∷ []);
}

abbrev ids_of : List String → List String
ids_of ids = ids

provide_lawful :
    (a : IdpApplication) (ids : List String) (n : CreatedApplication)
    → (provide a ids).0 ≡ ok n
    → ((provide a ids).1 ≡ ids ++ n.id ∷ []) × (contains ids n.id ≡ false)
provide_lawful a ids n h = elim (Bool-cases (contains ids "idp-1")) [
  | inl taken ↦ absurd (ground arith)
  | inr free ↦ let is : n ≡ new_client = ground arith in rw is (rw free (refl, refl))
]

systems-IsIdp : (refuses : Bool) → IsIdp (systems refuses) ids_of
systems-IsIdp refuses = record { create_law = provide_lawful; delete_law = λ id ids _. refl }

abbrev pub ministry : Member
ministry = record {
  member_id = "m-1";
  name = "Ministry";
  email = "";
  phone_number = "";
  ou_id = "ou-1";
  created_at = 1;
  updated_at = 1;
}

abbrev request : CreateApplicationRequest
request = record {
  application_name = "Passports";
  application_description = none;
  selected_fields = record { field_name = "name"; schema_id = "person" } ∷ [];
  member_id = "m-1";
  idp_application_id = none;
  idp_client_id = none;
}

abbrev world : (refuses : Bool) → World (systems refuses)
world refuses = record {
  applications = (7, []);
  submissions = (7, []);
  members = (7, ministry ∷ []);
  clients = [];
  grants = [];
}

none_yet :
    (refuses : Bool)
    → count
        (λ b. "a-1" == Application.application_id b)
        (Table.rows ((systems refuses).applications) (World.applications (world refuses)))
      ≡ 0
unfolding count
none_yet refuses = refl

creation-Settled_example :
    Settled
      (systems true)
      ids_of
      (systems-IsIdp true)
      stamp
      (memory-IsLawful same_application stamp)
      "a-1"
      7
      request
      (world true)
      (create_application (systems true) "a-1" 7 request (world true))
creation-Settled_example =
    creation-Settled (systems true) ids_of (systems-IsIdp true) stamp
      (memory-IsLawful same_application stamp) "a-1" 7 request (world true) (none_yet true)

-- The policy decision point refuses: nothing is left.
test_refused : (create_application (systems true) "a-1" 7 request (world true)).1 ≡ world true
unfolding create_application undo_row undo_client contains filter find string_eq
test_refused = refl

abbrev answered : ApplicationResponse
answered = record {
  application_id = "a-1";
  application_name = "Passports";
  application_description = none;
  selected_fields = record { field_name = "name"; schema_id = "person" } ∷ [];
  member_id = "m-1";
  version = "active";
  idp_application_id = some "idp-1";
  idp_client_id = some "client-1";
  idp_client_secret = some "secret";
  created_at = 7;
  updated_at = 7;
}

request_answered :
    (create_application (systems false) "a-1" 7 request (world false)).0 ≡ ok answered
unfolding create_application contains find string_eq
request_answered = refl

created_application_read_example :
    let answer =
      (get_application
        (systems false)
        "a-1"
        (create_application (systems false) "a-1" 7 request (world false)).1).0 in
    (answer ≡ err (AppError.db_failed DbError.failed))
    ⊎ (answer ≡ ok (record answered { idp_client_secret = none }))
created_application_read_example =
    created_application_read (systems false) ids_of (systems-IsIdp false) stamp
      (memory-IsLawful same_application stamp) "a-1" 7 request (world false) answered
      (none_yet false) request_answered

abbrev brought : CreateApplicationRequest
brought = record request { idp_application_id = some "idp-9"; idp_client_id = some "client-9" }

brought_client_untouched_example :
    World.clients ((create_application (systems true) "a-1" 7 brought (world true)).1)
    ≡ World.clients (world true)
brought_client_untouched_example =
    brought_client_untouched (systems true) "a-1" 7 brought (world true) refl

abbrev pending : ApplicationSubmission
pending = record {
  submission_id = "sub-1";
  previous_application_id = none;
  application_name = "Passports";
  application_description = none;
  selected_fields = record { field_name = "name"; schema_id = "person" } ∷ [];
  member_id = "m-1";
  status = "pending";
  review = none;
  created_at = 5;
  updated_at = 5;
}

abbrev approval : UpdateSubmissionRequest
approval = record {
  application_name = none;
  application_description = none;
  selected_fields = none;
  status = some "approved";
  previous_application_id = none;
  review = some "fine";
}

abbrev submitted : World (systems true)
submitted = record (world true) { submissions = (7, pending ∷ []) }

approval_failed :
    (update_submission (systems true) stamp_submission "a-1" 7 "sub-1" approval submitted).0
    ≡ err (AppError.not_created (AppError.not_allowed "refused" none none) none)
unfolding update_submission create_application undo_row undo_client contains filter find
    update_where string_eq
approval_failed = refl

failed_approval-IsPending_example :
    IsPending
      (systems true)
      stamp_submission
      (λ t s. (refl, refl))
      (memory-IsLawful same_submission stamp_submission)
      "sub-1"
      (update_submission (systems true) stamp_submission "a-1" 7 "sub-1" approval submitted).1
failed_approval-IsPending_example =
    failed_approval-IsPending (systems true) stamp_submission (λ t s. (refl, refl))
      (memory-IsLawful same_submission stamp_submission) "a-1" 7 "sub-1" approval submitted
      (AppError.not_allowed "refused" none none) approval_failed
