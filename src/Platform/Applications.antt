-- ===== src/Platform/Applications.antt =====
-- The applications of consumers: internal/pb/application/model.go, dto.go and service.go. An
-- application is created at the identity provider, in the database and at the policy decision
-- point; the creation undoes its steps when a later one fails.
pub mod Operations
pub mod Submissions
pub mod Creation
pub mod Clients
pub mod Approval
use openndx_core.Base.{
  String, ℕ, Bool, true, false, not, ◌&&◌, ◌||◌, Option, none, some, List, [], ◌∷◌, ◌==◌, string_eq,
  if◌then◌else◌, Result, ok, err, Action, pure, raise, ◌>>=◌, ◌>>◌, on_error, check,
}
use openndx_core.Base.Table.{Table, DbError}
use openndx_core.Policy.Model.{FieldRef, AllowListUpdateRequest}
use openndx_core.Platform.Systems.{active_version, Member, attempt, part, given_or, given_else}

pub record Application : Type 0 where
  pub application_id : String
  pub application_name : String
  pub application_description : Option String
  pub selected_fields : List FieldRef
  pub member_id : String
  pub version : String
  pub idp_application_id : Option String
  pub idp_client_id : Option String
  pub created_at : ℕ
  pub updated_at : ℕ

pub record ApplicationSubmission : Type 0 where
  pub submission_id : String
  pub previous_application_id : Option String
  pub application_name : String
  pub application_description : Option String
  pub selected_fields : List FieldRef
  pub member_id : String
  pub status : String
  pub review : Option String
  pub created_at : ℕ
  pub updated_at : ℕ

pub record CreateApplicationRequest : Type 0 where
  pub application_name : String
  pub application_description : Option String
  pub selected_fields : List FieldRef
  pub member_id : String
  pub idp_application_id : Option String
  pub idp_client_id : Option String

pub record UpdateApplicationRequest : Type 0 where
  pub application_name : Option String
  pub application_description : Option String
  pub version : Option String

pub record UpdateApplicationPolicyRequest : Type 0 where
  pub selected_fields : List FieldRef
  pub grant_duration : Option String

-- The times are formatted as RFC3339 in the code.
pub record ApplicationResponse : Type 0 where
  pub application_id : String
  pub application_name : String
  pub application_description : Option String
  pub selected_fields : List FieldRef
  pub member_id : String
  pub version : String
  pub idp_application_id : Option String
  pub idp_client_id : Option String
  pub idp_client_secret : Option String
  pub created_at : ℕ
  pub updated_at : ℕ

-- idp.Application and idp.CreatedApplication of internal/pb/idp/idp.go
pub record IdpApplication : Type 0 where
  pub name : String
  pub description : String
  pub template_id : String
  pub ou_id : String

pub record CreatedApplication : Type 0 where
  pub id : String
  pub client_id : String
  pub client_secret : String

-- The errors, by what failed; an error of a compensation beside the one that it follows.
pub data AppError : Type 0 where
  both_or_neither empty_client member_not_found no_client_id : AppError
  member_failed : DbError → AppError
  client_failed : String → AppError
  not_stored : DbError → Option String → AppError
  not_allowed : String → Option DbError → Option String → AppError
  db_failed not_persisted submission_not_found previous_not_found submission_failed :
      DbError → AppError
  list_failed : String → AppError
  not_created : AppError → Option DbError → AppError

-- The systems that the service works on: three tables of the database, the identity provider, and
-- the policy decision point.
pub record Systems : Type 1 where
  pub applications : Table Application
  pub submissions : Table ApplicationSubmission
  pub members : Table Member
  pub Clients : Type 0
  pub create_client : IdpApplication → Action Clients String CreatedApplication
  pub delete_client : String → Action Clients String (Unit {0})
  pub Grants : Type 0
  pub allow : AllowListUpdateRequest → Action Grants String (Unit {0})

pub record World (Y : Systems) : Type 0 where
  pub applications : Table.State (Y.applications)
  pub submissions : Table.State (Y.submissions)
  pub members : Table.State (Y.members)
  pub clients : Y.Clients
  pub grants : Y.Grants

abbrev pub same_application : Application → Application → Bool
same_application a b = a.application_id == b.application_id

abbrev pub same_submission : ApplicationSubmission → ApplicationSubmission → Bool
same_submission a b = a.submission_id == b.submission_id

abbrev pub one_month : String
one_month = "30d"

-- The OAuth2 client of a new application; `ours` where the service created it.
pub record Client : Type 0 where
  pub idp_id : Option String
  pub client_id : Option String
  pub secret : Option String
  pub ours : Bool

abbrev pub is_given : Option String → Bool
is_given none = false
is_given (some _) = true

abbrev pub is_blank : Option String → Bool
is_blank none = true
is_blank (some s) = s == ""

-- externallyProvisioned
abbrev pub is_external : CreateApplicationRequest → Bool
is_external req = is_given req.idp_application_id || is_given req.idp_client_id

abbrev pub text_or_empty : Option String → String
text_or_empty o = given_or o ""

abbrev pub member_error : DbError → AppError
member_error DbError.not_found = member_not_found
member_error e = member_failed e

abbrev pub response_of : Application → Option String → ApplicationResponse
response_of a secret = record {
  application_id = a.application_id;
  application_name = a.application_name;
  application_description = a.application_description;
  selected_fields = a.selected_fields;
  member_id = a.member_id;
  version = a.version;
  idp_application_id = a.idp_application_id;
  idp_client_id = a.idp_client_id;
  idp_client_secret = secret;
  created_at = a.created_at;
  updated_at = a.updated_at;
}

abbrev pub application_of : String → ℕ → CreateApplicationRequest → Client → Application
application_of id now req client = record {
  application_id = id;
  application_name = req.application_name;
  application_description = req.application_description;
  selected_fields = req.selected_fields;
  member_id = req.member_id;
  version = active_version;
  idp_application_id = client.idp_id;
  idp_client_id = client.client_id;
  created_at = now;
  updated_at = now;
}

abbrev pub our_client : CreatedApplication → Client
our_client c = record {
  idp_id = some c.id;
  client_id = some c.client_id;
  secret = if c.client_secret == "" then none else some c.client_secret;
  ours = true;
}

module _ (Y : Systems) where
  -- A method of the service
  abbrev pub Service : Type 0 → Type 0
  Service A = Action (World Y) AppError A

  abbrev pub on_applications :
      {E A : Type 0} → Action (Table.State (Y.applications)) E A → Action (World Y) E A
  on_applications = part (λ w. w.applications) (λ t w. record w { applications = t })

  abbrev pub on_submissions :
      {E A : Type 0} → Action (Table.State (Y.submissions)) E A → Action (World Y) E A
  on_submissions = part (λ w. w.submissions) (λ t w. record w { submissions = t })

  abbrev pub on_members :
      {E A : Type 0} → Action (Table.State (Y.members)) E A → Action (World Y) E A
  on_members = part (λ w. w.members) (λ t w. record w { members = t })

  abbrev pub on_clients : {E A : Type 0} → Action Y.Clients E A → Action (World Y) E A
  on_clients = part (λ w. w.clients) (λ t w. record w { clients = t })

  abbrev pub on_grants : {E A : Type 0} → Action Y.Grants E A → Action (World Y) E A
  on_grants = part (λ w. w.grants) (λ t w. record w { grants = t })

  -- First, with a primary key
  abbrev pub find_application : (DbError → AppError) → String → Service Application
  find_application e id =
      on_error e (on_applications (Table.first (Y.applications) (λ a. a.application_id == id)))

  abbrev pub find_member : (DbError → AppError) → String → Service Member
  find_member e id = on_error e (on_members (Table.first (Y.members) (λ m. m.member_id == id)))

  abbrev pub save_application : (DbError → AppError) → Application → Service (Unit {0})
  save_application e a = on_error e (on_applications (Table.save (Y.applications) a))

  -- Step 1 of the creation, for a client of ours
  abbrev pub create_client : CreateApplicationRequest → Service Client
  create_client req = find_member member_error req.member_id >>= λ owner.
      on_error client_failed (
        on_clients (
          Y.create_client (record {
            name = req.application_name;
            description = text_or_empty req.application_description;
            template_id = "m2m-application";
            ou_id = owner.ou_id;
          })))
      >>= λ created. pure (our_client created)

  abbrev pub client_for : CreateApplicationRequest → Service Client
  client_for req =
      if is_external req
      then pure (record {
        idp_id = req.idp_application_id;
        client_id = req.idp_client_id;
        secret = none;
        ours = false;
      })
      else create_client req

  -- Deletes a client of ours: the error of the deletion, if it fails.
  unfoldable pub undo_client : Client → Service (Option String)
  undo_client client =
      if client.ours
      then (attempt (on_clients (Y.delete_client (text_or_empty client.idp_id))) >>= λ r.
          pure (elim r [ ok _ ↦ none | err e ↦ some e ]))
      else pure none

  -- Deletes the application's row: the error of the deletion, if it fails.
  unfoldable pub undo_row : Application → Service (Option DbError)
  undo_row a =
      attempt (on_applications (Table.delete (Y.applications) (same_application a))) >>= λ r.
      pure (elim r [ ok _ ↦ none | err e ↦ some e ])

  -- Step 3 of the creation
  abbrev pub allow_fields : Client → Application → Service ApplicationResponse
  allow_fields client a = elim a.idp_client_id [
    | none ↦ raise no_client_id
    | some client_id ↦
        attempt (
          on_grants (
            Y.allow (record {
              application_id = client_id;
              records = a.selected_fields;
              grant_duration = one_month;
            })))
        >>= λ r. elim r [
          | ok _ ↦ pure (response_of a client.secret)
          | err e ↦
              undo_row a >>= λ row. undo_client client >>= λ idp. raise (not_allowed e row idp)
        ]
  ]

  -- Steps 2 and 3 of the creation
  abbrev pub store_and_allow : Client → Application → Service ApplicationResponse
  store_and_allow client a = attempt (on_applications (Table.create (Y.applications) a)) >>= λ r.
      elim r [
        | ok _ ↦ allow_fields client a
        | err e ↦ undo_client client >>= λ idp. raise (not_stored e idp)
      ]

  -- CreateApplication, with its new UUID and the time
  unfoldable pub create_application :
      String → ℕ → CreateApplicationRequest → Service ApplicationResponse
  create_application id now req =
      if is_external req && not (is_given req.idp_application_id && is_given req.idp_client_id)
      then raise both_or_neither
      else if is_external req && (is_blank req.idp_application_id || is_blank req.idp_client_id)
      then raise empty_client
      else client_for req >>= λ client. store_and_allow client (application_of id now req client)
