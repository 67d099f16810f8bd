-- ===== src/Platform/Applications/Operations.antt =====
-- The operations on an application that is there: UpdateApplication, UpdateApplicationPolicy,
-- GetApplication and GetApplications of internal/pb/application/service.go.
use openndx_core.Base.{
  String, ℕ, Option, none, some, List, map, string_eq, pure, raise, ◌>>=◌, ◌>>◌, on_error,
}
use openndx_core.Base.Table.{Table}
use openndx_core.Platform.Systems.{of_member, given_or, given_else, shown}
use openndx_core.Platform.Applications.{
  Application, UpdateApplicationRequest, UpdateApplicationPolicyRequest, ApplicationResponse,
  AppError, Systems, Service, on_applications, on_grants, find_application, save_application,
  response_of, one_month,
}

abbrev pub updated_application : UpdateApplicationRequest → Application → Application
updated_application req a = record a {
  application_name = given_or req.application_name a.application_name;
  application_description = given_else req.application_description a.application_description;
  version = given_or req.version a.version;
}

-- The response of a list, which leaves an empty description out.
abbrev pub listed_response : Application → ApplicationResponse
listed_response a = record (response_of a none) {
  application_description = shown a.application_description;
}

module _ (Y : Systems) where
  -- `saved` is the application as Save leaves it in memory, with its new time.
  unfoldable pub update_application :
      (ℕ → Application → Application)
      → String
      → UpdateApplicationRequest
      → Service Y ApplicationResponse
  update_application saved id req = find_application Y AppError.db_failed id >>= λ a w.
      let b = updated_application req a in
      (save_application Y AppError.db_failed b
          >> pure (response_of (saved (Table.clock (Y.applications) w.applications) b) none))
        w

  unfoldable pub update_application_policy :
      (ℕ → Application → Application)
      → String
      → UpdateApplicationPolicyRequest
      → Service Y ApplicationResponse
  update_application_policy saved id req = find_application Y AppError.db_failed id >>= λ a.
      elim a.idp_client_id [
        | none ↦ raise AppError.no_client_id
        | some client_id ↦
            on_error AppError.list_failed (
              on_grants Y (
                Y.allow (record {
                  application_id = client_id;
                  records = req.selected_fields;
                  grant_duration = given_or req.grant_duration one_month;
                })))
            >> λ w.
                let b : Application = record a { selected_fields = req.selected_fields } in
                (save_application Y AppError.not_persisted b
                    >> pure
                        (response_of (saved (Table.clock (Y.applications) w.applications) b) none))
                  w
      ]

  unfoldable pub get_application : String → Service Y ApplicationResponse
  get_application id = find_application Y AppError.db_failed id >>= λ a. pure (response_of a none)

  unfoldable pub get_applications : Option String → Service Y (List ApplicationResponse)
  get_applications member_id =
      on_error AppError.db_failed (
        on_applications Y (
          Table.find_desc (Y.applications) (λ a. of_member member_id a.member_id)
            (λ a. a.created_at)))
      >>= λ applications. pure (map listed_response applications)
