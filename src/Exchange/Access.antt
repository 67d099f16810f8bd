-- ===== src/Exchange/Access.antt =====
-- Whether a consumer may read the fields that a query asks for:
-- internal/oe/federator/access.go. The policy decision point and the consent engine are asked
-- through clients, which are arguments; a client that is nil is none.
pub mod Gate
pub mod Release
use openndx_core.Base.{
  String, ◌<>◌, Bool, true, false, Option, none, some, List, [], ◌∷◌, map, is_empty, ◌==◌, ◌!=◌,
  string_eq, if◌then◌else◌, Result, ok, err, map_err, not,
}

pub record RequiredField : Type 0 where
  pub field_name : String
  pub schema_id : String

pub record PdpRequest : Type 0 where
  pub app_id : String
  pub required_fields : List RequiredField

pub record ConsentRequiredField : Type 0 where
  pub field_name : String
  pub schema_id : String
  pub display_name : Option String
  pub description : Option String
  pub owner : Option String

pub record PdpResponse : Type 0 where
  pub app_authorized : Bool
  pub unauthorized_fields : List ConsentRequiredField
  pub app_access_expired : Bool
  pub expired_fields : List ConsentRequiredField
  pub app_requires_owner_consent : Bool
  pub consent_required_fields : List ConsentRequiredField

pub record ConsentField : Type 0 where
  pub field_name : String
  pub schema_id : String
  pub display_name : Option String
  pub description : Option String
  pub owner : String

pub record CreateConsentRequest : Type 0 where
  pub app_id : String
  pub owner : String
  pub owner_id : String
  pub fields : List ConsentField
  pub consent_type : String

pub record ConsentView : Type 0 where
  pub consent_id : String
  pub status : String
  pub consent_portal_url : Option String
  pub fields : Option (List ConsentField)

-- A client's answer: an error with its text, or a response, which may be nil.
abbrev pub Client : Type 0 → Type 0 → Type 0
Client Request Response = Request → Result String (Option Response)

pub record Deps : Type 0 where
  pub policy : Option (Client PdpRequest PdpResponse)
  pub consent : Option (Client CreateConsentRequest ConsentView)

-- The extensions of the error of a rejected query, beside its code.
pub data Details : Type 0 where
  no_details : Details
  unauthorized_fields : List ConsentRequiredField → Details
  expired_fields : List ConsentRequiredField → Details
  consent_state : Option String → String → Details

pub record Rejection : Type 0 where
  pub message : String
  pub code : String
  pub details : Details

-- rejectWithCode and reject
abbrev pub reject_with_code : String → String → Rejection
reject_with_code message code = record { message = message; code = code; details = no_details }

abbrev pub reject : String → String → Details → Rejection
reject message code details = record { message = message; code = code; details = details }

abbrev pub policy_answer : Result String (Option PdpResponse) → Result Rejection PdpResponse
policy_answer (err e) = err (reject_with_code ("Authorization check failed: " <> e) "PDP_ERROR")
policy_answer (ok none) =
    err (reject_with_code "No response from authorization service" "PDP_NO_RESPONSE")
policy_answer (ok (some r)) =
    if not r.app_authorized
    then err (reject "Access denied" "PDP_NOT_ALLOWED" (unauthorized_fields r.unauthorized_fields))
    else if r.app_access_expired
    then err (reject "Access expired" "PDP_NOT_ALLOWED" (expired_fields r.expired_fields))
    else ok r

-- Without a policy client the check is skipped, and there is no response.
unfoldable pub check_policy :
    Deps → String → List RequiredField → Result Rejection (Option PdpResponse)
check_policy deps app fields = elim deps.policy [
  | none ↦ ok none
  | some client ↦
      elim (policy_answer (client (record { app_id = app; required_fields = fields }))) [
        | err e ↦ err e
        | ok r ↦ ok (some r)
      ]
]

abbrev pub consent_field : ConsentRequiredField → ConsentField
consent_field f = record {
  field_name = f.field_name;
  schema_id = f.schema_id;
  display_name = f.display_name;
  description = f.description;
  owner = elim f.owner [ none ↦ "citizen" | some o ↦ o ];
}

abbrev pub consent_request : String → String → PdpResponse → CreateConsentRequest
consent_request app owner_id r = record {
  app_id = app;
  owner = "citizen";
  owner_id = owner_id;
  fields = map consent_field r.consent_required_fields;
  consent_type = "realtime";
}

abbrev pub consent_answer : Result String (Option ConsentView) → Result Rejection (Unit {0})
consent_answer (err e) = err (reject_with_code "CE request failed" "CE_ERROR")
consent_answer (ok none) = err (reject_with_code "Failed to get response from CE" "CE_NO_RESPONSE")
consent_answer (ok (some v)) =
    if v.status != "approved"
    then err (
        reject "Consent not approved" "CE_NOT_APPROVED"
          (consent_state v.consent_portal_url v.status))
    else ok tt

unfoldable pub check_consent : Deps → String → String → PdpResponse → Result Rejection (Unit {0})
check_consent deps app owner_id r =
    if is_empty r.consent_required_fields
    then err (
        reject_with_code "Invalid PDP response: consent required but no fields specified"
          "PDP_ERROR")
    else elim deps.consent [
      | none ↦ err (reject_with_code "Consent required but consent engine not available" "CE_ERROR")
      | some client ↦ consent_answer (client (consent_request app owner_id r))
    ]

-- The query goes on where the result is ok.
unfoldable pub authorize_access :
    Deps → String → List RequiredField → String → Result Rejection (Unit {0})
authorize_access deps app fields owner_id = elim (check_policy deps app fields) [
  | err e ↦ err e
  | ok answer ↦ elim answer [
    | none ↦ ok tt
    | some r ↦ if r.app_requires_owner_consent then check_consent deps app owner_id r else ok tt
  ]
]
