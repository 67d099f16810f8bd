-- ===== src/Consent/Portal.antt =====
-- The portal's handlers of one consent: GetConsent and UpdateConsent of
-- internal/ce/handlers/portal_handler.go. A reply is a status code with a body, or with the code of
-- an error; its message is left out.
pub mod Replies
use openndx_core.Base.{
  ℕ, String, Bool, true, false, Option, none, some, List, [], ◌∷◌, ◌==◌, ◌!=◌, string_eq, contains,
  if◌then◌else◌, Result, ok, err,
}
use openndx_core.Base.Table.{Table}
use openndx_core.Consent.Model.{
  ConsentStatus, approved, rejected, revoked, ConsentRecord, UuidText, ConsentPortalActionRequest,
  PortalView, Error, sentinel_eq, consent_not_found, access_denied, not_pending, not_revocable,
  portal_request_failed,
}
use openndx_core.Consent.Service.{get_consent_portal_view, update_consent_status_by_portal_action}

pub data ErrorCode : Type 0 where
  code_consent_not_found code_internal_error code_bad_request code_unauthorized code_forbidden :
      ErrorCode
  code_method_not_allowed code_consent_not_pending code_consent_not_revocable : ErrorCode

-- What is read of a request. The subject is the one that the authentication has put in the
-- context, the action that of a body that could be decoded, and `ended` says whether the context
-- has ended when the service returns.
pub record PortalRequest : Type 0 where
  pub method : String
  pub consent_id : String
  pub subject : Option String
  pub action : Option String
  pub ended : Bool

-- utils.RespondWithError, or a body with the status 200
abbrev pub Reply : Type 0 → Type 0
Reply A = Result (ℕ × ErrorCode) A

abbrev pub failure_of_get : Bool → Error → ℕ × ErrorCode
failure_of_get ended e =
    if ended
    then (408, code_internal_error)
    else if contains e consent_not_found
    then (404, code_consent_not_found)
    else if contains e access_denied
    then (403, code_forbidden)
    else (500, code_internal_error)

abbrev pub failure_of_update : Bool → Error → ℕ × ErrorCode
failure_of_update ended e =
    if ended
    then (408, code_internal_error)
    else if contains e consent_not_found
    then (404, code_consent_not_found)
    else if contains e access_denied
    then (403, code_forbidden)
    else if contains e not_pending
    then (409, code_consent_not_pending)
    else if contains e not_revocable
    then (409, code_consent_not_revocable)
    else if contains e portal_request_failed
    then (400, code_bad_request)
    else (500, code_internal_error)

-- What both handlers ask of a request: the subject, unless the request is refused.
unfoldable pub admitted : UuidText → String → PortalRequest → Reply String
admitted U method r =
    if r.method != method
    then err (405, code_method_not_allowed)
    else if r.consent_id == ""
    then err (400, code_bad_request)
    else elim (U.parse r.consent_id) [
      | none ↦ err (400, code_bad_request)
      | some id ↦ elim r.subject [ none ↦ err (401, code_unauthorized) | some owner ↦ ok owner ]
    ]

-- statusMap
unfoldable pub new_status : String → Option ConsentStatus
new_status action =
    if action == "approve"
    then some approved
    else if action == "reject"
    then some rejected
    else if action == "revoke"
    then some revoked
    else none

-- The action of the body, and the status that it leads to.
unfoldable pub requested : Option String → Reply (String × ConsentStatus)
requested none = err (400, code_bad_request)
requested (some action) = elim (new_status action) [
  | none ↦ err (400, code_bad_request)
  | some status ↦ ok (action, status)
]

abbrev pub update_request : PortalRequest → String → String → ConsentPortalActionRequest
update_request r owner action = record {
  consent_id = r.consent_id;
  owner_id = owner;
  action = action;
  updated_by = owner;
}

module _ (T : Table ConsentRecord) (U : UuidText) where
  abbrev pub get_reply : Bool → Result Error PortalView → Reply PortalView
  get_reply ended (ok view) = ok view
  get_reply ended (err e) = err (failure_of_get ended e)

  unfoldable pub get_consent : PortalRequest → ℕ → T.State → Reply PortalView × T.State
  get_consent r now s = elim (admitted U "GET" r) [
    | err e ↦ (err e, s)
    | ok owner ↦
        let x = get_consent_portal_view T U r.consent_id owner now s in (get_reply r.ended x.0, x.1)
  ]

  abbrev pub update_reply : Bool → ConsentStatus → Result Error (Unit {0}) → Reply ConsentStatus
  update_reply ended status (ok _) = ok status
  update_reply ended status (err e) = err (failure_of_update ended e)

  unfoldable pub update_consent : PortalRequest → ℕ → T.State → Reply ConsentStatus × T.State
  update_consent r now s = elim (admitted U "PUT" r) [
    | err e ↦ (err e, s)
    | ok owner ↦ elim (requested r.action) [
      | err e ↦ (err e, s)
      | ok (action, status) ↦
          let x =
            update_consent_status_by_portal_action T U (update_request r owner action) now s in
          (update_reply r.ended status x.0, x.1)
    ]
  ]
