-- ===== src/Consent/Requests.antt =====
-- Durations and the validation of requests: internal/ce/services/consent_service.go.
use text.Mathlib.TextEquality.{eq_iff}
use openndx_core.Base.{
  ◌≢◌, arith, ℕ, ◌*◌, String, Bool, true, false, ◌&&◌, ◌||◌, Option, none, some, List, [], ◌∷◌,
  ◌==◌, string_eq, if◌then◌else◌, length, nat_eq, ◌!=◌,
}
use openndx_core.Consent.Model.{ConsentField, CreateConsentRequest, equals}

-- time.Hour, in nanoseconds
abbrev pub hour : ℕ
hour = 3600000000000

unfoldable pub parse_grant_duration : String → ℕ
parse_grant_duration d =
    if d == "PT1H"
    then hour
    else if d == "PT6H"
    then 6 * hour
    else if d == "PT12H"
    then 12 * hour
    else if d == "P1D"
    then 24 * hour
    else if d == "P7D"
    then 7 * 24 * hour
    else if d == "P30D"
    then 30 * 24 * hour
    else hour

unfoldable pub parse_pending_timeout_duration : String → ℕ
parse_pending_timeout_duration t =
    if t == "realtime" then hour else if t == "offline" then 24 * hour else hour

unfoldable pub is_valid_grant_duration : String → Bool
is_valid_grant_duration d =
    (d == "PT1H")
    || (d == "PT6H")
    || (d == "PT12H")
    || (d == "P1D")
    || (d == "P7D")
    || (d == "P30D")

unfoldable pub is_valid_consent_portal_action : String → Bool
is_valid_consent_portal_action a = (a == "approve") || (a == "reject") || (a == "revoke")

unfoldable pub get_grant_duration_or_default : Option String → String
get_grant_duration_or_default none = "PT1H"
get_grant_duration_or_default (some d) = if d == "" then "PT1H" else d

-- the loop over two slices of one length
unfoldable pub same_fields : List ConsentField → List ConsentField → Bool
same_fields [] [] = true
same_fields (a ∷ as') (b ∷ bs) = equals a b && same_fields as' bs
same_fields _ _ = false

unfoldable pub are_consent_fields_equal :
    Option (List ConsentField) → Option (List ConsentField) → Bool
unfolding same_fields
are_consent_fields_equal none none = true
are_consent_fields_equal (some a) (some b) = if length a != length b then false else same_fields a b
are_consent_fields_equal _ _ = false

fields_named : List ConsentField → Bool
fields_named [] = true
fields_named (f ∷ fs) =
    if f.field_name == "" then false else if f.schema_id == "" then false else fields_named fs

duration_given_valid : Option String → Bool
unfolding is_valid_grant_duration
duration_given_valid none = true
duration_given_valid (some d) = if d != "" then is_valid_grant_duration d else true

-- `true` where validateCreateConsentRequest returns no error
unfoldable pub validate_create_consent_request : CreateConsentRequest → Bool
unfolding fields_named duration_given_valid
validate_create_consent_request req =
    if req.app_id == ""
    then false
    else if duration_given_valid req.grant_duration
    then (if req.consent_requirement.owner_id == ""
        then false
        else if length req.consent_requirement.fields == 0
        then false
        else fields_named req.consent_requirement.fields)
    else false

-- The actions are different texts.
pub approve-ne-revoke : ◌≢◌ {A = String} "approve" "revoke"
approve-ne-revoke = ground (arith, eq_iff "approve" "revoke")

pub reject-ne-revoke : ◌≢◌ {A = String} "reject" "revoke"
reject-ne-revoke = ground (arith, eq_iff "reject" "revoke")

pub approve-ne-reject : ◌≢◌ {A = String} "approve" "reject"
approve-ne-reject = ground (arith, eq_iff "approve" "reject")
