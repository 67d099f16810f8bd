-- ===== src/Exchange/Tests.antt =====
-- A query for one field that needs consent, over the policy decision point on its table in memory.
pub mod Federation
pub mod Printing
use openndx_core.Base.{
  ◌≡◌, ◌⊎◌, ◌↔◌, refl, String, true, none, some, List, [], ◌∷◌, string_eq, ok, lookup, insert,
  contains, filter, Option, Dict, false,
}
use openndx_core.Policy.Model.{PolicyDecisionResponse}
use openndx_core.Policy.Engine.{
  decide, router, allowlist, allowlist_consent, to_decision, outcome_of,
}
use openndx_core.Policy.Service.{get_policy_decision, sort_fields, metadata_map}
use openndx_core.Policy.Service.Decisions.{AllGranted}
use openndx_core.Policy.Tests.{
  opa, opa-RunsPolicies, same_metadata, touch_metadata, store, store-lawful, one_row, clock, wanted,
  wanted_plain,
}
use openndx_core.Exchange.Value.{Value, text}
use openndx_core.Exchange.Operation.{
  TypeRef, named, SourceInfo, FieldInfo, Field, field, Fields, end, cons, id_value, data_owner_id,
}
use openndx_core.Exchange.Operation.Owner.{Occurs, data_owner_iff}
use openndx_core.Exchange.Access.{
  RequiredField, PdpRequest, PdpResponse, ConsentView, CreateConsentRequest, Client, Deps,
  authorize_access, check_policy, check_consent,
}
use openndx_core.Exchange.Access.Gate.{IsPermitted, proceeds_iff}
use openndx_core.Exchange.Access.Release.{service_client, HasConsent, released_fields_granted}

abbrev consenting : Client CreateConsentRequest ConsentView
consenting request = ok (
    some (record {
      consent_id = "c-1";
      status = "approved";
      consent_portal_url = none;
      fields = none;
    }))

abbrev policy_client : Client PdpRequest PdpResponse
policy_client = service_client store opa clock one_row

abbrev deps : Deps
deps = record { policy = some policy_client; consent = some consenting }

abbrev pub fields : List RequiredField
fields = record { field_name = "address"; schema_id = "person" } ∷ []

proceeds_iff_example :
    (authorize_access deps "app" fields "owner" ≡ ok tt)
    ↔ ((deps.policy ≡ none) ⊎ IsPermitted deps "app" fields "owner")
proceeds_iff_example = proceeds_iff deps "app" fields "owner"

released : authorize_access deps "app" fields "owner" ≡ ok tt
unfolding authorize_access check_policy check_consent get_policy_decision sort_fields metadata_map
    insert decide router allowlist allowlist_consent to_decision outcome_of lookup string_eq
    contains filter
released = refl

released_fields_granted_example :
    (resp : PolicyDecisionResponse) × ((get_policy_decision store opa clock
        (record { application_id = "app"; required_fields = wanted ∷ [] })
        one_row).0
      ≡ ok resp)
    × AllGranted "app" (store.rows one_row) clock resp 0 (wanted ∷ [])
    × (resp.app_requires_owner_consent ≡ true
        → HasConsent deps "app" "owner" resp.consent_required_fields)
released_fields_granted_example =
    released_fields_granted store same_metadata touch_metadata store-lawful opa opa-RunsPolicies
      clock one_row deps "app" fields "owner" (wanted_plain, tt) refl released

abbrev pub info : String → String → List String → Dict Value → Option SourceInfo → FieldInfo
info name typ path arguments source = record {
  response_key = name;
  name = name;
  path = path;
  schema_path = path;
  arguments = arguments;
  typ = named typ false;
  argument_types = [];
  source = source;
}

abbrev pub name_source : Option SourceInfo
name_source = some (record { schema_id = "person"; provider_field = "person.name" })

abbrev pub person : Fields
person =
    cons
      (field (info "me" "Person" ("me" ∷ []) (("nic", text "123V") ∷ []) none)
        (cons (field (info "name" "String" ("me" ∷ "name" ∷ []) [] name_source) end) end))
      end

data_owner_iff_example : (data_owner_id "nic" person ≡ ok "123V") ↔ (
    ((f : Field) × Occurs f person × (id_value "nic" f ≡ some "123V"))
    × ((f : Field) (v : String) → Occurs f person → id_value "nic" f ≡ some v → v ≡ "123V"))
data_owner_iff_example = data_owner_iff "nic" person "123V"
