-- ===== src/Exchange/Access/Release.antt =====
-- The gate of a query together with the policy decision point that its client asks:
-- internal/oe/federator/access.go over internal/pdp/services/policy_metadata_service.go.
use openndx_core.Base.{
  IsIn, [], ◌∷◌, sym, ap, subst, ◌∙◌, ℕ, String, ◌≡◌, inl, inr, refl, Bool, true, Option, some,
  List, map, arith, Result, ok, err,
}
use openndx_core.Base.Table.{Table, IsLawful}
use openndx_core.Policy.Model.{
  PolicyMetadata, PolicyDecisionRequest, PolicyDecisionResponse, FieldRecord, FieldRef,
}
use openndx_core.Policy.Engine.{Eval}
use openndx_core.Policy.Engine.Decisions.{RunsPolicies}
use openndx_core.Policy.Service.{ServiceError, get_policy_decision}
use openndx_core.Policy.Service.Decisions.{AllGranted, authorized_fields_granted}
use openndx_core.Policy.Service.Keys.{NoColons}
use openndx_core.Exchange.Access.{
  CreateConsentRequest, ConsentView, ConsentField, consent_field, consent_request, RequiredField,
  PdpRequest, PdpResponse, ConsentRequiredField, Client, Deps, authorize_access,
}
use openndx_core.Exchange.Access.Gate.{IsApproved, proceeds_iff}

-- The two sides' types of one message, which have the same JSON properties.
abbrev sent_field : RequiredField → FieldRef
sent_field f = record { field_name = f.field_name; schema_id = f.schema_id }

abbrev pub sent : PdpRequest → PolicyDecisionRequest
sent r = record { application_id = r.app_id; required_fields = map sent_field r.required_fields }

abbrev received_field : FieldRecord → ConsentRequiredField
received_field f = record {
  field_name = f.field_name;
  schema_id = f.schema_id;
  display_name = f.display_name;
  description = f.description;
  owner = f.owner;
}

abbrev pub received : PolicyDecisionResponse → PdpResponse
received r = record {
  app_authorized = r.app_authorized;
  unauthorized_fields = map received_field r.unauthorized_fields;
  app_access_expired = r.app_access_expired;
  expired_fields = map received_field r.expired_fields;
  app_requires_owner_consent = r.app_requires_owner_consent;
  consent_required_fields = map received_field r.consent_required_fields;
}

-- What the client hands on of the service's answer: the response, or an error.
abbrev delivered : Result ServiceError PolicyDecisionResponse → Result String (Option PdpResponse)
delivered (err e) = err "policy decision failed"
delivered (ok r) = ok (some (received r))

delivered-ok :
    (x : Result ServiceError PolicyDecisionResponse) (p : PdpResponse)
    → delivered x ≡ ok (some p)
    → (r : PolicyDecisionResponse) × (x ≡ ok r) × (p ≡ received r)
delivered-ok (err e) p h = ground arith
delivered-ok (ok r) p h = (r, refl, ground arith)

-- The client that reaches the service while its table is in state `s`.
abbrev pub service_client :
    (T : Table PolicyMetadata) → Eval → (ℕ → ℕ) → T.State → Client PdpRequest PdpResponse
service_client T eval clock s r = delivered (get_policy_decision T eval clock (sent r) s).0

-- The consent engine has answered that the owner approves a request, of the application and the
-- owner, which names all the fields.
pub record HasConsent (deps : Deps) (app owner_id : String) (fields : List FieldRecord)
    : Type 0 where
  pub client : Client CreateConsentRequest ConsentView
  pub asked : CreateConsentRequest
  pub view : ConsentView
  pub there : deps.consent ≡ some client
  pub answered : client asked ≡ ok (some view)
  pub approved : view.status ≡ "approved"
  pub for_app : asked.app_id ≡ app
  pub of_owner : asked.owner_id ≡ owner_id
  pub covers :
      (g : FieldRecord)
      → IsIn g fields
      → (f : ConsentField) × IsIn f asked.fields
        × (f.schema_id ≡ g.schema_id)
        × (f.field_name ≡ g.field_name)

-- The field of the consent request for a field of the decision
abbrev asked_field : FieldRecord → ConsentField
asked_field g = consent_field (received_field g)

asked_covers :
    (fields : List FieldRecord) (g : FieldRecord)
    → IsIn g fields
    → IsIn (asked_field g) (map consent_field (map received_field fields))
asked_covers [] g there = absurd there
asked_covers (x ∷ fields) g (inl same) = inl (ap asked_field same)
asked_covers (x ∷ fields) g (inr later) = inr (asked_covers fields g later)

HasConsent-approved :
    (deps : Deps) (app owner_id : String) (resp : PolicyDecisionResponse)
    → IsApproved deps app owner_id (received resp)
    → HasConsent deps app owner_id resp.consent_required_fields
HasConsent-approved deps app owner_id resp a = record {
  client = a.client;
  asked = consent_request app owner_id (received resp);
  view = a.view;
  there = a.there;
  answered = a.answered;
  approved = a.approved;
  for_app = refl;
  of_owner = refl;
  covers =
      λ g there. (asked_field g, asked_covers resp.consent_required_fields g there, refl, refl);
}

module _ (T : Table PolicyMetadata) (same : PolicyMetadata → PolicyMetadata → Bool)
    (touch : ℕ → PolicyMetadata → PolicyMetadata) (L : IsLawful T same touch) (eval : Eval)
    (runs : RunsPolicies eval) (clock : ℕ → ℕ) (s : T.State) where
  -- With OPA running the embedded policies, the policy client reaching the policy decision point,
  -- and no colon in the fields' schema IDs: where a query goes on, that service has answered for
  -- the application and the fields. Every field has a row of metadata with its schema ID and its
  -- name, in which the application has a grant that is not over at the time read for the field; the
  -- class of the row needs no consent, or the field is among those that the answer asks consent
  -- for. Where the answer asks for consent, the consent engine answered that a request of the
  -- application to the owner, which names all those fields, is approved.
  pub released_fields_granted :
      (deps : Deps) (app : String) (fields : List RequiredField) (owner_id : String)
      → NoColons (map sent_field fields)
      → deps.policy ≡ some (service_client T eval clock s)
      → authorize_access deps app fields owner_id ≡ ok tt
      → (resp : PolicyDecisionResponse) × ((get_policy_decision T eval clock
            (record { application_id = app; required_fields = map sent_field fields })
            s).0
          ≡ ok resp)
        × AllGranted app (T.rows s) clock resp 0 (map sent_field fields)
        × (resp.app_requires_owner_consent ≡ true
            → HasConsent deps app owner_id resp.consent_required_fields)
  released_fields_granted deps app fields owner_id plain there h =
      elim ((proceeds_iff deps app fields owner_id).0 h) [
        | inl missing ↦ ground arith
        | inr p ↦
            let req : PdpRequest = record { app_id = app; required_fields = fields } in
            let same_client : p.client ≡ service_client T eval clock s = ground arith in
            let reached : service_client T eval clock s req ≡ ok (some p.response) =
              ap (λ (c : Client PdpRequest PdpResponse). c req) (sym same_client) ∙ p.answered in
            let (resp, answered, is) = delivered-ok _ p.response reached in
            (
              resp,
              answered,
              authorized_fields_granted T same touch L eval runs clock (sent req) s resp plain
                  answered (ap (λ (x : PdpResponse). x.app_authorized) (sym is) ∙ p.authorized)
                  (ap (λ (x : PdpResponse). x.app_access_expired) (sym is) ∙ p.current),
              λ asked. elim p.consented [
                | inl no_need ↦
                    ground (arith, ap (λ (x : PdpResponse). x.app_requires_owner_consent) is)
                | inr a ↦
                    HasConsent-approved deps app owner_id resp
                      (subst (λ (x : PdpResponse). IsApproved deps app owner_id x) is a)
              ],
            )
      ]
