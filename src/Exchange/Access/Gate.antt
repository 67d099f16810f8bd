-- ===== src/Exchange/Access/Gate.antt =====
-- When a query goes on, exactly; and what that means over the policy decision point.
use openndx_core.Base.{
  String, ◌≡◌, ◌≢◌, ◌⊎◌, ◌↔◌, inl, inr, refl, true, false, Option, none, some, List, [], ◌∷◌,
  is_empty, arith, string_eq, Result, ok, err, Option-cases, Bool-cases, Result-cases,
}
use openndx_core.Exchange.Access.{
  RequiredField, PdpRequest, PdpResponse, ConsentRequiredField, ConsentView, CreateConsentRequest,
  Client, Deps, check_policy, check_consent, authorize_access, policy_answer, consent_answer,
  consent_request,
}

-- The consent engine has answered that the owner approves the fields that need it.
pub record IsApproved (deps : Deps) (app owner_id : String) (r : PdpResponse) : Type 0 where
  pub client : Client CreateConsentRequest ConsentView
  pub view : ConsentView
  pub there : deps.consent ≡ some client
  pub answered : client (consent_request app owner_id r) ≡ ok (some view)
  pub approved : view.status ≡ "approved"
  pub named : r.consent_required_fields ≢ []

-- The policy decision point has answered that the application may read all the fields.
pub record IsPermitted (deps : Deps) (app : String) (fields : List RequiredField)
    (owner_id : String) : Type 0 where
  pub client : Client PdpRequest PdpResponse
  pub response : PdpResponse
  pub there : deps.policy ≡ some client
  pub answered : client (record { app_id = app; required_fields = fields }) ≡ ok (some response)
  pub authorized : response.app_authorized ≡ true
  pub current : response.app_access_expired ≡ false
  pub consented :
      (response.app_requires_owner_consent ≡ false) ⊎ IsApproved deps app owner_id response

module _ (deps : Deps) (app : String) (fields : List RequiredField) (owner_id : String) where
  approved_view : (v : ConsentView) → consent_answer (ok (some v)) ≡ ok tt → v.status ≡ "approved"
  approved_view v h = ground arith

  view_approved : (v : ConsentView) → v.status ≡ "approved" → consent_answer (ok (some v)) ≡ ok tt
  view_approved v h = ground arith

  answer_approved :
      (x : Result String (Option ConsentView))
      → consent_answer x ≡ ok tt
      → (v : ConsentView) × (x ≡ ok (some v)) × (v.status ≡ "approved")
  answer_approved (err e) h = ground arith
  answer_approved (ok none) h = ground arith
  answer_approved (ok (some v)) h = (v, refl, approved_view v h)

  approval :
      (r : PdpResponse) → check_consent deps app owner_id r ≡ ok tt → IsApproved deps app owner_id r
  unfolding check_consent
  approval r h = elim (Bool-cases (is_empty r.consent_required_fields)) [
    | inl nothing ↦ ground arith
    | inr something ↦ elim (Option-cases deps.consent) [
      | inl no_client ↦ ground arith
      | inr (client, there) ↦
          let (v, answered, status) =
            answer_approved (client (consent_request app owner_id r)) (ground arith) in
          record {
            client = client;
            view = v;
            there = there;
            answered = answered;
            approved = status;
            named = λ e. (ground arith);
          }
    ]
  ]

  is_empty-false : (xs : List ConsentRequiredField) → xs ≢ [] → is_empty xs ≡ false
  is_empty-false [] n = absurd (n refl)
  is_empty-false (x ∷ xs) n = refl

  approves :
      (r : PdpResponse) → IsApproved deps app owner_id r → check_consent deps app owner_id r ≡ ok tt
  unfolding check_consent
  approves r a =
      rw (is_empty-false r.consent_required_fields a.named, a.there, a.answered)
        (view_approved a.view a.approved)

  policy_passed :
      (x : Result String (Option PdpResponse)) (r : PdpResponse)
      → policy_answer x ≡ ok r
      → (x ≡ ok (some r)) × (r.app_authorized ≡ true) × (r.app_access_expired ≡ false)
  policy_passed (err e) r h = ground arith
  policy_passed (ok none) r h = ground arith
  policy_passed (ok (some v)) r h = ground arith

  permission :
      (client : Client PdpRequest PdpResponse)
      → deps.policy ≡ some client
      → authorize_access deps app fields owner_id ≡ ok tt
      → IsPermitted deps app fields owner_id
  unfolding authorize_access check_policy check_consent
  permission client there h =
      elim (Result-cases
        (policy_answer (client (record { app_id = app; required_fields = fields })))) [
          | inr (e, bad) ↦ ground arith
          | inl (r, passed) ↦
              let p = policy_passed _ r passed in
              record {
                client = client;
                response = r;
                there = there;
                answered = p.0;
                authorized = p.1;
                current = p.2;
                consented = elim (Bool-cases r.app_requires_owner_consent) [
                  | inr no_need ↦ inl no_need
                  | inl needed ↦
                      inr (
                        approval r
                          (rw (there, authorize_access, check_policy, passed, needed) at h))
                ];
              }
        ]

  permitted :
      IsPermitted deps app fields owner_id → authorize_access deps app fields owner_id ≡ ok tt
  unfolding authorize_access check_policy check_consent
  permitted p =
      rw (p.there, authorize_access, check_policy, p.answered, p.authorized, p.current)
        (elim p.consented [
          | inl no_need ↦ rw no_need refl
          | inr a ↦ elim (Bool-cases p.response.app_requires_owner_consent) [
            | inr no_need ↦ rw no_need refl
            | inl needed ↦ rw needed (approves p.response a)
          ]
        ])

  no_policy : deps.policy ≡ none → authorize_access deps app fields owner_id ≡ ok tt
  unfolding authorize_access check_policy check_consent
  no_policy h = rw h refl

  -- A query goes on exactly where no policy client is configured, or the policy decision point
  -- answered that the application is authorized and its access not expired, and asked for no
  -- consent or the consent engine answered that the named fields are approved.
  pub proceeds_iff :
      (authorize_access deps app fields owner_id ≡ ok tt)
      ↔ ((deps.policy ≡ none) ⊎ IsPermitted deps app fields owner_id)
  proceeds_iff = (
    λ h. elim (Option-cases deps.policy) [
      | inl no_client ↦ inl no_client
      | inr (client, there) ↦ inr (permission client there h)
    ],
    λ x. elim x [ inl h ↦ no_policy h | inr p ↦ permitted p ],
  )
