-- ===== src/Policy/Service/Decisions.antt =====
-- GetPolicyDecision: what an authorization promises about the requested fields.
use openndx_core.Base.{
  IsIn, subst, ap, ◌≤◌, ℕ, suc, String, ◌≡◌, ◌≢◌, inl, inr, refl, Bool, true, false, not, some,
  List, [], ◌∷◌, arith, lookup, contains, is_empty, string_eq, ok, Option-cases, Result-cases,
}
use openndx_core.Base.Table.{Table, IsLawful}
use openndx_core.Policy.Model.{
  AllowListEntry, PolicyMetadata, FieldRef, PolicyDecisionRequest, PolicyDecisionResponse,
  FieldRecord,
}
use openndx_core.Policy.Engine.{OutcomeKind, allow, deny, expired, consent_required, Eval, decide}
use openndx_core.Policy.Engine.Decisions.{RunsPolicies, Verdict, decide-Verdict}
use openndx_core.Policy.Service.Keys.{NoColons, known, own_metadata}
use openndx_core.Policy.Service.{
  Sorted, sort_field, sort_fields, metadata_map, ref_key, input_for, response_of, schema_ids,
  get_policy_decision, field_record,
}

-- The response asks for the owner's consent, to a field among others.
abbrev pub AsksConsent : PolicyDecisionResponse → PolicyMetadata → Type 0
AsksConsent resp pm =
    (resp.app_requires_owner_consent ≡ true)
    × ((g : FieldRecord) × IsIn g resp.consent_required_fields
        × (g.schema_id ≡ pm.schema_id)
        × (g.field_name ≡ pm.field_name))

-- The application's access to one field, as its metadata gives it at time `now`: a grant that is not over,
-- under a class that either needs no consent or has it asked for.
pub data IsGranted (app : String) (pm : PolicyMetadata) (now : ℕ) (resp : PolicyDecisionResponse)
    : Type 0 where
  open_access :
      (entry : AllowListEntry)
      → lookup app pm.allow_list ≡ some entry
      → now ≤ entry.expires_at
      → pm.policy_class ≡ "allowlist"
      → IsGranted app pm now resp
  with_consent :
      (entry : AllowListEntry)
      → lookup app pm.allow_list ≡ some entry
      → now ≤ entry.expires_at
      → pm.policy_class ≡ "allowlist_consent"
      → AsksConsent resp pm
      → IsGranted app pm now resp

-- Every field of a list has its metadata among the rows, and the application is granted it at the
-- time that is read for it.
abbrev pub AllGranted :
    String → List PolicyMetadata → (ℕ → ℕ) → PolicyDecisionResponse → ℕ → List FieldRef → Type 0
AllGranted app rows clock resp i [] = Unit
AllGranted app rows clock resp i (f ∷ rest) =
    ((pm : PolicyMetadata) × IsIn pm rows
      × (pm.schema_id ≡ f.schema_id)
      × (pm.field_name ≡ f.field_name)
      × IsGranted app pm (clock i) resp)
    × AllGranted app rows clock resp (suc i) rest

Verdict-IsGranted :
    (app : String) (pm : PolicyMetadata) (now : ℕ) (resp : PolicyDecisionResponse) (o : OutcomeKind)
    → Verdict (input_for app pm now) o
    → o ≢ deny
    → o ≢ expired
    → (o ≡ consent_required → AsksConsent resp pm)
    → IsGranted app pm now resp
Verdict-IsGranted app pm now resp _ (Verdict.unlisted _) not_denied _ _ = absurd (not_denied refl)
Verdict-IsGranted app pm now resp _ (Verdict.unknown _ _) not_denied _ _ = absurd (not_denied refl)
Verdict-IsGranted app pm now resp _ (Verdict.outdated _ _ _ _) _ not_expired _ =
    absurd (not_expired refl)
Verdict-IsGranted app pm now resp _ (Verdict.granted e class given in_time) _ _ _ =
    elim (Option-cases (lookup app pm.allow_list)) [
      | inl missing ↦ absurd (ground arith)
      | inr (entry, found) ↦ open_access entry found (ground arith) class
    ]
Verdict-IsGranted app pm now resp _ (Verdict.granted_with_consent e class given in_time) _ _
      consent =
    elim (Option-cases (lookup app pm.allow_list)) [
      | inl missing ↦ absurd (ground arith)
      | inr (entry, found) ↦ with_consent entry found (ground arith) class (consent refl)
    ]

is_empty-nil : (xs : List FieldRecord) → is_empty xs ≡ true → xs ≡ []
is_empty-nil [] h = refl
is_empty-nil (x ∷ xs) h = cc

not_empty-nil : (xs : List FieldRecord) → not (is_empty xs) ≡ false → xs ≡ []
not_empty-nil [] h = refl
not_empty-nil (x ∷ xs) h = cc

-- Where nothing was denied or found over, the field that was sorted in was not either, nor was any later one.
sort_field-clean :
    (o : OutcomeKind) (f : FieldRecord) (s : Sorted)
    → (sort_field o f s).unauthorized_fields ≡ []
    → (sort_field o f s).expired_fields ≡ []
    → (o ≢ deny) × (o ≢ expired) × (s.unauthorized_fields ≡ []) × (s.expired_fields ≡ [])
sort_field-clean allow f s a b = ground arith
sort_field-clean deny f s a b = ground arith
sort_field-clean expired f s a b = ground arith
sort_field-clean consent_required f s a b = ground arith

sort_field-consent :
    (o : OutcomeKind) (f : FieldRecord) (s : Sorted)
    → ((o ≡ consent_required) → IsIn f (sort_field o f s).consent_required_fields)
      × ((g : FieldRecord)
          → IsIn g s.consent_required_fields
          → IsIn g (sort_field o f s).consent_required_fields)
sort_field-consent allow f s = (λ e. cc, λ g there. there)
sort_field-consent deny f s = (λ e. cc, λ g there. there)
sort_field-consent expired f s = (λ e. cc, λ g there. there)
sort_field-consent consent_required f s = (λ e. inl refl, λ g there. inr there)

module _ (eval : Eval) (runs : RunsPolicies eval) (app : String) (all : List FieldRef)
    (rows : List PolicyMetadata) (none_has : NoColons all) (clock : ℕ → ℕ)
    (resp : PolicyDecisionResponse) where
  abbrev Asked : List FieldRecord → Type 0
  Asked gs =
      (g : FieldRecord)
      → IsIn g gs
      → (resp.app_requires_owner_consent ≡ true) × IsIn g resp.consent_required_fields

  sorted_granted :
      (i : ℕ) (fields : List FieldRef) (s : Sorted)
      → NoColons fields
      → sort_fields eval app (metadata_map (known all rows) []) clock i fields ≡ ok s
      → s.unauthorized_fields ≡ []
      → s.expired_fields ≡ []
      → Asked s.consent_required_fields
      → AllGranted app rows clock resp i fields
  unfolding sort_fields
  sorted_granted i [] s plain h clean fresh consent = tt
  sorted_granted i (f ∷ rest) s (no_colon, plain) h clean fresh consent =
      let m = metadata_map (known all rows) [] in
      elim (Option-cases (lookup (ref_key f) m)) [
        | inl missing ↦ absurd (ground arith)
        | inr (pm, found) ↦ elim (Result-cases (sort_fields eval app m clock (suc i) rest)) [
          | inr (e, bad) ↦ absurd (ground arith)
          | inl (s', later) ↦
              let o = (decide eval (input_for app pm (clock i))).0.outcome in
              let is : s ≡ sort_field o (field_record pm) s' = ground arith in
              let kept =
                sort_field-clean o (field_record pm) s' (rw is at clean) (rw is at fresh) in
              let asks = sort_field-consent o (field_record pm) s' in
              let consent' : Asked (sort_field o (field_record pm) s').consent_required_fields =
                subst (λ (x : Sorted). Asked x.consent_required_fields) is consent in
              let (stored, same_schema, same_name) =
                own_metadata all rows f pm none_has no_colon found in
              (
                (
                  pm,
                  stored,
                  same_schema,
                  same_name,
                  Verdict-IsGranted app pm (clock i) resp o
                      (decide-Verdict eval runs (input_for app pm (clock i))).0 kept.0 kept.1
                      (λ e.
                        let (asked, there) = consent' (field_record pm) (asks.0 e) in
                        (asked, (field_record pm, there, refl, refl))),
                ),
                sorted_granted (suc i) rest s' plain later kept.2 kept.3
                    (λ g there. consent' g (asks.1 g there)),
              )
        ]
      ]

asked_of : (g : FieldRecord) (gs : List FieldRecord) → IsIn g gs → not (is_empty gs) ≡ true
asked_of g [] there = absurd there
asked_of g (x ∷ gs) there = refl

module _ (T : Table PolicyMetadata) (same : PolicyMetadata → PolicyMetadata → Bool)
    (touch : ℕ → PolicyMetadata → PolicyMetadata) (L : IsLawful T same touch) (eval : Eval)
    (runs : RunsPolicies eval) (clock : ℕ → ℕ) (req : PolicyDecisionRequest) (s : T.State) where
  -- With OPA running the embedded policies, and no colon in the schema IDs of the request: where the
  -- decision authorizes the application and calls no access expired, every required field has a row
  -- of metadata with its schema ID and its name, in which the application has a grant that is not
  -- over at the time read for the field, under a class that needs no consent or with the field
  -- among those that the decision asks consent for.
  pub authorized_fields_granted :
      (resp : PolicyDecisionResponse)
      → NoColons req.required_fields
      → (get_policy_decision T eval clock req s).0 ≡ ok resp
      → resp.app_authorized ≡ true
      → resp.app_access_expired ≡ false
      → AllGranted req.application_id (T.rows s) clock resp 0 req.required_fields
  unfolding get_policy_decision
  authorized_fields_granted resp plain h authorized fresh =
      let m = metadata_map (known req.required_fields (T.rows s)) [] in
      elim (Result-cases (sort_fields eval req.application_id m clock 0 req.required_fields)) [
        | inr (e, bad) ↦ absurd (
            ground (
              arith,
              L.find_all_law (λ pm. contains (schema_ids req.required_fields) pm.schema_id) s,
            ))
        | inl (sorted, good) ↦
            let is : resp ≡ response_of sorted = ground (
              arith,
              L.find_all_law (λ pm. contains (schema_ids req.required_fields) pm.schema_id) s,
            ) in
            sorted_granted eval runs req.application_id req.required_fields (T.rows s) plain clock
              resp 0 req.required_fields sorted plain good
              (is_empty-nil _
                (ground (arith, ap (λ (x : PolicyDecisionResponse). x.app_authorized) is)))
              (not_empty-nil _
                (ground (arith, ap (λ (x : PolicyDecisionResponse). x.app_access_expired) is)))
              (λ g there. rw is (asked_of g sorted.consent_required_fields there, there))
      ]
