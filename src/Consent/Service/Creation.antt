-- ===== src/Consent/Service/Creation.antt =====
-- CreateConsentRecord: when a consent is reused.
use openndx_core.Base.{
  refl, ℕ, String, ◌≡◌, ◌⊎◌, inl, inr, true, false, ◌==◌, nat_eq, string_eq, none, some, List, [],
  ◌∷◌, arith, ok, err, Bool-cases, length, contains,
}
use openndx_core.Base.Table.{Table}
use openndx_core.Consent.Model.{
  pending, status_eq, ConsentRecord, UuidText, to_internal_view, CreateConsentRequest, is_active,
  sentinel_eq, create_failed, get_failed, other, ConsentField,
}
use openndx_core.Consent.Expiry.{is_stale}
use openndx_core.Consent.Requests.{
  are_consent_fields_equal, same_fields, validate_create_consent_request,
}
use openndx_core.Consent.Service.{
  has_owner_app, get_consent_internal_view, Moments, create_consent_record, create_after_lookup,
}
use openndx_core.Consent.Service.Loading.{IsConsentTable}
use openndx_core.Consent.Service.Lookup.{latest_of}

-- Slices with the same fields have the same length.
pub same_fields-length : (a b : List ConsentField) → same_fields a b ≡ true → length a ≡ length b
unfolding same_fields
same_fields-length [] [] h = omega arith
same_fields-length [] (y ∷ b) h = ground arith
same_fields-length (x ∷ a) [] h = ground arith
same_fields-length (x ∷ a) (y ∷ b) h = ground (arith, same_fields-length a b)

module _ (T : Table ConsentRecord) (L : IsConsentTable T) (U : UuidText) (base_url : String)
    (req : CreateConsentRequest) (times : Moments) (id : ℕ) (s : T.State) where
  pub lookup_fresh :
      (r : ConsentRecord)
      → latest_of req.consent_requirement.owner_id req.app_id (T.rows s) ≡ some r
      → is_stale r times.at_lookup ≡ false
      → let x =
          get_consent_internal_view T U none
            (some req.consent_requirement.owner_id)
            (some req.app_id)
            times.at_lookup
            s in
        (T.rows x.1 ≡ T.rows s)
        × ((x.0 ≡ ok (to_internal_view U r)) ⊎ (x.0 ≡ err (get_failed ∷ other ∷ [])))
  unfolding get_consent_internal_view
  lookup_fresh r found fresh = ground (
    arith,
    L.latest_law (has_owner_app req.consent_requirement.owner_id req.app_id) (λ r. r.created_at) s,
  )

  pub reuse_after_lookup :
      (r : ConsentRecord) (s' : T.State)
      → is_active r.status ≡ true
      → are_consent_fields_equal (some r.fields) (some req.consent_requirement.fields) ≡ true
      → create_after_lookup T U base_url req times id (ok (to_internal_view U r)) s'
        ≡ (ok (to_internal_view U r), s')
  unfolding create_after_lookup to_internal_view
  reuse_after_lookup r s' active same = elim (Bool-cases (r.status == pending)) [
    | inl waiting ↦ ground arith
    | inr decided ↦ ground arith
  ]

  pub failed_lookup :
      (s' : T.State)
      → create_after_lookup T U base_url req times id (err (get_failed ∷ other ∷ [])) s'
        ≡ (err (create_failed ∷ get_failed ∷ other ∷ []), s')
  unfolding create_after_lookup contains sentinel_eq
  failed_lookup s' = refl

  -- A valid request for the same fields as the latest consent of the owner and the application, when
  -- that one is pending or approved and within its deadline, returns that consent and changes
  -- no row; only a database failure keeps it from being returned.
  pub same_fields_reused :
      (r : ConsentRecord)
      → validate_create_consent_request req ≡ true
      → latest_of req.consent_requirement.owner_id req.app_id (T.rows s) ≡ some r
      → is_stale r times.at_lookup ≡ false
      → is_active r.status ≡ true
      → same_fields r.fields req.consent_requirement.fields ≡ true
      → let x = create_consent_record T U base_url req times id s in
        (T.rows x.1 ≡ T.rows s)
        × ((x.0 ≡ ok (to_internal_view U r))
            ⊎ (x.0 ≡ err (create_failed ∷ get_failed ∷ other ∷ [])))
  unfolding create_consent_record
  same_fields_reused r valid found fresh active same =
      let s' =
        (get_consent_internal_view T U none (some req.consent_requirement.owner_id)
          (some req.app_id) times.at_lookup s).1 in
      let equal : are_consent_fields_equal (some r.fields) (some req.consent_requirement.fields)
          ≡ true =
        unfold are_consent_fields_equal in
        ground (arith, same_fields-length r.fields req.consent_requirement.fields same) in
      let looked = lookup_fresh r found fresh in
      rw valid (elim looked.1 [
        | inl good ↦ rw good (rw (reuse_after_lookup r s' active equal) (looked.0, inl refl))
        | inr bad ↦ rw bad (rw (failed_lookup s') (looked.0, inr refl))
      ])
