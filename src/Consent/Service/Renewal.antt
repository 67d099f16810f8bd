-- ===== src/Consent/Service/Renewal.antt =====
-- CreateConsentRecord: when a consent is reused, replaced, renewed or made for the first time.
use openndx_core.Base.{
  ◌≤◌, ==_refl, All, sym, ap, subst, ◌∙◌, refl, ℕ, String, ◌≡◌, ◌≢◌, inl, inr, true, false, ◌||◌,
  ◌==◌, nat_eq, string_eq, none, some, [], ◌∷◌, ◌++◌, arith, find, count, Result, ok, err,
  Bool-cases, Option-cases, contains,
}
use openndx_core.Base.Table.{Table, update_where}
use openndx_core.Base.Rows.{All-map, newest-none, newest-All}
use openndx_core.Consent.Model.{
  expired, pending, approved, status_eq, ConsentRecord, UuidText, InternalView, to_internal_view,
  CreateConsentRequest, Error, sentinel_eq, get_failed, other, consent_not_found,
}
use openndx_core.Consent.Expiry.{has_id, is_stale}
use openndx_core.Consent.Requests.{
  are_consent_fields_equal, same_fields, validate_create_consent_request,
}
use openndx_core.Consent.Service.{
  has_owner_app, get_consent_internal_view, Moments, create_consent_record, create_after_lookup,
  build_consent_record, revoke_and_create_consent, create_new,
}
use openndx_core.Consent.Service.Loading.{IsConsentTable, touch_consent}
use openndx_core.Consent.Service.Lookup.{latest_of}
use openndx_core.Consent.Service.Lookup.{
  IsLatest, stale-IsPassed, fresh-IsPassed, latest_of-IsLatest,
}
use openndx_core.Consent.Service.Decisions.{HasUniqueIds}
use openndx_core.Consent.Service.Creation.{lookup_fresh, reuse_after_lookup, failed_lookup}
use openndx_core.Consent.Service.Outcome.{
  Outcome, reused, replaced, renewed, first_one, fields_equal, status-IsOpen, closed-IsOpen,
  find_own, withdrawn, new_row, replaced_rows, lookup_none, lookup_stale,
}

-- What a new consent is: the request's, and pending.
pub record IsNewConsent (req : CreateConsentRequest) (id now : ℕ) (b : ConsentRecord) : Type 0 where
  pub own_id : b.consent_id ≡ id
  pub of_owner : b.owner_id ≡ req.consent_requirement.owner_id
  pub of_app : b.app_id ≡ req.app_id
  pub waiting : b.status ≡ pending
  pub for_fields : b.fields ≡ req.consent_requirement.fields
  pub made_at : b.created_at ≡ now
  pub no_grant : b.grant_expires_at ≡ none
  pub has_deadline : (deadline : ℕ) × (b.pending_expires_at ≡ some deadline) × (now ≤ deadline)

module _ (T : Table ConsentRecord) (L : IsConsentTable T) (U : UuidText) (base_url : String)
    (req : CreateConsentRequest) (times : Moments) (id : ℕ) (s : T.State) where
  abbrev owner : String
  owner = req.consent_requirement.owner_id

  abbrev looked : Result Error InternalView × T.State
  looked = get_consent_internal_view T U none (some owner) (some req.app_id) times.at_lookup s

  abbrev Done : T.State → InternalView → Type 0
  Done s'' v =
      Outcome U owner req.app_id req.consent_requirement.fields times.at_lookup
        (build_consent_record T U base_url req id times.at_build)
        (withdrawn T L U base_url req times id) (T.rows s) (T.rows s'') v

  abbrev new_consent : ConsentRecord
  new_consent = build_consent_record T U base_url req id times.at_build

  -- Whatever an operation answers is an outcome of the creation.
  abbrev Made : Result Error InternalView × T.State → Type 0
  Made x = (v : InternalView) → x.0 ≡ ok v → Done x.1 v

  abbrev after_looked : Result Error InternalView × T.State
  after_looked = create_after_lookup T U base_url req times id looked.0 looked.1

  after_missing :
      (s' : T.State)
      → create_after_lookup T U base_url req times id (err (consent_not_found ∷ other ∷ [])) s'
        ≡ create_new T U base_url req times id s'
  unfolding create_after_lookup contains sentinel_eq
  after_missing s' = refl

  after_closed :
      (r : ConsentRecord) (s' : T.State)
      → ((r.status == pending) || (r.status == approved)) ≡ false
      → create_after_lookup T U base_url req times id (ok (to_internal_view U r)) s'
        ≡ create_new T U base_url req times id s'
  unfolding create_after_lookup to_internal_view
  after_closed r s' closed = ground arith

  after_differ :
      (r : ConsentRecord) (s' : T.State)
      → ((r.status == pending) || (r.status == approved)) ≡ true
      → are_consent_fields_equal (some r.fields) (some req.consent_requirement.fields) ≡ false
      → create_after_lookup T U base_url req times id (ok (to_internal_view U r)) s'
        ≡ revoke_and_create_consent T U base_url (U.print r.consent_id) req times id s'
  unfolding create_after_lookup to_internal_view
  after_differ r s' open_still differ = ground arith

  Made-failed : looked.0 ≡ err (get_failed ∷ other ∷ []) → Made after_looked
  Made-failed bad =
      let is =
        ap (λ o. create_after_lookup T U base_url req times id o looked.1) bad
        ∙ failed_lookup T L U base_url req times id s looked.1 in
      subst Made (sym is) (λ v h. absurd (ground arith))

  Made-first : latest_of owner req.app_id (T.rows s) ≡ none → Made after_looked
  Made-first missing =
      let none_there : All (λ x. x.owner_id ≡ owner → x.app_id ≢ req.app_id) (T.rows s) =
        All-map (T.rows s)
          (λ x skipped of_owner of_app. (ground (arith, ==_refl owner, ==_refl req.app_id)))
          (newest-none (has_owner_app owner req.app_id) (λ r. r.created_at) (T.rows s) missing) in
      let (same, found) = lookup_none T L U base_url req times id s missing in
      elim found [
        | inr bad ↦ Made-failed bad
        | inl not_there ↦
            let is =
              ap (λ o. create_after_lookup T U base_url req times id o looked.1) not_there
              ∙ after_missing looked.1 in
            subst Made (sym is) (λ v h.
              let (rows, shown) = new_row T L U base_url req times id looked.1 v h in
              first_one none_there (rows ∙ ap (λ x. x ++ new_consent ∷ []) same) shown)
      ]

  Made-stale :
      (r : ConsentRecord)
      → latest_of owner req.app_id (T.rows s) ≡ some r
      → count (has_id r.consent_id) (T.rows s) ≢ 0
      → is_stale r times.at_lookup ≡ true
      → Made after_looked
  unfolding status_eq
  Made-stale r found there stale =
      elim (lookup_stale T L U base_url req times id s r found there stale) [
        | inr bad ↦ Made-failed bad
        | inl (good, (t, expiry)) ↦
            let is =
              ap (λ o. create_after_lookup T U base_url req times id o looked.1) good
              ∙ after_closed (record r { status = expired }) looked.1 refl in
            subst Made (sym is) (λ v h.
              let (rows, shown) = new_row T L U base_url req times id looked.1 v h in
              renewed r t (latest_of-IsLatest owner req.app_id (T.rows s) r found)
                (inl (
                  stale-IsPassed r times.at_lookup stale,
                  rows ∙ ap (λ x. x ++ new_consent ∷ []) expiry,
                ))
                shown)
      ]

  -- What follows a lookup that found `r`, in time
  Made-fresh :
      (r : ConsentRecord)
      → latest_of owner req.app_id (T.rows s) ≡ some r
      → U.parse (U.print r.consent_id) ≡ some r.consent_id
      → find (has_id r.consent_id) (T.rows s) ≡ some r
      → is_stale r times.at_lookup ≡ false
      → T.rows looked.1 ≡ T.rows s
      → Made (create_after_lookup T U base_url req times id (ok (to_internal_view U r)) looked.1)
  Made-fresh r found read own fresh same =
      let latest = latest_of-IsLatest owner req.app_id (T.rows s) r found in
      let in_time = fresh-IsPassed r times.at_lookup fresh in
      let fields = req.consent_requirement.fields in
      elim (Bool-cases ((r.status == pending) || (r.status == approved))) [
        | inr closed ↦ subst Made (sym (after_closed r looked.1 closed)) (λ v h.
            let (rows, shown) = new_row T L U base_url req times id looked.1 v h in
            renewed r 0 latest
              (inr (closed-IsOpen r closed, rows ∙ ap (λ x. x ++ new_consent ∷ []) same)) shown)
        | inl open_still ↦ elim (Bool-cases (same_fields r.fields fields)) [
          | inl equal ↦
              let is =
                reuse_after_lookup T L U base_url req times id s r looked.1
                  (ground (arith, status-IsOpen r open_still))
                  (fields_equal r.fields fields ∙ equal) in
              subst Made (sym is) (λ v h.
                reused r latest in_time (status-IsOpen r open_still) equal same (ground arith))
          | inr differ ↦
              let is = after_differ r looked.1 open_still (fields_equal r.fields fields ∙ differ) in
              subst Made (sym is) (λ v h.
                let (t, rows, shown) =
                  replaced_rows T L U base_url req times id (U.print r.consent_id) r looked.1 v read
                    (rw same own) h in
                replaced r t latest in_time (status-IsOpen r open_still) differ
                  (rows
                    ∙ ap
                        (λ x.
                          update_where (has_id r.consent_id)
                            (λ _. touch_consent t (withdrawn T L U base_url req times id r)) x
                          ++ new_consent ∷ [])
                        same)
                  shown)
        ]
      ]

  Made-found :
      (r : ConsentRecord)
      → latest_of owner req.app_id (T.rows s) ≡ some r
      → HasUniqueIds (T.rows s)
      → U.parse (U.print r.consent_id) ≡ some r.consent_id
      → Made after_looked
  Made-found r found unique read =
      let latest = latest_of-IsLatest owner req.app_id (T.rows s) r found in
      let (own, there) = find_own (T.rows s) r (IsLatest.stored latest) (unique r.consent_id) in
      elim (Bool-cases (is_stale r times.at_lookup)) [
        | inl stale ↦ Made-stale r found there stale
        | inr fresh ↦
            let (same, answer) = lookup_fresh T L U base_url req times id s r found fresh in
            elim answer [
              | inr bad ↦ Made-failed bad
              | inl good ↦
                  subst (λ o. Made (create_after_lookup T U base_url req times id o looked.1))
                    (sym good) (Made-fresh r found read own fresh same)
            ]
      ]

  new_consent-IsNewConsent : IsNewConsent req id times.at_build new_consent
  unfolding build_consent_record
  new_consent-IsNewConsent = record {
    own_id = refl;
    of_owner = refl;
    of_app = refl;
    waiting = refl;
    for_fields = refl;
    made_at = refl;
    no_grant = refl;
    has_deadline = (_, refl, omega arith);
  }

  -- With identifiers that are a primary key and are read back from their text: a creation that
  -- succeeds was asked for by a valid request. It reused the latest consent of the owner and the
  -- application where that is open, in time and for the same fields, without a write; where it is
  -- for other fields, it revoked that row and added the new consent; where it is over, by its
  -- deadline or its status, or there is none, it added the new consent, and only expired the
  -- row whose deadline had passed. The answer is the view of the consent reused or added. The new
  -- consent has the request's owner, application and fields, is pending and has a deadline.
  pub creation_outcome :
      HasUniqueIds (T.rows s)
      → All (λ r. U.parse (U.print r.consent_id) ≡ some r.consent_id) (T.rows s)
      → (v : InternalView) → (create_consent_record T U base_url req times id s).0 ≡ ok v
      → (validate_create_consent_request req ≡ true)
        × IsNewConsent req id times.at_build new_consent
        × Done (create_consent_record T U base_url req times id s).1 v
  unfolding create_consent_record
  creation_outcome unique read v h = elim (Bool-cases (validate_create_consent_request req)) [
    | inr bad ↦ ground arith
    | inl valid ↦ elim (Option-cases (latest_of owner req.app_id (T.rows s))) [
      | inl missing ↦
          (valid, new_consent-IsNewConsent, rw valid (Made-first missing v (rw valid at h)))
      | inr (r, found) ↦
          let own =
            newest-All (λ r. U.parse (U.print r.consent_id) ≡ some r.consent_id)
              (has_owner_app owner req.app_id) (λ r. r.created_at) (T.rows s) r read found in
          (
            valid,
            new_consent-IsNewConsent,
            rw valid (Made-found r found unique own v (rw valid at h)),
          )
    ]
  ]
