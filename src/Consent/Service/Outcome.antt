-- ===== src/Consent/Service/Outcome.antt =====
-- CreateConsentRecord: what its lookup and its writes do to the rows.
use openndx_core.Base.{
  ==_sound, ==_refl, IsIn, All, ◌≤◌, ℕ, String, ◌≡◌, ◌≢◌, ◌⊎◌, inl, inr, true, false, ◌||◌, ◌==◌,
  nat_eq, string_eq, none, some, List, [], ◌∷◌, ◌++◌, arith, find, count, Result, ok, err,
  Bool-cases,
}
use openndx_core.Base.Table.{Table, update_where}
use openndx_core.Base.Rows.{find-count}
use openndx_core.Consent.Model.{
  expired, pending, approved, revoked, status_eq, ConsentRecord, UuidText, InternalView,
  to_internal_view, CreateConsentRequest, is_active, Error, sentinel_eq, get_failed, other,
  ConsentField, consent_not_found,
}
use openndx_core.Consent.Expiry.{has_id, is_stale}
use openndx_core.Consent.Requests.{are_consent_fields_equal, same_fields}
use openndx_core.Consent.Service.{
  has_owner_app, get_consent_internal_view, Moments, build_consent_record,
  revoke_and_create_consent, revoke_then_create, create_new, revoked_by_new_consent,
}
use openndx_core.Consent.Service.Loading.{IsConsentTable, touch_consent}
use openndx_core.Consent.Service.Lookup.{latest_of}
use openndx_core.Consent.Service.Lookup.{IsPassed, IsLatest}
use openndx_core.Consent.Service.Creation.{same_fields-length}

-- Pending or approved
abbrev pub IsOpen : ConsentRecord → Type 0
IsOpen r = (r.status ≡ pending) ⊎ (r.status ≡ approved)

-- What a creation has done that answers `v`, where `b` is the new consent: it reused the latest
-- consent of the owner and the application, or replaced it, or renewed one that is over, or
-- made the first one.
pub data Outcome (U : UuidText) (owner app : String) (fields : List ConsentField) (now : ℕ)
    (b : ConsentRecord) (withdraw : ConsentRecord → ConsentRecord)
    (before after : List ConsentRecord) (v : InternalView) : Type 0 where
  reused :
      (r : ConsentRecord)
      → IsLatest owner app before r
      → ¬ (IsPassed r now)
      → IsOpen r
      → same_fields r.fields fields ≡ true
      → after ≡ before
      → v ≡ to_internal_view U r
      → Outcome U owner app fields now b withdraw before after v
  replaced :
      (r : ConsentRecord) (t : ℕ)
      → IsLatest owner app before r
      → ¬ (IsPassed r now)
      → IsOpen r
      → same_fields r.fields fields ≡ false
      → after
        ≡ update_where (has_id r.consent_id) (λ _. touch_consent t (withdraw r)) before ++ b ∷ []
      → v ≡ to_internal_view U b
      → Outcome U owner app fields now b withdraw before after v
  renewed :
      (r : ConsentRecord) (t : ℕ)
      → IsLatest owner app before r
      → (IsPassed r now
          × (after
              ≡ update_where
                  (has_id r.consent_id)
                  (λ _. record r { status = expired; updated_at = t })
                  before
                ++ b ∷ []))
        ⊎ (¬ (IsOpen r) × (after ≡ before ++ b ∷ []))
      → v ≡ to_internal_view U b
      → Outcome U owner app fields now b withdraw before after v
  first_one :
      All (λ x. x.owner_id ≡ owner → x.app_id ≢ app) before
      → after ≡ before ++ b ∷ []
      → v ≡ to_internal_view U b
      → Outcome U owner app fields now b withdraw before after v

pub fields_equal :
    (a b : List ConsentField) → are_consent_fields_equal (some a) (some b) ≡ same_fields a b
unfolding are_consent_fields_equal
fields_equal a b = elim (Bool-cases (same_fields a b)) [
  | inl same ↦ ground (arith, same_fields-length a b same)
  | inr differ ↦ ground arith
]

pub status-IsOpen :
    (r : ConsentRecord) → ((r.status == pending) || (r.status == approved)) ≡ true → IsOpen r
status-IsOpen r h = elim (Bool-cases (r.status == pending)) [
  | inl waiting ↦ inl (==_sound r.status pending waiting)
  | inr decided ↦ inr (==_sound r.status approved (ground arith))
]

pub closed-IsOpen :
    (r : ConsentRecord) → ((r.status == pending) || (r.status == approved)) ≡ false → ¬ (IsOpen r)
closed-IsOpen r h (inl waiting) = ground arith
closed-IsOpen r h (inr granted) = ground arith

-- A row is the one that is found under its identifier, where no other row has that.
pub find_own :
    (rows : List ConsentRecord) (r : ConsentRecord)
    → IsIn r rows
    → count (has_id r.consent_id) rows ≤ 1
    → (find (has_id r.consent_id) rows ≡ some r) × (count (has_id r.consent_id) rows ≢ 0)
unfolding find count
find_own [] r there few = absurd there
find_own (x ∷ rows) r (inl same) few = rw (← same) (ground (arith, ==_refl r.consent_id))
find_own (x ∷ rows) r (inr later) few =
    ground (arith, λ (bound : count (has_id r.consent_id) rows ≤ 1). find_own rows r later bound)

module _ (T : Table ConsentRecord) (L : IsConsentTable T) (U : UuidText) (base_url : String)
    (req : CreateConsentRequest) (times : Moments) (id : ℕ) where
  -- The consent that a creation revokes, as it is saved.
  abbrev pub withdrawn : ConsentRecord → ConsentRecord
  withdrawn r = record r {
    status = revoked;
    updated_at = times.at_revoke;
    updated_by = some revoked_by_new_consent;
  }

  pub new_row :
      (s' : T.State) (v : InternalView)
      → (create_new T U base_url req times id s').0 ≡ ok v
      → (T.rows (create_new T U base_url req times id s').1
          ≡ T.rows s' ++ build_consent_record T U base_url req id times.at_build ∷ [])
        × (v ≡ to_internal_view U (build_consent_record T U base_url req id times.at_build))
  unfolding create_new
  new_row s' v h =
      ground (arith, L.create_law (build_consent_record T U base_url req id times.at_build) s')

  revoked_row :
      (existing : String) (i : ℕ) (r : ConsentRecord) (s' : T.State) (b : ConsentRecord)
      → U.parse existing ≡ some i
      → find (has_id i) (T.rows s') ≡ some r
      → (revoke_then_create T U base_url existing req times id s').0 ≡ ok b
      → (is_active r.status ≡ true)
        × (T.rows (revoke_then_create T U base_url existing req times id s').1
            ≡ update_where
                (has_id r.consent_id)
                (λ _. touch_consent (T.clock (T.first (has_id i) s').1) (withdrawn r))
                (T.rows s')
              ++ b ∷ [])
        × (b ≡ build_consent_record T U base_url req id times.at_build)
  unfolding revoke_then_create
  revoked_row existing i r s' b parsed found h =
      let s1 = (T.first (has_id i) s').1 in
      let read = L.first_law (has_id i) s' in
      let there : count (has_id r.consent_id) (T.rows s1) ≢ 0 =
        rw (read.0)
          (find-count (has_id i) (has_id r.consent_id) (T.rows s') r found (ground arith)) in
      let s2 = (T.save (withdrawn r) s1).1 in
      ground (
        arith,
        read,
        L.save_law (withdrawn r) s1 there,
        L.create_law (build_consent_record T U base_url req id times.at_build) s2,
      )

  pub replaced_rows :
      (existing : String) (r : ConsentRecord) (s' : T.State) (v : InternalView)
      → U.parse existing ≡ some r.consent_id
      → find (has_id r.consent_id) (T.rows s') ≡ some r
      → (revoke_and_create_consent T U base_url existing req times id s').0 ≡ ok v
      → (t : ℕ) × (T.rows (revoke_and_create_consent T U base_url existing req times id s').1
          ≡ update_where (has_id r.consent_id) (λ _. touch_consent t (withdrawn r)) (T.rows s')
            ++ build_consent_record T U base_url req id times.at_build ∷ [])
        × (v ≡ to_internal_view U (build_consent_record T U base_url req id times.at_build))
  unfolding revoke_and_create_consent
  replaced_rows existing r s' v parsed found h =
      elim (L.transaction_law Error ConsentRecord (λ _. other ∷ [])
        (revoke_then_create T U base_url existing req times id) s') [
          | inl (e, bad, _) ↦ ground arith
          | inr (b, good, body, rows) ↦
              let d = revoked_row existing r.consent_id r s' b parsed found body in
              (
                T.clock (T.first (has_id r.consent_id) s').1,
                ground (arith, d.1, d.2, rows, good),
                ground (arith, good, d.2, h),
              )
        ]

  module _ (s : T.State) where
    abbrev owner : String
    owner = req.consent_requirement.owner_id

    abbrev looked : Result Error InternalView × T.State
    looked = get_consent_internal_view T U none (some owner) (some req.app_id) times.at_lookup s

    pub lookup_none :
        latest_of owner req.app_id (T.rows s) ≡ none
        → (T.rows looked.1 ≡ T.rows s)
          × ((looked.0 ≡ err (consent_not_found ∷ other ∷ []))
              ⊎ (looked.0 ≡ err (get_failed ∷ other ∷ [])))
    unfolding get_consent_internal_view
    lookup_none missing =
        ground (arith, L.latest_law (has_owner_app owner req.app_id) (λ r. r.created_at) s)

    pub lookup_stale :
        (r : ConsentRecord)
        → latest_of owner req.app_id (T.rows s) ≡ some r
        → count (has_id r.consent_id) (T.rows s) ≢ 0
        → is_stale r times.at_lookup ≡ true
        → ((looked.0 ≡ ok (to_internal_view U (record r { status = expired })))
            × ((t : ℕ) × (T.rows looked.1
                  ≡ update_where
                      (has_id r.consent_id)
                      (λ _. record r { status = expired; updated_at = t })
                      (T.rows s))))
          ⊎ (looked.0 ≡ err (get_failed ∷ other ∷ []))
    unfolding get_consent_internal_view
    lookup_stale r found there stale =
        let p = has_owner_app owner req.app_id in
        let s1 = (T.latest p (λ r. r.created_at) s).1 in
        let read = L.latest_law p (λ r. r.created_at) s in
        let there' : count (has_id r.consent_id) (T.rows s1) ≢ 0 = rw (read.0) there in
        elim (L.save_law (record r { status = expired }) s1 there') [
          | inl (e, bad, _) ↦ inr (ground arith)
          | inr (saved, rows) ↦ elim read.1 [
            | inl failed ↦ inr (ground arith)
            | inr good ↦ inl (ground arith, (T.clock s1, ground (arith, read.0)))
          ]
        ]
