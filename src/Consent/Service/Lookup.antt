-- ===== src/Consent/Service/Lookup.antt =====
-- GetConsentInternalView on an owner and an application: what is reported and what is written.
use openndx_core.Base.Rows.{newest_sound, newest_max, newest-IsIn, All-map}
use openndx_core.Base.{
  IsIn, All, ◌⊎◌, ◌≤◌, ◌<◌, ◌==◌, ==_sound, ==_refl, ◌&&◌, true, false, refl, ℕ, String, ◌≡◌, ◌≢◌,
  inl, inr, nat_eq, string_eq, Option, none, some, List, arith, ok, Bool-cases, Option-cases,
}
use openndx_core.Base.Table.{Table, newest, update_where}
use openndx_core.Consent.Model.{
  approved, ConsentStatus, pending, expired, status_eq, ConsentRecord, UuidText, InternalView,
  to_internal_view,
}
use openndx_core.Consent.Expiry.{is_after, has_id, is_stale, mark_expired_if_stale}
use openndx_core.Consent.Service.{has_owner_app, get_consent_internal_view}
use openndx_core.Consent.Service.Loading.{IsConsentTable}

abbrev pub latest_of : String → String → List ConsentRecord → Option ConsentRecord
latest_of owner app = newest (has_owner_app owner app) (λ r. r.created_at)

-- The rows with the row of `r` replaced by a closed version of it.
abbrev pub closed_row :
    ConsentRecord → ConsentStatus → ℕ → Option String → List ConsentRecord → List ConsentRecord
closed_row r status at by =
    update_where (has_id r.consent_id)
      (λ _. record r { status = status; updated_at = at; updated_by = by })

-- The deadline of the consent's status has passed.
pub data IsPassed (r : ConsentRecord) (now : ℕ) : Type 0 where
  waited :
      (deadline : ℕ)
      → r.status ≡ pending
      → r.pending_expires_at ≡ some deadline
      → deadline < now
      → IsPassed r now
  granted :
      (deadline : ℕ)
      → r.status ≡ approved
      → r.grant_expires_at ≡ some deadline
      → deadline < now
      → IsPassed r now

-- A row of the owner and the application, and none of theirs is newer.
pub record IsLatest (owner app : String) (rows : List ConsentRecord) (r : ConsentRecord)
    : Type 0 where
  pub stored : IsIn r rows
  pub of_owner : r.owner_id ≡ owner
  pub of_app : r.app_id ≡ app
  pub newest_of : All (λ x. x.owner_id ≡ owner → x.app_id ≡ app → x.created_at ≤ r.created_at) rows

-- What a report says of the consent `r`.
pub record IsReport (U : UuidText) (now : ℕ) (r : ConsentRecord) (v : InternalView) : Type 0 where
  pub same_id : v.consent_id ≡ U.print r.consent_id
  pub current :
      (IsPassed r now × (v.status ≡ expired)) ⊎ (¬ (IsPassed r now) × (v.status ≡ r.status))
  pub address : v.consent_portal_url ≢ none → v.status ≡ pending
  pub open_fields : (v.status ≡ pending) ⊎ (v.status ≡ approved) → v.fields ≡ some r.fields
  pub closed_fields : v.status ≢ pending → v.status ≢ approved → v.fields ≡ none

after_deadline :
    (o : Option ℕ) (now : ℕ)
    → is_after now o ≡ true
    → (deadline : ℕ) × (o ≡ some deadline) × (deadline < now)
after_deadline none now h = absurd (ground arith)
after_deadline (some d) now h = (d, refl, ground arith)

pub stale-IsPassed : (r : ConsentRecord) (now : ℕ) → is_stale r now ≡ true → IsPassed r now
unfolding is_stale
stale-IsPassed r now h =
    elim (Bool-cases ((r.status == pending) && is_after now r.pending_expires_at)) [
      | inl late ↦
          let (d, is, before) = after_deadline r.pending_expires_at now (ground arith) in
          waited d (==_sound r.status pending (ground arith)) is before
      | inr other ↦
          let (d, is, before) = after_deadline r.grant_expires_at now (ground arith) in
          granted d (==_sound r.status approved (ground arith)) is before
    ]

pub fresh-IsPassed : (r : ConsentRecord) (now : ℕ) → is_stale r now ≡ false → ¬ (IsPassed r now)
unfolding is_stale
fresh-IsPassed r now h (waited d status is before) = ground arith
fresh-IsPassed r now h (granted d status is before) = ground arith

-- The row that the lookup finds is the latest of the owner and the application.
pub latest_of-IsLatest :
    (owner app : String) (rows : List ConsentRecord) (r : ConsentRecord)
    → latest_of owner app rows ≡ some r
    → IsLatest owner app rows r
latest_of-IsLatest owner app rows r found =
    let own = newest_sound (has_owner_app owner app) (λ x. x.created_at) rows r found in
    record {
      stored = newest-IsIn (has_owner_app owner app) (λ x. x.created_at) rows r found;
      of_owner = ==_sound r.owner_id owner (ground arith);
      of_app = ==_sound r.app_id app (ground arith);
      newest_of =
          All-map rows
            (λ x bound of_owner of_app.
              bound (rw (of_owner, of_app) (rw (==_refl owner, ==_refl app) refl)))
            (newest_max (has_owner_app owner app) (λ x. x.created_at) rows r found);
    }

view-IsReport :
    (U : UuidText) (now : ℕ) (r : ConsentRecord)
    → IsReport U now r (to_internal_view U (mark_expired_if_stale r now).0)
unfolding mark_expired_if_stale to_internal_view
view-IsReport U now r = elim (Bool-cases (is_stale r now)) [
  | inl stale ↦
      let passed = stale-IsPassed r now stale in
      rw stale (record {
        same_id = refl;
        current = inl (passed, refl);
        address = λ h. ground arith;
        open_fields = λ h. ground arith;
        closed_fields = λ h k. ground arith;
      })
  | inr fresh ↦
      let not_passed = fresh-IsPassed r now fresh in
      rw fresh (record {
        same_id = refl;
        current = inr (not_passed, refl);
        address = λ h. ground arith;
        open_fields = λ h. ground arith;
        closed_fields = λ h k. ground arith;
      })
]

module _ (T : Table ConsentRecord) (L : IsConsentTable T) (U : UuidText) (owner app : String)
    (now : ℕ) (s : T.State) where
  reported_view :
      (r : ConsentRecord) (v : InternalView)
      → latest_of owner app (T.rows s) ≡ some r
      → (get_consent_internal_view T U none (some owner) (some app) now s).0 ≡ ok v
      → v ≡ to_internal_view U (mark_expired_if_stale r now).0
  unfolding get_consent_internal_view
  reported_view r v found h =
      ground (arith, L.latest_law (has_owner_app owner app) (λ r. r.created_at) s)

  missing_fails :
      latest_of owner app (T.rows s) ≡ none
      → (v : InternalView)
      → (get_consent_internal_view T U none (some owner) (some app) now s).0 ≢ ok v
  unfolding get_consent_internal_view
  missing_fails missing v h =
      ground (arith, L.latest_law (has_owner_app owner app) (λ r. r.created_at) s)

  -- A lookup that answers reports a row of the owner and the application of which none of theirs is
  -- newer: as expired where the deadline of its status is before `now`, in its own status else. The
  -- portal's address is given only with a pending consent, the fields exactly with a pending or an
  -- approved one.
  pub reported_status :
      (v : InternalView)
      → (get_consent_internal_view T U none (some owner) (some app) now s).0 ≡ ok v
      → (r : ConsentRecord) × IsLatest owner app (T.rows s) r × IsReport U now r v
  reported_status v h = elim (Option-cases (latest_of owner app (T.rows s))) [
    | inl missing ↦ absurd (missing_fails missing v h)
    | inr (r, found) ↦ (
      r,
      latest_of-IsLatest owner app (T.rows s) r found,
      rw (reported_view r v found h) (view-IsReport U now r),
    )
  ]
