-- ===== src/Consent/Service/LifeCycle.antt =====
-- Every portal action, whether it succeeds or fails, moves consents along their life cycle.
use openndx_core.Base.{
  Bool-cases, ==_sound, ◌∙◌, ℕ, ◌≡◌, ◌≢◌, refl, inl, inr, Bool, true, false, ◌==◌, nat_eq, some,
  List, arith, find, ok, Result-cases, String, string_eq,
}
use openndx_core.Base.Table.{Table}
use openndx_core.Base.Rows.{find-update_where, find_sound}
use openndx_core.Consent.Model.{
  ConsentStatus, pending, approved, rejected, expired, revoked, status_eq, ConsentRecord, UuidText,
  ConsentPortalActionRequest,
}
use openndx_core.Consent.Expiry.{has_id, has_id_status, expire_at, is_stale}
use openndx_core.Consent.Requests.{approve-ne-revoke, reject-ne-revoke}
use openndx_core.Consent.Service.{update_consent_status_by_portal_action, from_status}
use openndx_core.Consent.Service.Loading.{IsConsentTable, Refused}
use openndx_core.Consent.Service.Decisions.{HasUniqueIds, IsDecided, success_writes, failure_keeps}

-- The life cycle: a pending consent is decided or expires, an approved one is revoked or expires,
-- and the other statuses are final.
abbrev pub may_become : ConsentStatus → ConsentStatus → Bool
may_become pending revoked = false
may_become pending _ = true
may_become approved approved = true
may_become approved expired = true
may_become approved revoked = true
may_become rejected rejected = true
may_become expired expired = true
may_become revoked revoked = true
may_become _ _ = false

-- What a portal action of `owner` may have made of the consent `r`.
pub record Follows (owner : String) (r r' : ConsentRecord) : Type 0 where
  pub same_id : r'.consent_id ≡ r.consent_id
  pub same_owner : r'.owner_id ≡ r.owner_id
  pub same_app : r'.app_id ≡ r.app_id
  pub same_fields : r'.fields ≡ r.fields
  pub allowed : may_become r.status r'.status ≡ true
  pub others : r.owner_id ≢ owner → r' ≡ r

Follows-refl : (owner : String) (r : ConsentRecord) → Follows owner r r
Follows-refl owner r = ground arith

decided-Follows :
    (action by owner : String) (now : ℕ) (r r' : ConsentRecord)
    → r.owner_id ≡ owner
    → r.status ≡ (from_status action).0
    → IsDecided action by now r r'
    → Follows owner r r'
decided-Follows action by owner now r r' owned started d =
    ground (arith, approve-ne-revoke, reject-ne-revoke)

expired-Follows :
    (owner : String) (now : ℕ) (r : ConsentRecord)
    → r.owner_id ≡ owner
    → is_stale r now ≡ true
    → Follows owner r (expire_at now r)
unfolding is_stale
expired-Follows owner now r owned stale = ground arith

module _ (T : Table ConsentRecord) (L : IsConsentTable T) (U : UuidText)
    (req : ConsentPortalActionRequest) (now : ℕ) (s : T.State) where
  abbrev after : List ConsentRecord
  after = T.rows (update_consent_status_by_portal_action T U req now s).1

  Follows-same :
      (j : ℕ) (r : ConsentRecord)
      → find (has_id j) after ≡ some r
      → (r' : ConsentRecord) × (find (has_id j) after ≡ some r') × Follows req.owner_id r r'
  Follows-same j r h = (r, h, Follows-refl req.owner_id r)

  Follows-Refused :
      (j : ℕ) (r x : ConsentRecord)
      → find (has_id j) (T.rows s) ≡ some r
      → Refused T L U req now (T.rows s) after x
      → (r' : ConsentRecord) × (find (has_id j) after ≡ some r') × Follows req.owner_id r r'
  Follows-Refused j r x found refused = elim (Bool-cases (j == x.consent_id)) [
    | inl same ↦
        let e : j ≡ x.consent_id = ==_sound j x.consent_id same in
        let r_is_x : r ≡ x = ground (arith, refused.found, rw e at found) in
        (
          expire_at now x,
          rw
              (
                refused.expiry,
                find-update_where (has_id j) (has_id_status x.consent_id x.status) (expire_at now)
                    (T.rows s) (λ y. refl),
                found,
              )
              (rw r_is_x (ground arith)),
          rw r_is_x (expired-Follows req.owner_id now x refused.owned refused.stale),
        )
    | inr other ↦ Follows-same j r (
        rw
          (
            refused.expiry,
            find-update_where (has_id j) (has_id_status x.consent_id x.status) (expire_at now)
                (T.rows s) (λ y. refl),
            found,
          )
          (ground (arith, find_sound (has_id j) (T.rows s) r found)))
  ]

  Follows-success :
      (j : ℕ) (r : ConsentRecord)
      → find (has_id j) (T.rows s) ≡ some r
      → (update_consent_status_by_portal_action T U req now s).0 ≡ ok tt
      → (r' : ConsentRecord) × (find (has_id j) after ≡ some r') × Follows req.owner_id r r'
  Follows-success j r found success =
      let (id, x, x', _, found_x, owned, started, _, found', d, others) =
        success_writes T L U req now s success in
      elim (Bool-cases (j == id)) [
        | inl same ↦
            let e : j ≡ id = ==_sound j id same in
            let r_is_x : r ≡ x = ground (arith, found_x, rw e at found) in
            (
              x',
              rw e found',
              rw r_is_x
                  (decided-Follows req.action req.updated_by req.owner_id now x x' owned started d),
            )
        | inr other ↦ Follows-same j r (others j (λ e. ground arith) ∙ found)
      ]

  -- Whether a portal action succeeds or fails, every consent is still there, with the same owner,
  -- application and fields; its status has moved along the life cycle or not at all; and a consent
  -- of another owner than the caller is untouched. The identifiers are a primary key.
  pub life_cycle :
      HasUniqueIds (T.rows s)
      → (j : ℕ) (r : ConsentRecord) → find (has_id j) (T.rows s) ≡ some r
      → (r' : ConsentRecord) × (find
            (has_id j)
            (T.rows (update_consent_status_by_portal_action T U req now s).1)
          ≡ some r')
        × Follows req.owner_id r r'
  life_cycle unique j r found =
      elim (Result-cases (update_consent_status_by_portal_action T U req now s).0) [
        | inl (_, success) ↦ Follows-success j r found success
        | inr (e, failure) ↦ elim (failure_keeps T L U req now s unique e failure) [
          | inl kept ↦ Follows-same j r (rw kept found)
          | inr (x, refused) ↦ Follows-Refused j r x found refused
        ]
      ]
