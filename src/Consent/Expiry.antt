-- ===== src/Consent/Expiry.antt =====
-- Deadlines of consents: markExpiredIfStale and persistExpiryIfStale of
-- internal/ce/services/consent_service.go.
use openndx_core.Base.{
  ℕ, zero, suc, Bool, true, false, ◌&&◌, Option, none, some, ltb, ◌==◌, nat_eq, if◌then◌else◌,
  Action, pure, ◌>>=◌,
}
use openndx_core.Base.Table.{Table, DbError}
use openndx_core.Consent.Model.{ConsentRecord, ConsentStatus, pending, approved, expired, status_eq}

-- now.After(*deadline), for a deadline that is there
abbrev pub is_after : ℕ → Option ℕ → Bool
is_after now none = false
is_after now (some deadline) = ltb deadline now

unfoldable pub is_stale : ConsentRecord → ℕ → Bool
is_stale r now =
    if (r.status == pending) && is_after now r.pending_expires_at
    then true
    else (r.status == approved) && is_after now r.grant_expires_at

-- The record after the call, and whether it was changed.
unfoldable pub mark_expired_if_stale : ConsentRecord → ℕ → ConsentRecord × Bool
unfolding is_stale
mark_expired_if_stale r now =
    if is_stale r now then (record r { status = expired }, true) else (r, false)

abbrev pub expire_at : ℕ → ConsentRecord → ConsentRecord
expire_at now r = record r { status = expired; updated_at = now }

abbrev pub has_id_status : ℕ → ConsentStatus → ConsentRecord → Bool
has_id_status id status r = (r.consent_id == id) && (r.status == status)

abbrev pub has_id : ℕ → ConsentRecord → Bool
has_id id r = r.consent_id == id

module _ (T : Table ConsentRecord) where
  -- No row was changed: somebody else decided first, and the record is read again.
  abbrev after_expiry : ConsentRecord → ℕ → ℕ → Action T.State DbError ConsentRecord
  after_expiry r now zero = T.first (has_id r.consent_id)
  after_expiry r now (suc n) = pure (expire_at now r)

  -- The record is returned as the call leaves it.
  unfoldable pub persist_expiry_if_stale : ConsentRecord → ℕ → Action T.State DbError ConsentRecord
  unfolding mark_expired_if_stale
  persist_expiry_if_stale r now =
      if (mark_expired_if_stale r now).1
      then (do
        changed ← T.update (has_id_status r.consent_id r.status) (expire_at now)
        after_expiry r now changed)
      else pure r
