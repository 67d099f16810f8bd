-- ===== src/Consent/Service/Loading.antt =====
-- What each half of a portal action does to the rows, from the laws of the table.
use openndx_core.Base.{
  sym, ap, subst, ◌∙◌, ℕ, ◌≡◌, ◌≢◌, ◌⊎◌, inl, inr, Bool, true, false, some, List, arith, nat_eq,
  string_eq, find, count, Result, ok, err, Bool-cases, Option-cases,
}
use openndx_core.Base.Table.{Table, IsLawful, DbError, update_where}
use openndx_core.Base.Rows.{find-count, find_sound}
use openndx_core.Consent.Model.{
  status_eq, ConsentRecord, UuidText, ConsentPortalActionRequest, Error,
}
use openndx_core.Consent.Expiry.{
  has_id, has_id_status, expire_at, is_stale, persist_expiry_if_stale,
}
use openndx_core.Consent.Service.{
  prepare_portal_action, allow_portal_action, commit_portal_action, Updates, write_updates,
  updates_of, from_status, is_owned_with,
}

-- Save stamps a record with the time of the write.
abbrev pub touch_consent : ℕ → ConsentRecord → ConsentRecord
touch_consent t r = record r { updated_at = t }

abbrev pub same_consent : ConsentRecord → ConsentRecord → Bool
same_consent r = has_id r.consent_id

abbrev pub IsConsentTable : Table ConsentRecord → Type 1
IsConsentTable T = IsLawful T same_consent touch_consent

-- A query by identifier finds the row by its own identifier too.
pub id_of :
    (id : ℕ) (r : ConsentRecord) (rows : List ConsentRecord)
    → find (has_id id) rows ≡ some r
    → find (has_id r.consent_id) rows ≡ some r
id_of id r rows h = ground (arith, find_sound (has_id id) rows r h)

module _ (T : Table ConsentRecord) (L : IsConsentTable T) where
  -- The rows after a lazy expiry of `r`, if one was due.
  abbrev pub Expires : ConsentRecord → ℕ → List ConsentRecord → List ConsentRecord → Type 0
  Expires r now before after =
      (after ≡ before)
      ⊎ ((is_stale r now ≡ true)
          × (after ≡ update_where (has_id_status r.consent_id r.status) (expire_at now) before))

  pub persist_fresh :
      (r : ConsentRecord) (now : ℕ) (s : T.State)
      → is_stale r now ≡ false
      → persist_expiry_if_stale T r now s ≡ (ok r, s)
  unfolding persist_expiry_if_stale
  persist_fresh r now s h = ground arith

  pub persist_stale :
      (r : ConsentRecord) (now : ℕ) (s : T.State)
      → find (has_id r.consent_id) (T.rows s) ≡ some r
      → is_stale r now ≡ true
      → ((e : DbError) × ((persist_expiry_if_stale T r now s).0 ≡ err e)
          × (T.rows (persist_expiry_if_stale T r now s).1 ≡ T.rows s))
        ⊎ (((persist_expiry_if_stale T r now s).0 ≡ ok (expire_at now r))
            × (T.rows (persist_expiry_if_stale T r now s).1
                ≡ update_where (has_id_status r.consent_id r.status) (expire_at now) (T.rows s)))
  unfolding persist_expiry_if_stale
  persist_stale r now s loaded h = ground (
    arith,
    L.update_law (has_id_status r.consent_id r.status) (expire_at now) s,
    find-count (has_id r.consent_id) (has_id_status r.consent_id r.status) (T.rows s) r loaded,
  )

  module _ (U : UuidText) (req : ConsentPortalActionRequest) (now : ℕ) where
    -- What is known of the consent `r` and the columns `f` when the request has been allowed.
    pub record Allowed (before : List ConsentRecord) (id : ℕ) (f : Updates) (r : ConsentRecord)
        : Type 0 where
      pub found : find (has_id id) before ≡ some r
      pub owned : r.owner_id ≡ req.owner_id
      pub started : r.status ≡ (from_status req.action).0
      pub fresh : is_stale r now ≡ false
      pub written : updates_of req.action req.updated_by r now ≡ some f

    -- The consent `r` was found to be out of date, and was expired.
    pub record Refused (before after : List ConsentRecord) (r : ConsentRecord) : Type 0 where
      pub found : find (has_id r.consent_id) before ≡ some r
      pub owned : r.owner_id ≡ req.owner_id
      pub stale : is_stale r now ≡ true
      pub expiry : after ≡ update_where (has_id_status r.consent_id r.status) (expire_at now) before

    abbrev Decided :
        ℕ
        → List ConsentRecord
        → List ConsentRecord
        → ConsentRecord
        → Result Error (ℕ × Updates)
        → Type 0
    Decided id before after r (ok (i, f)) = (i ≡ id) × (after ≡ before) × Allowed before id f r
    Decided id before after r (err e) = (after ≡ before) ⊎ Refused before after r

    Decided-fresh :
        (s : T.State) (id : ℕ) (r : ConsentRecord)
        → find (has_id id) (T.rows s) ≡ some r
        → is_stale r now ≡ false
        → let x = allow_portal_action T U req now id r s in Decided id (T.rows s) (T.rows x.1) r x.0
    unfolding allow_portal_action
    Decided-fresh s id r found fresh = ground (arith, persist_fresh r now s)

    Decided-stale :
        (s : T.State) (id : ℕ) (r : ConsentRecord)
        → find (has_id r.consent_id) (T.rows s) ≡ some r
        → is_stale r now ≡ true
        → let x = allow_portal_action T U req now id r s in Decided id (T.rows s) (T.rows x.1) r x.0
    unfolding allow_portal_action
    Decided-stale s id r found stale = ground (arith, persist_stale r now s)

    decided :
        (s : T.State) (id : ℕ) (r : ConsentRecord)
        → find (has_id id) (T.rows s) ≡ some r
        → let x = allow_portal_action T U req now id r s in Decided id (T.rows s) (T.rows x.1) r x.0
    decided s id r found = elim (Bool-cases (is_stale r now)) [
      | inl stale ↦ Decided-stale s id r (id_of id r (T.rows s) found) stale
      | inr fresh ↦ Decided-fresh s id r found fresh
    ]

    -- What is known after everything before the last write.
    abbrev pub Prepared :
        List ConsentRecord → List ConsentRecord → Result Error (ℕ × Updates) → Type 0
    Prepared before after (ok (id, f)) =
        (after ≡ before)
        × (U.parse req.consent_id ≡ some id)
        × ((r : ConsentRecord) × Allowed before id f r)
    Prepared before after (err e) =
        (after ≡ before) ⊎ ((r : ConsentRecord) × Refused before after r)

    widen :
        (id : ℕ) (before before' after : List ConsentRecord) (r : ConsentRecord)
        (x : Result Error (ℕ × Updates))
        → U.parse req.consent_id ≡ some id
        → before' ≡ before
        → Decided id before' after r x
        → Prepared before after x
    widen id before before' after r (ok (i, f)) parsed same (e, kept, a) = (
      kept ∙ same,
      parsed ∙ ap some (sym e),
      (r, subst (λ k. Allowed before k f r) (sym e) (subst (λ b. Allowed b id f r) same a)),
    )
    widen id before before' after r (err e) parsed same (inl kept) = inl (kept ∙ same)
    widen id before before' after r (err e) parsed same (inr a) =
        inr (r, subst (λ b. Refused b after r) same a)

    Prepared-loaded :
        (s s' : T.State) (id : ℕ) (r : ConsentRecord)
        → U.parse req.consent_id ≡ some id
        → T.rows s' ≡ T.rows s
        → find (has_id id) (T.rows s) ≡ some r
        → let x = allow_portal_action T U req now id r s' in Prepared (T.rows s) (T.rows x.1) x.0
    Prepared-loaded s s' id r parsed same found =
        widen id _ _ _ r _ parsed same (decided s' id r (rw same found))

    pub prepared :
        (s : T.State)
        → let x = prepare_portal_action T U req now s in Prepared (T.rows s) (T.rows x.1) x.0
    unfolding prepare_portal_action
    prepared s = elim (Option-cases (U.parse req.consent_id)) [
      | inl bad ↦ ground arith
      | inr (id, parsed) ↦ elim (Option-cases (find (has_id id) (T.rows s))) [
        | inl missing ↦ ground (arith, L.first_law (has_id id) s)
        | inr (r, found) ↦ ground (
          arith,
          L.first_law (has_id id) s,
          λ (same : T.rows (T.first (has_id id) s).1 ≡ T.rows s).
              Prepared-loaded s (T.first (has_id id) s).1 id r parsed same found,
        )
      ]
    ]

    -- What the last write does, with the columns `f` to the row `id`.
    abbrev pub Committed :
        ℕ → Updates → List ConsentRecord → List ConsentRecord → Result Error (Unit {0}) → Type 0
    Committed id f before after (ok _) =
        (count (is_owned_with id req.owner_id (from_status req.action).0) before ≡ 1)
        × (after
            ≡ update_where (is_owned_with id req.owner_id (from_status req.action).0)
                (write_updates f) before)
    Committed id f before after (err e) =
        (after ≡ before)
        ⊎ ((count (is_owned_with id req.owner_id (from_status req.action).0) before ≢ 1)
            × (after
                ≡ update_where (is_owned_with id req.owner_id (from_status req.action).0)
                    (write_updates f) before))

    pub committed :
        (id : ℕ) (f : Updates) (s : T.State)
        → let x = commit_portal_action T U req (id, f) s in
          Committed id f (T.rows s) (T.rows x.1) x.0
    unfolding commit_portal_action
    committed id f s = ground (
      arith,
      L.update_law (is_owned_with id req.owner_id (from_status req.action).0) (write_updates f) s,
    )
