-- ===== src/Consent/Service/Decisions.antt =====
-- Portal actions: what an action that succeeds has done, what a refused one may have done, and
-- that of two actions on one consent only the first succeeds.
use openndx_core.Base.{
  ◌+◌, ℕ, ◌≡◌, ◌≢◌, ◌⊎◌, inl, inr, ◌≤◌, Bool, true, false, ◌==◌, nat_eq, string_eq, none, some,
  List, [], ◌∷◌, Result-cases, arith, find, count, ok, err, if◌then◌else◌, refl, String,
}
use openndx_core.Base.Table.{Table, update_where}
use openndx_core.Base.Rows.{find-count, find_sound, find-update_where, count_mono}
use openndx_core.Consent.Model.{
  ConsentStatus, pending, approved, rejected, revoked, status_eq, ConsentRecord, UuidText,
  ConsentPortalActionRequest, Error,
}
use openndx_core.Consent.Requests.{parse_grant_duration}
use openndx_core.Consent.Expiry.{has_id, is_stale}
use openndx_core.Consent.Service.{
  prepare_portal_action, Updates, write_updates, updates_of, from_status, is_owned_with,
  update_consent_status_by_portal_action,
}
use openndx_core.Consent.Service.Loading.{
  IsConsentTable, Allowed, Refused, Prepared, prepared, committed,
}

-- The primary key: no two rows have one identifier.
abbrev pub HasUniqueIds : List ConsentRecord → Type 0
HasUniqueIds rows = (id : ℕ) → count (has_id id) rows ≤ 1

-- The status that an action of the portal asks for; no other action is allowed.
abbrev pub status_after : String → ConsentStatus
status_after action =
    if action == "approve"
    then approved
    else if action == "reject"
    then rejected
    else if action == "revoke"
    then revoked
    else pending

-- `r'` is `r` as an action decided at `now` leaves it.
pub record IsDecided (action by : String) (now : ℕ) (r r' : ConsentRecord) : Type 0 where
  pub status : r'.status ≡ status_after action
  pub stamped : r'.updated_at ≡ now
  pub signed : r'.updated_by ≡ some by
  pub deadline_cleared : r'.pending_expires_at ≡ none
  pub granted :
      action ≡ "approve" → r'.grant_expires_at ≡ some (now + parse_grant_duration r.grant_duration)
  pub grant_kept : action ≢ "approve" → r'.grant_expires_at ≡ r.grant_expires_at
  pub same_id : r'.consent_id ≡ r.consent_id
  pub same_owner : r'.owner_id ≡ r.owner_id
  pub same_app : r'.app_id ≡ r.app_id
  pub same_creation : r'.created_at ≡ r.created_at
  pub same_fields : r'.fields ≡ r.fields

updates_of-IsDecided :
    (action by : String) (now : ℕ) (r : ConsentRecord) (f : Updates)
    → updates_of action by r now ≡ some f
    → IsDecided action by now r (write_updates f r)
unfolding updates_of
updates_of-IsDecided action by now r f h = ground arith

find-has_id-other :
    (i j : ℕ) (p : ConsentRecord → Bool) (f : ConsentRecord → ConsentRecord)
    (rows : List ConsentRecord)
    → ((x : ConsentRecord) → (f x).consent_id ≡ x.consent_id)
    → ((x : ConsentRecord) → p x ≡ true → x.consent_id ≡ i)
    → j ≢ i
    → find (has_id j) (update_where p f rows) ≡ find (has_id j) rows
unfolding find update_where
find-has_id-other i j p f [] keeps only ne = refl
find-has_id-other i j p f (x ∷ rows) keeps only ne =
    ground (arith, keeps x, only x, find-has_id-other i j p f rows keeps only ne)

module _ (T : Table ConsentRecord) (L : IsConsentTable T) (U : UuidText) where
  written :
      (req : ConsentPortalActionRequest) (now : ℕ) (s : T.State)
      → (update_consent_status_by_portal_action T U req now s).0 ≡ ok tt
      → (id : ℕ) × (f : Updates) × (r : ConsentRecord) × (U.parse req.consent_id ≡ some id)
        × Allowed T L U req now (T.rows s) id f r
        × (T.rows (update_consent_status_by_portal_action T U req now s).1
            ≡ update_where
                (is_owned_with id req.owner_id (from_status req.action).0)
                (write_updates f)
                (T.rows s))
  unfolding update_consent_status_by_portal_action
  written req now s h = elim (Result-cases (prepare_portal_action T U req now s).0) [
    | inl ((id, f), e) ↦ finish id f e
    | inr (bad, e) ↦ ground arith
  ]
    where
      finish :
          (id : ℕ) (f : Updates)
          → (prepare_portal_action T U req now s).0 ≡ ok (id, f)
          → (id : ℕ) × (f : Updates) × (r : ConsentRecord) × (U.parse req.consent_id ≡ some id)
            × Allowed T L U req now (T.rows s) id f r
            × (T.rows (update_consent_status_by_portal_action T U req now s).1
                ≡ update_where
                    (is_owned_with id req.owner_id (from_status req.action).0)
                    (write_updates f)
                    (T.rows s))
      finish id f e =
          let p : Prepared T L U req now (T.rows s) (T.rows (prepare_portal_action T U req now s).1)
              (ok (id, f)) =
            rw e at (prepared T L U req now s) in
          (
            id,
            f,
            p.2.0,
            p.1,
            p.2.1,
            ground
                (arith, p.0, committed T L U req now id f (prepare_portal_action T U req now s).1),
          )

  -- An action that succeeds has found the consent that its identifier names, owned by the caller,
  -- within its deadline and in the status that the action starts from; it has written that consent
  -- as decided, and no other row.
  pub success_writes :
      (req : ConsentPortalActionRequest) (now : ℕ) (s : T.State)
      → (update_consent_status_by_portal_action T U req now s).0 ≡ ok tt
      → (id : ℕ) × (r : ConsentRecord) × (r' : ConsentRecord) × (U.parse req.consent_id ≡ some id)
        × (find (has_id id) (T.rows s) ≡ some r)
        × (r.owner_id ≡ req.owner_id)
        × (r.status ≡ (from_status req.action).0)
        × (is_stale r now ≡ false)
        × (find (has_id id) (T.rows (update_consent_status_by_portal_action T U req now s).1)
            ≡ some r')
        × IsDecided req.action req.updated_by now r r'
        × ((j : ℕ)
            → j ≢ id
            → find (has_id j) (T.rows (update_consent_status_by_portal_action T U req now s).1)
              ≡ find (has_id j) (T.rows s))
  success_writes req now s h =
      let (id, f, r, parsed, a, after) = written req now s h in
      (
        id,
        r,
        write_updates f r,
        parsed,
        a.found,
        a.owned,
        a.started,
        a.fresh,
        rw after (
            rw
              (find-update_where (has_id id)
                (is_owned_with id req.owner_id (from_status req.action).0) (write_updates f)
                (T.rows s) (λ x. refl))
              (rw a.found
                (ground (arith, a.owned, a.started, find_sound (has_id id) (T.rows s) r a.found)))),
        updates_of-IsDecided req.action req.updated_by now r f a.written,
        λ j ne. rw after (
            find-has_id-other id j _ (write_updates f) (T.rows s) (λ x. refl) (λ x p. ground arith)
              ne),
      )

  -- The row that was found is the only one that the last write may change.
  pub counted_once :
      (req : ConsentPortalActionRequest) (now id : ℕ) (f : Updates) (r : ConsentRecord)
      (rows : List ConsentRecord)
      → HasUniqueIds rows
      → Allowed T L U req now rows id f r
      → count (is_owned_with id req.owner_id (from_status req.action).0) rows ≡ 1
  counted_once req now id f r rows unique a =
      let p = is_owned_with id req.owner_id (from_status req.action).0 in
      let some_row : count p rows ≢ 0 =
        find-count (has_id id) p rows r a.found
          (ground (arith, a.owned, a.started, find_sound (has_id id) rows r a.found)) in
      let few_rows : count p rows ≤ count (has_id id) rows =
        count_mono p (has_id id) rows (λ x h. ground arith) in
      omega (arith, some_row, few_rows, unique id)

  -- A portal action that fails has written nothing, or has expired one consent of the caller's
  -- whose deadline had passed. The identifiers are a primary key.
  pub failure_keeps :
      (req : ConsentPortalActionRequest) (now : ℕ) (s : T.State)
      → HasUniqueIds (T.rows s)
      → (e : Error) → (update_consent_status_by_portal_action T U req now s).0 ≡ err e
      → (T.rows (update_consent_status_by_portal_action T U req now s).1 ≡ T.rows s)
        ⊎ ((r : ConsentRecord) × Refused T L U req now
              (T.rows s)
              (T.rows (update_consent_status_by_portal_action T U req now s).1)
              r)
  unfolding update_consent_status_by_portal_action
  failure_keeps req now s unique e h = elim (Result-cases (prepare_portal_action T U req now s).0) [
    | inl ((id, f), allowed) ↦ conflict id f allowed
    | inr (bad, refused) ↦
        let p : Prepared T L U req now (T.rows s) (T.rows (prepare_portal_action T U req now s).1)
            (err bad) =
          rw refused at (prepared T L U req now s) in
        rw refused p
  ]
    where
      conflict :
          (id : ℕ) (f : Updates)
          → (prepare_portal_action T U req now s).0 ≡ ok (id, f)
          → (T.rows (update_consent_status_by_portal_action T U req now s).1 ≡ T.rows s)
            ⊎ ((r : ConsentRecord) × Refused T L U req now
                  (T.rows s)
                  (T.rows (update_consent_status_by_portal_action T U req now s).1)
                  r)
      conflict id f allowed =
          let p : Prepared T L U req now (T.rows s) (T.rows (prepare_portal_action T U req now s).1)
              (ok (id, f)) =
            rw allowed at (prepared T L U req now s) in
          let once : count (is_owned_with id req.owner_id (from_status req.action).0)
                (T.rows (prepare_portal_action T U req now s).1)
              ≡ 1 =
            rw (p.0) (counted_once req now id f p.2.0 (T.rows s) unique p.2.1) in
          inl (
            ground (
              arith,
              p.0,
              once,
              committed T L U req now id f (prepare_portal_action T U req now s).1,
            ))
