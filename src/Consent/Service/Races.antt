-- ===== src/Consent/Service/Races.antt =====
-- Two portal actions at once on one consent, and what makes an action succeed.
use openndx_core.Base.{
  Option-cases, Bool-cases, inl, inr, ℕ, ◌≡◌, ◌≢◌, Bool, true, false, nat_eq, string_eq, some,
  arith, find, count, ok, err, if◌then◌else◌, String,
}
use openndx_core.Base.Table.{Table, DbError}
use openndx_core.Base.Rows.{count-update_where}
use openndx_core.Consent.Model.{
  ConsentStatus, status_eq, ConsentRecord, UuidText, ConsentPortalActionRequest,
}
use openndx_core.Consent.Expiry.{has_id, is_stale, persist_expiry_if_stale}
use openndx_core.Consent.Requests.{
  approve-ne-revoke, reject-ne-revoke, is_valid_consent_portal_action,
}
use openndx_core.Consent.Service.{
  allow_portal_action, prepare_portal_action, commit_portal_action, Updates, write_updates,
  updates_of, from_status, is_owned_with, update_consent_status_by_portal_action,
}
use openndx_core.Consent.Service.Decisions.{HasUniqueIds, counted_once}
use openndx_core.Consent.Service.Loading.{IsConsentTable, Prepared, prepared, Committed, committed}

-- An action never writes the status that it starts from.
leaves_start :
    (action by : String) (r : ConsentRecord) (now : ℕ) (f : Updates)
    → updates_of action by r now ≡ some f
    → f.status ≢ (from_status action).0
unfolding updates_of
leaves_start action by r now f h e = ground (arith, approve-ne-revoke, reject-ne-revoke)

-- A row that the first write may have changed is not one that the second looks for.
not_for_second :
    (id : ℕ) (owner other_owner : String) (from from' : ConsentStatus) (f : Updates)
    (x : ConsentRecord)
    → owner ≡ other_owner
    → from ≡ from'
    → f.status ≢ from
    → is_owned_with id other_owner from'
        (if is_owned_with id owner from x then write_updates f x else x)
      ≡ false
not_for_second id owner other_owner from from' f x same_owner same_from moved =
    elim (Bool-cases (is_owned_with id owner from x)) [
      | inl hit ↦ rw hit (ground arith)
      | inr miss ↦ rw miss (rw (← same_owner, ← same_from) miss)
    ]

module _ (T : Table ConsentRecord) (L : IsConsentTable T) (U : UuidText)
    (a b : ConsentPortalActionRequest) (now_a now_b id : ℕ) (fa fb : Updates) (s : T.State) where
  -- Two requests about one consent are both read and allowed before either writes. If the first
  -- write succeeds, the second does not.
  pub one_wins :
      (prepare_portal_action T U a now_a s).0 ≡ ok (id, fa)
      → (prepare_portal_action T U b now_b (prepare_portal_action T U a now_a s).1).0 ≡ ok (id, fb)
      → (commit_portal_action T U a
          (id, fa)
          (prepare_portal_action T U b now_b (prepare_portal_action T U a now_a s).1).1).0
        ≡ ok tt
      → (commit_portal_action T U b
          (id, fb)
          (commit_portal_action T U a
            (id, fa)
            (prepare_portal_action T U b now_b (prepare_portal_action T U a now_a s).1).1).1).0
        ≢ ok tt
  one_wins ready_a ready_b first second =
      let s1 = (prepare_portal_action T U a now_a s).1 in
      let s2 = (prepare_portal_action T U b now_b s1).1 in
      let s3 = (commit_portal_action T U a (id, fa) s2).1 in
      let pa : Prepared T L U a now_a (T.rows s) (T.rows s1) (ok (id, fa)) =
        rw ready_a at (prepared T L U a now_a s) in
      let pb : Prepared T L U b now_b (T.rows s1) (T.rows s2) (ok (id, fb)) =
        rw ready_b at (prepared T L U b now_b s1) in
      let ca : Committed T L U a now_a id fa (T.rows s2) (T.rows s3) (ok tt) =
        rw first at (committed T L U a now_a id fa s2) in
      let cb : Committed T L U b now_b id fb (T.rows s3)
          (T.rows (commit_portal_action T U b (id, fb) s3).1) (ok tt) =
        rw second at (committed T L U b now_b id fb s3) in
      let same : pa.2.0 ≡ pb.2.0 = cc (pa.0, pa.2.1.found, pb.2.1.found) in
      let gone : count (is_owned_with id b.owner_id (from_status b.action).0) (T.rows s3) ≡ 0 =
        rw ca.1 (
          count-update_where _ _ (write_updates fa) (T.rows s2) (λ x.
            not_for_second id a.owner_id b.owner_id _ _ fa x (cc (same, pa.2.1.owned, pb.2.1.owned))
              (cc (same, pa.2.1.started, pb.2.1.started))
              (leaves_start a.action a.updated_by pa.2.0 now_a fa pa.2.1.written))) in
      omega (arith, gone, cb.0)

valid_updates :
    (action by : String) (r : ConsentRecord) (now : ℕ)
    → is_valid_consent_portal_action action ≡ true
    → (f : Updates) × (updates_of action by r now ≡ some f)
unfolding updates_of is_valid_consent_portal_action
valid_updates action by r now valid = elim (Option-cases (updates_of action by r now)) [
  | inl bad ↦ ground arith
  | inr found ↦ found
]

-- A database whose reads and conditional writes do not fail.
pub record IsReliable (T : Table ConsentRecord) : Type 0 where
  pub reads : (p : ConsentRecord → Bool) (s : T.State) → (T.first p s).0 ≢ err DbError.failed
  pub writes :
      (p : ConsentRecord → Bool) (f : ConsentRecord → ConsentRecord) (s : T.State) (e : DbError)
      → (T.update p f s).0 ≢ err e

module _ (T : Table ConsentRecord) (L : IsConsentTable T) (reliable : IsReliable T)
    (U : UuidText) where
  commit_ready :
      (req : ConsentPortalActionRequest) (id : ℕ) (f : Updates) (s : T.State)
      → count (is_owned_with id req.owner_id (from_status req.action).0) (T.rows s) ≡ 1
      → (commit_portal_action T U req (id, f) s).0 ≡ ok tt
  unfolding commit_portal_action
  commit_ready req id f s once =
      let p = is_owned_with id req.owner_id (from_status req.action).0 in
      elim (L.update_law p (write_updates f) s) [
        | inl (e, bad, _) ↦ absurd (reliable.writes p (write_updates f) s e bad)
        | inr (good, _) ↦ ground arith
      ]

  prepare_ready :
      (req : ConsentPortalActionRequest) (now id : ℕ) (r : ConsentRecord) (f : Updates)
      (s : T.State)
      → U.parse req.consent_id ≡ some id
      → find (has_id id) (T.rows s) ≡ some r
      → r.owner_id ≡ req.owner_id
      → r.status ≡ (from_status req.action).0
      → is_stale r now ≡ false
      → is_valid_consent_portal_action req.action ≡ true
      → updates_of req.action req.updated_by r now ≡ some f
      → (prepare_portal_action T U req now s).0 ≡ ok (id, f)
  unfolding prepare_portal_action allow_portal_action persist_expiry_if_stale
  prepare_ready req now id r f s parsed found owned started fresh valid written =
      ground (arith, L.first_law (has_id id) s, reliable.reads (has_id id) s)

  -- With a database that does not fail, a valid action succeeds on a consent of the caller's that
  -- is within its deadline and in the status that the action starts from.
  pub allowed_succeeds :
      (req : ConsentPortalActionRequest) (now id : ℕ) (r : ConsentRecord) (s : T.State)
      → HasUniqueIds (T.rows s)
      → is_valid_consent_portal_action req.action ≡ true
      → U.parse req.consent_id ≡ some id
      → find (has_id id) (T.rows s) ≡ some r
      → r.owner_id ≡ req.owner_id
      → r.status ≡ (from_status req.action).0
      → is_stale r now ≡ false
      → (update_consent_status_by_portal_action T U req now s).0 ≡ ok tt
  unfolding update_consent_status_by_portal_action
  allowed_succeeds req now id r s unique valid parsed found owned started fresh =
      let (f, written) = valid_updates req.action req.updated_by r now valid in
      let ready = prepare_ready req now id r f s parsed found owned started fresh valid written in
      let s1 = (prepare_portal_action T U req now s).1 in
      let p : Prepared T L U req now (T.rows s) (T.rows s1) (ok (id, f)) =
        rw ready at (prepared T L U req now s) in
      let once : count (is_owned_with id req.owner_id (from_status req.action).0) (T.rows s1) ≡ 1 =
        rw (p.0) (counted_once T L U req now id f p.2.0 (T.rows s) unique p.2.1) in
      rw ready (commit_ready req id f s1 once)
