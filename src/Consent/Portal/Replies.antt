-- ===== src/Consent/Portal/Replies.antt =====
-- What the portal's replies say is so in the table.
use openndx_core.Base.{
  ℕ, String, ◌≡◌, sym, ◌∙◌, inl, inr, Option, none, some, arith, find, nat_eq, string_eq,
  if◌then◌else◌, ok, Result-cases, Option-cases, Bool-cases,
}
use openndx_core.Base.Table.{Table}
use openndx_core.Consent.Model.{ConsentStatus, ConsentRecord, UuidText, PortalView, to_portal_view}
use openndx_core.Consent.Expiry.{has_id, is_stale, expire_at}
use openndx_core.Consent.Service.{get_consent_portal_view, update_consent_status_by_portal_action}
use openndx_core.Consent.Service.Loading.{IsConsentTable, persist_fresh, persist_stale, id_of}
use openndx_core.Consent.Service.Decisions.{success_writes, status_after}
use openndx_core.Consent.Portal.{
  PortalRequest, admitted, new_status, requested, update_request, get_consent, update_consent,
}

requested_status :
    (body : Option String) (action : String) (status : ConsentStatus)
    → requested body ≡ ok (action, status)
    → status ≡ status_after action
unfolding requested new_status
requested_status none action status h = ground arith
requested_status (some a) action status h = ground arith

admitted_subject :
    (U : UuidText) (method : String) (r : PortalRequest) (owner : String)
    → admitted U method r ≡ ok owner
    → r.subject ≡ some owner
unfolding admitted
admitted_subject U method r owner h = ground arith

module _ (T : Table ConsentRecord) (L : IsConsentTable T) (U : UuidText) (r : PortalRequest)
    (now : ℕ) (s : T.State) where
  updated :
      (status : ConsentStatus)
      → (update_consent T U r now s).0 ≡ ok status
      → (owner action : String) × (r.subject ≡ some owner)
        × (status ≡ status_after action)
        × ((update_consent_status_by_portal_action T U (update_request r owner action) now s).0
            ≡ ok tt)
        × ((update_consent T U r now s).1
            ≡ (update_consent_status_by_portal_action T U (update_request r owner action) now s).1)
  unfolding update_consent
  updated status h = elim (Result-cases (admitted U "PUT" r)) [
    | inr (e, bad) ↦ ground arith
    | inl (owner, good) ↦ elim (Result-cases (requested r.action)) [
      | inr (e, bad) ↦ ground arith
      | inl ((action, st), asked) ↦
          elim (Result-cases
            (update_consent_status_by_portal_action T U (update_request r owner action) now s).0) [
              | inr (e, bad) ↦ ground arith
              | inl (_, done) ↦
                  let same : st ≡ status = ground arith in
                  (
                    owner,
                    action,
                    admitted_subject U "PUT" r owner good,
                    sym same ∙ requested_status r.action action st asked,
                    done,
                    ground arith,
                  )
            ]
    ]
  ]

  -- Where an update is answered with a status, the consent that the request names was there and is
  -- the authenticated subject's, and the table has it in that status.
  pub status_written :
      (status : ConsentStatus)
      → (update_consent T U r now s).0 ≡ ok status
      → (owner : String) × (id : ℕ) × (before after : ConsentRecord) × (r.subject ≡ some owner)
        × (U.parse r.consent_id ≡ some id)
        × (find (has_id id) (T.rows s) ≡ some before)
        × (before.owner_id ≡ owner)
        × (find (has_id id) (T.rows (update_consent T U r now s).1) ≡ some after)
        × (after.owner_id ≡ owner)
        × (after.status ≡ status)
  status_written status h =
      let (owner, action, subject, is, done, state) = updated status h in
      let (id, x, x', parsed, found, owned, _, _, found', d, _) =
        success_writes T L U (update_request r owner action) now s done in
      (
        owner,
        id,
        x,
        x',
        subject,
        parsed,
        found,
        owned,
        rw state found',
        d.same_owner ∙ owned,
        d.status ∙ sym is,
      )

  -- The consent that the service shows a portal user.
  abbrev Shown : String → PortalView → Type 0
  Shown owner view =
      (id : ℕ) × (x : ConsentRecord) × (U.parse r.consent_id ≡ some id)
      × (find (has_id id) (T.rows s) ≡ some x)
      × (x.owner_id ≡ owner)
      × (view ≡ to_portal_view U (if is_stale x now then expire_at now x else x))

  Shown-loaded :
      (owner : String) (view : PortalView) (id : ℕ) (x : ConsentRecord)
      → U.parse r.consent_id ≡ some id
      → find (has_id id) (T.rows s) ≡ some x
      → (get_consent_portal_view T U r.consent_id owner now s).0 ≡ ok view
      → Shown owner view
  unfolding get_consent_portal_view
  Shown-loaded owner view id x parsed found h = elim (Bool-cases (is_stale x now)) [
    | inr fresh ↦ (
      id,
      x,
      parsed,
      found,
      ground (arith, L.first_law (has_id id) s),
      rw fresh (
          ground (
            arith,
            L.first_law (has_id id) s,
            persist_fresh T L x now (T.first (has_id id) s).1 fresh,
          )),
    )
    | inl stale ↦
        let read = L.first_law (has_id id) s in
        let loaded : find (has_id x.consent_id) (T.rows (T.first (has_id id) s).1) ≡ some x =
          rw read.0 (id_of id x (T.rows s) found) in
        (
          id,
          x,
          parsed,
          found,
          ground (arith, read),
          rw stale (
              ground (arith, read, persist_stale T L x now (T.first (has_id id) s).1 loaded stale)),
        )
  ]

  shown :
      (owner : String) (view : PortalView)
      → (get_consent_portal_view T U r.consent_id owner now s).0 ≡ ok view
      → Shown owner view
  shown owner view h = elim (Option-cases (U.parse r.consent_id)) [
    | inl unread ↦ absurd (unfold get_consent_portal_view in ground arith)
    | inr (id, parsed) ↦ elim (Option-cases (find (has_id id) (T.rows s))) [
      | inl missing ↦
          absurd (unfold get_consent_portal_view in ground (arith, L.first_law (has_id id) s))
      | inr (x, found) ↦ Shown-loaded owner view id x parsed found h
    ]
  ]

  -- Where a consent is shown to a portal user, it is the one that the request names, it belongs to
  -- the authenticated subject, and it is shown as it is in the table, but expired where its
  -- deadline has passed.
  pub own_consent_shown :
      (view : PortalView)
      → (get_consent T U r now s).0 ≡ ok view
      → (owner : String) × (r.subject ≡ some owner)
        × ((id : ℕ) × (x : ConsentRecord) × (U.parse r.consent_id ≡ some id)
            × (find (has_id id) (T.rows s) ≡ some x)
            × (x.owner_id ≡ owner)
            × (view ≡ to_portal_view U (if is_stale x now then expire_at now x else x)))
  unfolding get_consent
  own_consent_shown view h = elim (Result-cases (admitted U "GET" r)) [
    | inr (e, bad) ↦ ground arith
    | inl (owner, good) ↦
        elim (Result-cases (get_consent_portal_view T U r.consent_id owner now s).0) [
          | inr (e, bad) ↦ ground arith
          | inl (v, done) ↦
              (owner, admitted_subject U "GET" r owner good, shown owner view (ground arith))
        ]
  ]
