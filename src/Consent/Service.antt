-- ===== src/Consent/Service.antt =====
-- The operations of ConsentService: internal/ce/services/consent_service.go. The database, the
-- reading of identifiers, the clock and the fresh identifiers are arguments.
pub mod Loading
pub mod Decisions
pub mod Races
pub mod LifeCycle
pub mod Listing
pub mod Lookup
pub mod Creation
pub mod Outcome
pub mod Renewal
use openndx_core.Base.{
  ℕ, ◌+◌, String, ◌<>◌, Bool, true, false, ◌&&◌, ◌||◌, Option, none, some, List, [], ◌∷◌, map, ◌==◌,
  ◌!=◌, nat_eq, string_eq, contains, is_empty, if◌then◌else◌, Result, ok, err, Action, pure, raise,
  ◌>>=◌, ◌>>◌, on_error, from_option, check,
}
use openndx_core.Base.Table.{Table, DbError, not_found}
use openndx_core.Consent.Model.{
  ConsentStatus, pending, approved, rejected, revoked, status_eq, ConsentRecord, UuidText,
  CreateConsentRequest, ConsentPortalActionRequest, InternalView, PortalView, ListConsentsResponse,
  to_internal_view, to_portal_view, to_summary_view, Error, Sentinel, consent_not_found,
  create_failed, update_failed, get_failed, portal_request_failed, not_pending, not_revocable,
  access_denied, other, sentinel_eq,
}
use openndx_core.Consent.Expiry.{
  has_id, is_after, mark_expired_if_stale, expire_at, persist_expiry_if_stale,
}
use openndx_core.Consent.Requests.{
  parse_grant_duration, parse_pending_timeout_duration, is_valid_consent_portal_action,
  get_grant_duration_or_default, are_consent_fields_equal, validate_create_consent_request,
}

-- The readings of the clock that one creation makes.
pub record Moments : Type 0 where
  pub at_lookup : ℕ
  pub at_revoke : ℕ
  pub at_build : ℕ

abbrev pub revoked_by_new_consent : String
revoked_by_new_consent = "System: revoked due to new consent with different fields"

abbrev pub has_owner_app : String → String → ConsentRecord → Bool
has_owner_app owner app r = (r.owner_id == owner) && (r.app_id == app)

abbrev pub get_error : DbError → Error
get_error not_found = consent_not_found ∷ other ∷ []
get_error _ = get_failed ∷ other ∷ []

abbrev pub load_error : Sentinel → DbError → Error
load_error wrap not_found = consent_not_found ∷ other ∷ []
load_error wrap _ = wrap ∷ other ∷ []

abbrev pub find_error : DbError → Error
find_error not_found = consent_not_found ∷ other ∷ []
find_error _ = other ∷ []

-- NewConsentService: `parse_url` is net/url's, with the scheme and the host of what it reads.
unfoldable pub is_valid_base_url : (String → Option (String × String)) → String → Bool
is_valid_base_url parse_url base = if base == "" then false else elim (parse_url base) [
  | none ↦ false
  | some (scheme, host) ↦ (scheme != "") && (host != "")
]

-- Which consent a portal action starts from, and the error where it is in another status.
abbrev pub from_status : String → ConsentStatus × Sentinel
from_status action =
    if action == "revoke" then (approved, not_revocable) else (pending, not_pending)

-- The columns that a portal action writes besides pending_expires_at, which it always clears;
-- `grant_expires_at` is none where the column is left alone.
pub record Updates : Type 0 where
  pub status : ConsentStatus
  pub updated_at : ℕ
  pub updated_by : String
  pub grant_expires_at : Option ℕ

abbrev pub write_updates : Updates → ConsentRecord → ConsentRecord
write_updates u r = record r {
  status = u.status;
  updated_at = u.updated_at;
  pending_expires_at = none;
  grant_expires_at = elim u.grant_expires_at [ none ↦ r.grant_expires_at | some t ↦ some t ];
  updated_by = some u.updated_by;
}

-- The `updates` map and its switch; `loaded` is the record that was read.
unfoldable pub updates_of : String → String → ConsentRecord → ℕ → Option Updates
updates_of action updated_by loaded now =
    if action == "approve"
    then some (record {
      status = approved;
      updated_at = now;
      updated_by = updated_by;
      grant_expires_at = some (now + parse_grant_duration loaded.grant_duration);
    })
    else if action == "reject"
    then some (record {
      status = rejected;
      updated_at = now;
      updated_by = updated_by;
      grant_expires_at = none;
    })
    else if action == "revoke"
    then some (record {
      status = revoked;
      updated_at = now;
      updated_by = updated_by;
      grant_expires_at = none;
    })
    else none

abbrev pub is_owned_with : ℕ → String → ConsentStatus → ConsentRecord → Bool
is_owned_with id owner status r =
    (r.consent_id == id) && (r.owner_id == owner) && (r.status == status)

-- The statuses pending and approved have their own deadlines, so there are two statements.
abbrev pub waits_too_long : String → ℕ → ConsentRecord → Bool
waits_too_long owner now r =
    (r.owner_id == owner) && (r.status == pending) && is_after now r.pending_expires_at

abbrev pub granted_too_long : String → ℕ → ConsentRecord → Bool
granted_too_long owner now r =
    (r.owner_id == owner) && (r.status == approved) && is_after now r.grant_expires_at

abbrev pub is_listed : String → List ConsentStatus → ConsentRecord → Bool
is_listed owner statuses r =
    (r.owner_id == owner) && (if is_empty statuses then true else contains statuses r.status)

module _ (T : Table ConsentRecord) (U : UuidText) where
  abbrev pub Method : Type 0 → Type 0
  Method A = Action T.State Error A

  unfoldable pub consent_query :
      Option String → Option String → Option String → Method (ConsentRecord → Bool)
  consent_query (some id) _ _ = do
    parsed ← from_option (get_failed ∷ []) (U.parse id)
    pure (has_id parsed)
  consent_query none (some owner) (some app) = pure (has_owner_app owner app)
  consent_query none _ _ = raise (get_failed ∷ [])

  -- Written only where the deadline has passed.
  unfoldable pub save_if : Bool → ConsentRecord → Method (Unit {0})
  save_if true r = on_error (λ _. get_failed ∷ other ∷ []) (T.save r)
  save_if false r = pure tt

  unfoldable pub get_consent_internal_view :
      Option String → Option String → Option String → ℕ → Method InternalView
  unfolding consent_query save_if mark_expired_if_stale
  get_consent_internal_view id owner app now = do
    query ← consent_query id owner app
    r ← on_error get_error (T.latest query (λ r. r.created_at))
    save_if (mark_expired_if_stale r now).1 (mark_expired_if_stale r now).0
    pure (to_internal_view U (mark_expired_if_stale r now).0)

  unfoldable pub get_consent_portal_view : String → String → ℕ → Method PortalView
  get_consent_portal_view id owner now = do
    parsed ← from_option (get_failed ∷ []) (U.parse id)
    r ← on_error (load_error get_failed) (T.first (has_id parsed))
    check (r.owner_id == owner) (access_denied ∷ [])
    shown ← on_error (λ _. get_failed ∷ other ∷ []) (persist_expiry_if_stale T r now)
    pure (to_portal_view U shown)

  unfoldable pub expire_both : String → ℕ → Method (Unit {0})
  expire_both owner now = do
    on_error (λ _. other ∷ []) (T.update (waits_too_long owner now) (expire_at now))
    on_error (λ _. other ∷ []) (T.update (granted_too_long owner now) (expire_at now))
    pure tt

  -- expireStaleConsentsByOwner
  unfoldable pub expire_stale_consents_by_owner : String → ℕ → Method (Unit {0})
  expire_stale_consents_by_owner owner now =
      T.transaction Error (Unit {0}) (λ _. other ∷ []) (expire_both owner now)

  unfoldable pub list_consents_by_owner :
      String → List ConsentStatus → ℕ → ℕ → ℕ → Method ListConsentsResponse
  list_consents_by_owner owner statuses limit offset now = do
    check (owner != "") (get_failed ∷ [])
    on_error (λ e. get_failed ∷ e) (expire_stale_consents_by_owner owner now)
    total ← on_error (λ _. get_failed ∷ other ∷ []) (T.count_rows (is_listed owner statuses))
    records ←
        on_error (λ _. get_failed ∷ other ∷ [])
          (T.page (is_listed owner statuses) (λ r. r.created_at) limit offset)
    pure (record {
      consents = map (to_summary_view U) records;
      total = total;
      limit = limit;
      offset = offset;
    })

  -- What is done with the consent that was read: the identifier and the columns to write.
  unfoldable pub allow_portal_action :
      ConsentPortalActionRequest → ℕ → ℕ → ConsentRecord → Method (ℕ × Updates)
  allow_portal_action req now id r = do
    check (r.owner_id == req.owner_id) (access_denied ∷ [])
    current ← on_error (λ _. update_failed ∷ other ∷ []) (persist_expiry_if_stale T r now)
    check (current.status == (from_status req.action).0) ((from_status req.action).1 ∷ [])
    updates ←
        from_option (portal_request_failed ∷ []) (updates_of req.action req.updated_by current now)
    pure (id, updates)

  -- Everything before the last write.
  unfoldable pub prepare_portal_action : ConsentPortalActionRequest → ℕ → Method (ℕ × Updates)
  prepare_portal_action req now = do
    check (is_valid_consent_portal_action req.action) (portal_request_failed ∷ [])
    id ← from_option (portal_request_failed ∷ []) (U.parse req.consent_id)
    r ← on_error (load_error update_failed) (T.first (has_id id))
    allow_portal_action req now id r

  -- The conditional write: it changes the row only if it is still in the status it was read in.
  unfoldable pub commit_portal_action : ConsentPortalActionRequest → ℕ × Updates → Method (Unit {0})
  commit_portal_action req (id, updates) = do
    changed ←
        on_error (λ _. update_failed ∷ other ∷ [])
          (T.update (is_owned_with id req.owner_id (from_status req.action).0)
            (write_updates updates))
    check (changed == 1) ((from_status req.action).1 ∷ [])

  unfoldable pub update_consent_status_by_portal_action :
      ConsentPortalActionRequest → ℕ → Method (Unit {0})
  update_consent_status_by_portal_action req now = do
    plan ← prepare_portal_action req now
    commit_portal_action req plan

  module _ (base_url : String) where
    unfoldable pub build_consent_record : CreateConsentRequest → ℕ → ℕ → ConsentRecord
    build_consent_record req id now =
        let consent_type : String = elim req.consent_type [ none ↦ "realtime" | some t ↦ t ] in
        record {
          consent_id = id;
          owner_id = req.consent_requirement.owner_id;
          app_id = req.app_id;
          app_name = req.app_name;
          status = pending;
          consent_type = consent_type;
          created_at = now;
          updated_at = now;
          pending_expires_at = some (now + parse_pending_timeout_duration consent_type);
          grant_expires_at = none;
          grant_duration = get_grant_duration_or_default req.grant_duration;
          fields = req.consent_requirement.fields;
          session_id = none;
          consent_portal_url = base_url <> "?consentId=" <> U.print id;
          updated_by = none;
        }

    -- The body of the transaction of revokeAndCreateConsent.
    unfoldable pub revoke_then_create :
        String → CreateConsentRequest → Moments → ℕ → Method ConsentRecord
    revoke_then_create existing req times id = do
      parsed ← from_option (other ∷ []) (U.parse existing)
      r ← on_error find_error (T.first (has_id parsed))
      check ((r.status == approved) || (r.status == pending)) (other ∷ [])
      on_error (λ _. other ∷ [])
          (T.save (record r {
            status = revoked;
            updated_at = times.at_revoke;
            updated_by = some revoked_by_new_consent;
          }))
      on_error (λ _. other ∷ []) (T.create (build_consent_record req id times.at_build))
      pure (build_consent_record req id times.at_build)

    unfoldable pub revoke_and_create_consent :
        String → CreateConsentRequest → Moments → ℕ → Method InternalView
    revoke_and_create_consent existing req times id = do
      created ←
          on_error (λ e. create_failed ∷ e)
            (T.transaction Error ConsentRecord (λ _. other ∷ [])
              (revoke_then_create existing req times id))
      pure (to_internal_view U created)

    unfoldable pub create_new : CreateConsentRequest → Moments → ℕ → Method InternalView
    create_new req times id = do
      on_error (λ _. create_failed ∷ other ∷ [])
          (T.create (build_consent_record req id times.at_build))
      pure (to_internal_view U (build_consent_record req id times.at_build))

    -- What follows the lookup of the latest consent of the owner and the application.
    unfoldable pub create_after_lookup :
        CreateConsentRequest → Moments → ℕ → Result Error InternalView → Method InternalView
    create_after_lookup req times id (ok existing) =
        if (existing.status == pending) || (existing.status == approved)
        then (if are_consent_fields_equal existing.fields (some req.consent_requirement.fields)
            then pure existing
            else revoke_and_create_consent existing.consent_id req times id)
        else create_new req times id
    create_after_lookup req times id (err e) =
        if contains e consent_not_found then create_new req times id else raise (create_failed ∷ e)

    unfoldable pub create_consent_record : CreateConsentRequest → Moments → ℕ → Method InternalView
    create_consent_record req times id s =
        if validate_create_consent_request req
        then (let found =
              get_consent_internal_view none (some req.consent_requirement.owner_id)
                (some req.app_id) times.at_lookup s in
            create_after_lookup req times id found.0 found.1)
        else (err (create_failed ∷ other ∷ []), s)
