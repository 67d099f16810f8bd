-- ===== src/Consent/Tests/Portal.antt =====
-- Runs of the portal's handlers on a table in memory.
use openndx_core.Base.{
  ℕ, ◌≡◌, refl, String, false, none, some, [], ◌∷◌, nat_eq, string_eq, ok, find, count,
  if◌then◌else◌,
}
use openndx_core.Consent.Model.{
  approved, status_eq, ConsentStatus-discrete, ConsentRecord, PortalView, to_portal_view,
}
use openndx_core.Consent.Expiry.{has_id, is_stale, expire_at, persist_expiry_if_stale}
use openndx_core.Consent.Requests.{is_valid_consent_portal_action, parse_grant_duration}
use openndx_core.Consent.Service.{
  prepare_portal_action, commit_portal_action, allow_portal_action, updates_of,
  update_consent_status_by_portal_action, get_consent_portal_view,
}
use openndx_core.Consent.Portal.{
  PortalRequest, admitted, requested, new_status, get_consent, update_consent,
}
use openndx_core.Consent.Portal.Replies.{status_written, own_consent_shown}
use openndx_core.Consent.Tests.{store, store-lawful, ids, waiting, one_row}

abbrev put : PortalRequest
put = record {
  method = "PUT";
  consent_id = "c-1";
  subject = some "owner";
  action = some "approve";
  ended = false;
}

abbrev get : PortalRequest
get = record {
  method = "GET";
  consent_id = "c-1";
  subject = some "owner";
  action = none;
  ended = false;
}

put_answered : (update_consent store ids put 100 one_row).0 ≡ ok approved
unfolding update_consent admitted requested new_status update_consent_status_by_portal_action
    prepare_portal_action commit_portal_action allow_portal_action persist_expiry_if_stale
    updates_of is_stale is_valid_consent_portal_action status_eq ConsentStatus-discrete nat_eq
    string_eq find count parse_grant_duration
put_answered = refl

status_written_example :
    (owner : String) × (id : ℕ) × (before after : ConsentRecord) × (some "owner" ≡ some owner)
    × (ids.parse "c-1" ≡ some id)
    × (find (has_id id) (waiting ∷ []) ≡ some before)
    × (before.owner_id ≡ owner)
    × (find (has_id id) (store.rows (update_consent store ids put 100 one_row).1) ≡ some after)
    × (after.owner_id ≡ owner)
    × (after.status ≡ approved)
status_written_example = status_written store store-lawful ids put 100 one_row approved put_answered

abbrev waiting_view : PortalView
waiting_view = record {
  consent_id = "c-1";
  app_id = "app";
  app_name = none;
  owner_id = "owner";
  status = waiting.status;
  consent_type = "realtime";
  grant_duration = "P1D";
  created_at = 10;
  updated_at = 10;
  pending_expires_at = some 200;
  grant_expires_at = none;
  fields = [];
}

get_answered : (get_consent store ids get 100 one_row).0 ≡ ok waiting_view
unfolding get_consent admitted get_consent_portal_view persist_expiry_if_stale is_stale
    to_portal_view status_eq ConsentStatus-discrete nat_eq string_eq find
get_answered = refl

own_consent_shown_example :
    (owner : String) × (some "owner" ≡ some owner)
    × ((id : ℕ) × (x : ConsentRecord) × (ids.parse "c-1" ≡ some id)
        × (find (has_id id) (waiting ∷ []) ≡ some x)
        × (x.owner_id ≡ owner)
        × (waiting_view ≡ to_portal_view ids (if is_stale x 100 then expire_at 100 x else x)))
own_consent_shown_example =
    own_consent_shown store store-lawful ids get 100 one_row waiting_view get_answered
