-- ===== src/Consent/Tests/Creation.antt =====
-- Runs of lookups and creations on a table in memory.
use openndx_core.Base.{
  All, count, arith, ◌≡◌, ◌⊎◌, refl, String, true, false, none, some, [], ◌∷◌, nat_eq, string_eq,
  ok, err, find,
}
use openndx_core.Base.Table.{newest, update_where}
use openndx_core.Consent.Model.{
  pending, expired, status_eq, ConsentStatus-discrete, ConsentRecord, CreateConsentRequest,
  InternalView, to_internal_view, create_failed, get_failed, other, ConsentField, equals,
}
use openndx_core.Consent.Expiry.{is_stale, mark_expired_if_stale}
use openndx_core.Consent.Requests.{
  validate_create_consent_request, same_fields, are_consent_fields_equal,
}
use openndx_core.Consent.Service.{
  Moments, get_consent_internal_view, create_consent_record, build_consent_record, consent_query,
  save_if, create_after_lookup, revoke_and_create_consent, revoke_then_create,
}
use openndx_core.Consent.Service.Lookup.{latest_of, IsLatest, IsReport, reported_status}
use openndx_core.Consent.Service.Creation.{same_fields_reused}
use openndx_core.Consent.Service.Decisions.{HasUniqueIds}
use openndx_core.Consent.Service.Outcome.{Outcome, withdrawn}
use openndx_core.Consent.Service.Renewal.{IsNewConsent, creation_outcome}
use openndx_core.Consent.Tests.{store, store-lawful, ids, waiting, one_row}

abbrev late_view : InternalView
late_view = record {
  consent_id = "c-1";
  status = expired;
  consent_portal_url = none;
  fields = none;
}

late_lookup :
    (get_consent_internal_view store ids none (some "owner") (some "app") 300 one_row).0
    ≡ ok late_view
unfolding get_consent_internal_view consent_query save_if newest mark_expired_if_stale is_stale
    to_internal_view status_eq ConsentStatus-discrete nat_eq string_eq
late_lookup = refl

reported_status_example :
    (r : ConsentRecord) × IsLatest "owner" "app" (waiting ∷ []) r × IsReport ids 300 r late_view
reported_status_example =
    reported_status store store-lawful ids "owner" "app" 300 one_row late_view late_lookup

abbrev field : String → ConsentField
field name = record {
  field_name = name;
  schema_id = "person";
  display_name = none;
  description = none;
  owner = "citizen";
}

abbrev named : ConsentRecord
named = record waiting { fields = field "name" ∷ [] }

abbrev named_row : store.State
named_row = (100, named ∷ [])

abbrev request : String → CreateConsentRequest
request name = record {
  app_id = "app";
  app_name = none;
  consent_requirement = record { owner = "citizen"; owner_id = "owner"; fields = field name ∷ [] };
  grant_duration = none;
  consent_type = none;
}

abbrev times : Moments
times = record { at_lookup = 100; at_revoke = 101; at_build = 102 }

request_valid : validate_create_consent_request (request "name") ≡ true
unfolding validate_create_consent_request string_eq nat_eq
request_valid = refl

named_latest : latest_of "owner" "app" (named ∷ []) ≡ some named
unfolding newest string_eq
named_latest = refl

named_fresh : is_stale named 100 ≡ false
unfolding is_stale status_eq ConsentStatus-discrete
named_fresh = refl

same_name : same_fields (field "name" ∷ []) (field "name" ∷ []) ≡ true
unfolding same_fields equals string_eq
same_name = refl

same_fields_reused_example :
    let x = create_consent_record store ids "https://portal" (request "name") times 2 named_row in
    (store.rows x.1 ≡ named ∷ [])
    × ((x.0 ≡ ok (to_internal_view ids named))
        ⊎ (x.0 ≡ err (create_failed ∷ get_failed ∷ other ∷ [])))
same_fields_reused_example =
    same_fields_reused store store-lawful ids "https://portal" (request "name") times 2 named_row
      named request_valid named_latest named_fresh refl same_name

abbrev new_view : InternalView
new_view = record {
  consent_id = "c-2";
  status = pending;
  consent_portal_url = some "https://portal?consentId=c-2";
  fields = some (field "address" ∷ []);
}

abbrev after_replacement : store.State
after_replacement =
    (create_consent_record store ids "https://portal" (request "address") times 2 named_row).1

replacement :
    (create_consent_record store ids "https://portal" (request "address") times 2 named_row).0
    ≡ ok new_view
unfolding create_consent_record validate_create_consent_request get_consent_internal_view
    consent_query save_if create_after_lookup revoke_and_create_consent revoke_then_create
    build_consent_record are_consent_fields_equal same_fields equals newest find update_where
    mark_expired_if_stale is_stale to_internal_view status_eq ConsentStatus-discrete nat_eq
    string_eq
replacement = refl

-- The only row has the only identifier.
named_unique : HasUniqueIds (named ∷ [])
unfolding count
named_unique i = ground arith

ids_read :
    All
      (λ r. ids.parse (ids.print (ConsentRecord.consent_id r)) ≡ some (ConsentRecord.consent_id r))
      (named ∷ [])
unfolding string_eq nat_eq
ids_read = (refl, tt)

creation_outcome_example :
    (validate_create_consent_request (request "address") ≡ true)
    × IsNewConsent
        (request "address")
        2
        102
        (build_consent_record store ids "https://portal" (request "address") 2 102)
    × Outcome ids "owner" "app"
        (field "address" ∷ [])
        100
        (build_consent_record store ids "https://portal" (request "address") 2 102)
        (withdrawn store store-lawful ids "https://portal" (request "address") times 2)
        (named ∷ [])
        (store.rows after_replacement)
        new_view
creation_outcome_example =
    creation_outcome store store-lawful ids "https://portal" (request "address") times 2 named_row
      named_unique ids_read new_view replacement
