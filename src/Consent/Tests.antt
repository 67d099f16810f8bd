-- ===== src/Consent/Tests.antt =====
-- Runs of the consent engine on a table in memory: one pending consent, and requests about it.
mod Creation
mod Listing
mod Portal
use openndx_core.Base.{
  ℕ, ◌≡◌, ◌≢◌, ◌≤◌, refl, String, Bool, true, false, Option, none, some, List, [], ◌∷◌, arith, ◌==◌,
  nat_eq, string_eq, find, count, if◌then◌else◌, Result, ok, err, Bool-cases, inl, inr, ◌⊎◌, ◌+◌,
  ◌*◌, sym,
}
use openndx_core.Base.Table.{Table, DbError, or_not_found}
use openndx_core.Base.Memory.{memory, memory-IsLawful}
use openndx_core.Consent.Model.{
  ConsentStatus, pending, approved, rejected, status_eq, ConsentStatus-discrete, ConsentRecord,
  UuidText, ConsentPortalActionRequest, access_denied,
}
use openndx_core.Consent.Expiry.{has_id, is_stale, persist_expiry_if_stale}
use openndx_core.Consent.Requests.{is_valid_consent_portal_action, parse_grant_duration, hour}
use openndx_core.Consent.Service.{
  prepare_portal_action, commit_portal_action, allow_portal_action, updates_of, Updates,
  update_consent_status_by_portal_action, from_status,
}
use openndx_core.Consent.Service.Loading.{IsConsentTable, Refused, same_consent, touch_consent}
use openndx_core.Consent.Service.Decisions.{HasUniqueIds, IsDecided, success_writes, failure_keeps}
use openndx_core.Consent.Service.Races.{one_wins, IsReliable, allowed_succeeds}
use openndx_core.Consent.Service.LifeCycle.{Follows, life_cycle}

abbrev pub store : Table ConsentRecord
store = memory same_consent touch_consent

abbrev pub store-lawful : IsConsentTable store
store-lawful = memory-IsLawful same_consent touch_consent

abbrev pub ids : UuidText
ids = record {
  parse = λ text. if text == "c-1" then some 1 else if text == "c-2" then some 2 else none;
  print = λ n. if n == 1 then "c-1" else "c-2";
}

abbrev pub waiting : ConsentRecord
waiting = record {
  consent_id = 1;
  owner_id = "owner";
  app_id = "app";
  app_name = none;
  status = pending;
  consent_type = "realtime";
  created_at = 10;
  updated_at = 10;
  pending_expires_at = some 200;
  grant_expires_at = none;
  grant_duration = "P1D";
  fields = [];
  session_id = none;
  consent_portal_url = "https://portal";
  updated_by = none;
}

abbrev approval : ConsentPortalActionRequest
approval = record {
  consent_id = "c-1";
  owner_id = "owner";
  action = "approve";
  updated_by = "owner";
}

abbrev rejection : ConsentPortalActionRequest
rejection = record {
  consent_id = "c-1";
  owner_id = "owner";
  action = "reject";
  updated_by = "owner";
}

abbrev foreign : ConsentPortalActionRequest
foreign = record {
  consent_id = "c-1";
  owner_id = "stranger";
  action = "approve";
  updated_by = "stranger";
}

abbrev pub one_row : store.State
one_row = (100, waiting ∷ [])

abbrev after_approval : store.State
after_approval = (update_consent_status_by_portal_action store ids approval 100 one_row).1

approval_runs : (update_consent_status_by_portal_action store ids approval 100 one_row).0 ≡ ok tt
unfolding update_consent_status_by_portal_action prepare_portal_action commit_portal_action
    allow_portal_action persist_expiry_if_stale updates_of is_stale is_valid_consent_portal_action
    status_eq ConsentStatus-discrete nat_eq string_eq find count parse_grant_duration
approval_runs = refl

one_row-HasUniqueIds : HasUniqueIds (store.rows one_row)
unfolding count
one_row-HasUniqueIds id = ground arith

success_writes_example :
    (id : ℕ) × (r : ConsentRecord) × (r' : ConsentRecord) × (ids.parse "c-1" ≡ some id)
    × (find (has_id id) (waiting ∷ []) ≡ some r)
    × (r.owner_id ≡ "owner")
    × (r.status ≡ (from_status "approve").0)
    × (is_stale r 100 ≡ false)
    × (find (has_id id) (store.rows after_approval) ≡ some r')
    × IsDecided "approve" "owner" 100 r r'
    × ((j : ℕ)
        → j ≢ id
        → find (has_id j) (store.rows after_approval) ≡ find (has_id j) (waiting ∷ []))
success_writes_example = success_writes store store-lawful ids approval 100 one_row approval_runs

foreign_refused :
    (update_consent_status_by_portal_action store ids foreign 100 one_row).0
    ≡ err (access_denied ∷ [])
unfolding update_consent_status_by_portal_action prepare_portal_action allow_portal_action
    persist_expiry_if_stale updates_of is_stale is_valid_consent_portal_action status_eq
    ConsentStatus-discrete nat_eq string_eq find count parse_grant_duration
foreign_refused = refl

failure_keeps_example :
    (store.rows (update_consent_status_by_portal_action store ids foreign 100 one_row).1
      ≡ waiting ∷ [])
    ⊎ ((r : ConsentRecord) × Refused store store-lawful ids foreign 100
          (waiting ∷ [])
          (store.rows (update_consent_status_by_portal_action store ids foreign 100 one_row).1)
          r)
failure_keeps_example =
    failure_keeps store store-lawful ids foreign 100 one_row one_row-HasUniqueIds
      (access_denied ∷ []) foreign_refused

abbrev approval_updates : Updates
approval_updates = record {
  status = approved;
  updated_at = 100;
  updated_by = "owner";
  grant_expires_at = some (100 + 24 * hour);
}

abbrev rejection_updates : Updates
rejection_updates = record {
  status = rejected;
  updated_at = 101;
  updated_by = "owner";
  grant_expires_at = none;
}

abbrev first_read : store.State
first_read = (prepare_portal_action store ids approval 100 one_row).1

abbrev both_read : store.State
both_read = (prepare_portal_action store ids rejection 101 first_read).1

approval_ready : (prepare_portal_action store ids approval 100 one_row).0 ≡ ok (1, approval_updates)
unfolding prepare_portal_action allow_portal_action persist_expiry_if_stale updates_of is_stale
    is_valid_consent_portal_action status_eq ConsentStatus-discrete nat_eq string_eq find count
    parse_grant_duration
approval_ready = refl

rejection_ready :
    (prepare_portal_action store ids rejection 101 first_read).0 ≡ ok (1, rejection_updates)
unfolding prepare_portal_action allow_portal_action persist_expiry_if_stale updates_of is_stale
    is_valid_consent_portal_action status_eq ConsentStatus-discrete nat_eq string_eq find count
    parse_grant_duration
rejection_ready = refl

approval_first : (commit_portal_action store ids approval (1, approval_updates) both_read).0 ≡ ok tt
unfolding commit_portal_action prepare_portal_action allow_portal_action persist_expiry_if_stale
    updates_of is_stale is_valid_consent_portal_action status_eq ConsentStatus-discrete nat_eq
    string_eq find count parse_grant_duration
approval_first = refl

one_wins_example :
    (commit_portal_action store ids rejection
      (1, rejection_updates)
      (commit_portal_action store ids approval (1, approval_updates) both_read).1).0
    ≢ ok tt
one_wins_example =
    one_wins store store-lawful ids approval rejection 100 101 1 approval_updates rejection_updates
      one_row approval_ready rejection_ready approval_first

answers_found : (x : Option ConsentRecord) → or_not_found x ≢ err DbError.failed
answers_found none h = ground arith
answers_found (some r) h = ground arith

store-IsReliable : IsReliable store
store-IsReliable = record {
  reads = λ p s. answers_found (find p s.1);
  writes = λ p f s e h. ground arith;
}

approve_valid : is_valid_consent_portal_action "approve" ≡ true
unfolding is_valid_consent_portal_action string_eq
approve_valid = refl

waiting_found : find (has_id 1) (waiting ∷ []) ≡ some waiting
unfolding find nat_eq
waiting_found = refl

waiting_fresh : is_stale waiting 100 ≡ false
unfolding is_stale status_eq ConsentStatus-discrete
waiting_fresh = refl

waiting_pending : (from_status "approve").0 ≡ pending
unfolding string_eq
waiting_pending = refl

known_id : ids.parse "c-1" ≡ some 1
unfolding string_eq
known_id = refl

allowed_succeeds_example :
    (update_consent_status_by_portal_action store ids approval 100 one_row).0 ≡ ok tt
allowed_succeeds_example =
    allowed_succeeds store store-lawful store-IsReliable ids approval 100 1 waiting one_row
      one_row-HasUniqueIds approve_valid known_id waiting_found refl (sym waiting_pending)
      waiting_fresh

life_cycle_example :
    (r' : ConsentRecord) × (find
        (has_id 1)
        (store.rows (update_consent_status_by_portal_action store ids foreign 100 one_row).1)
      ≡ some r')
    × Follows "stranger" waiting r'
life_cycle_example =
    life_cycle store store-lawful ids foreign 100 one_row one_row-HasUniqueIds 1 waiting
      waiting_found
