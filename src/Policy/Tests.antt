-- ===== src/Policy/Tests.antt =====
-- Runs of the policy decision point: OPA runs the embedded policies, and the table, in memory, has
-- the metadata of one field, which one application is granted.
use openndx_core.Base.{
  ℕ, ◌≡◌, ◌≢◌, refl, String, Bool, true, false, none, some, [], ◌∷◌, ◌==◌, nat_eq, string_eq, ok,
  lookup, find, if◌then◌else◌, arith, contains, insert, filter,
}
use openndx_core.Base.Table.{Table, IsLawful}
use openndx_core.Base.Memory.{memory, memory-IsLawful}
use openndx_core.Policy.Model.{
  PolicyMetadata, AllowListEntry, CreateRequestRecord, CreateRequest, PolicyDecisionRequest,
  PolicyDecisionResponse, FieldRef, FieldRecord,
}
use openndx_core.Policy.Engine.{has_class}
use openndx_core.Base.{Dict, ◌⊎◌, ◌↔◌}
use openndx_core.Policy.Engine.{
  consent_required, deny, Eval, Input, decide, router, outcome_of, to_decision, allowlist,
  allowlist_consent,
}
use openndx_core.Policy.Engine.Decisions.{RunsPolicies, Verdict, Says, fail_closed, decide-Verdict}
use openndx_core.Policy.Service.{
  get_policy_decision, revoke_allow_list_entry, revoke_entry, has_row_id, has_text_id, input_for,
  metadata_map, sort_fields, create_policy_metadata, replace_metadata, classes_known,
  process_records, by_field_name, obsolete_ids, is_given, delete_obsolete, create_new_records,
  update_all, collect, new_metadata,
}
use openndx_core.Policy.Service.Keys.{has_code}
use openndx_core.Policy.Service.Decisions.{AllGranted, authorized_fields_granted}
use openndx_core.Policy.Service.Grants.{revoked_denied}
use openndx_core.Policy.Service.Replacement.{nothing_granted}

-- OPA on the embedded policies.
abbrev pub opa : Eval
opa input = some ((router input ∷ []) ∷ [])

pub opa-RunsPolicies : RunsPolicies opa
opa-RunsPolicies input = refl

abbrev pub same_metadata : PolicyMetadata → PolicyMetadata → Bool
same_metadata r = has_row_id r.id

abbrev pub touch_metadata : ℕ → PolicyMetadata → PolicyMetadata
touch_metadata t pm = record pm { updated_at = t }

abbrev pub store : Table PolicyMetadata
store = memory same_metadata touch_metadata

abbrev pub store-lawful : IsLawful store same_metadata touch_metadata
store-lawful = memory-IsLawful same_metadata touch_metadata

abbrev pub address : PolicyMetadata
address = record {
  id = 7;
  schema_id = "person";
  field_name = "address";
  display_name = none;
  description = none;
  source = "primary";
  policy_class = "allowlist_consent";
  policy_params = [];
  allow_list = ("app", record { expires_at = 200; updated_at = 50 }) ∷ [];
  owner = some "citizen";
  created_at = 10;
  updated_at = 50;
}

abbrev pub one_row : store.State
one_row = (100, address ∷ [])

abbrev pub clock : ℕ → ℕ
clock i = 100

abbrev pub wanted : FieldRef
wanted = record { field_name = "address"; schema_id = "person" }

abbrev request : PolicyDecisionRequest
request = record { application_id = "app"; required_fields = wanted ∷ [] }

abbrev address_record : FieldRecord
address_record = record {
  field_name = "address";
  schema_id = "person";
  display_name = none;
  description = none;
  owner = some "citizen";
}

abbrev response : PolicyDecisionResponse
response = record {
  app_authorized = true;
  unauthorized_fields = [];
  app_access_expired = false;
  expired_fields = [];
  app_requires_owner_consent = true;
  consent_required_fields = address_record ∷ [];
}

abbrev input : Input
input = input_for "app" address 100

fail_closed_example :
    ((decide opa input).0.outcome ≡ consent_required) ↔ Says opa input "consent_required"
fail_closed_example = fail_closed opa input consent_required (λ h. ground arith)

decide-Verdict_example : Verdict input (decide opa input).0.outcome × ((decide opa input).1 ≡ true)
decide-Verdict_example = decide-Verdict opa opa-RunsPolicies input

granted : (get_policy_decision store opa clock request one_row).0 ≡ ok response
unfolding get_policy_decision sort_fields metadata_map insert decide router allowlist
    allowlist_consent to_decision outcome_of lookup string_eq contains filter
granted = refl

pub wanted_plain : has_code 58 "person" ≡ false
unfolding has_code nat_eq
wanted_plain = refl

authorized_fields_granted_example : AllGranted "app" (address ∷ []) clock response 0 (wanted ∷ [])
authorized_fields_granted_example =
    authorized_fields_granted store same_metadata touch_metadata store-lawful opa opa-RunsPolicies
      clock request one_row response (wanted_plain, tt) granted refl refl

abbrev id_text : ℕ → String
id_text n = if n == 7 then "m-7" else "other"

abbrev after_revocation : store.State
after_revocation = (revoke_allow_list_entry store id_text 120 "m-7" "app" one_row).1

revocation : (revoke_allow_list_entry store id_text 120 "m-7" "app" one_row).0 ≡ ok tt
unfolding revoke_allow_list_entry revoke_entry find lookup string_eq nat_eq
revocation = refl

revoked_denied_example :
    (pm pm' : PolicyMetadata) × (find (has_text_id id_text "m-7") (address ∷ []) ≡ some pm)
    × (lookup "app" pm.allow_list ≢ none)
    × (find (has_row_id pm.id) (store.rows after_revocation) ≡ some pm')
    × ((j : String)
        → lookup j pm'.allow_list ≡ (if "app" == j then none else lookup j pm.allow_list))
    × ((time : ℕ) → (decide opa (input_for "app" pm' time)).0.outcome ≡ deny)
revoked_denied_example =
    revoked_denied store same_metadata touch_metadata store-lawful id_text 120 "m-7" "app" one_row
      opa opa-RunsPolicies revocation

abbrev name_record : CreateRequestRecord
name_record = record {
  field_name = "name";
  display_name = none;
  description = none;
  source = "primary";
  policy_class = "allowlist";
  policy_params = none;
  owner = none;
}

abbrev replacement : CreateRequest
replacement = record { schema_id = "person"; records = name_record ∷ [] }

abbrev after_replacement : store.State
after_replacement =
    (create_policy_metadata store ("allowlist" ∷ []) 130 (λ i. 8) replacement one_row).1

new_row :
    find (has_row_id 8) (store.rows after_replacement)
    ≡ some (new_metadata "person" name_record 8 130)
unfolding create_policy_metadata replace_metadata classes_known has_class process_records
    by_field_name obsolete_ids is_given delete_obsolete create_new_records update_all collect find
    filter lookup insert contains string_eq nat_eq
new_row = refl

nothing_granted_example :
    ((pm : PolicyMetadata) × (find (has_row_id 8) (address ∷ []) ≡ some pm) × ([] ≡ pm.allow_list))
    ⊎ (◌≡◌ {A = Dict AllowListEntry} [] [])
nothing_granted_example =
    nothing_granted store same_metadata touch_metadata store-lawful 130 (λ i. 8) replacement
      ("allowlist" ∷ []) one_row 8 (new_metadata "person" name_record 8 130) new_row
