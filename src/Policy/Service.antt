-- ===== src/Policy/Service.antt =====
-- The operations of PolicyMetadataService: internal/pdp/services/policy_metadata_service.go. The
-- database, OPA, the clock, the calendar and the fresh identifiers are arguments.
pub mod Keys
pub mod Decisions
pub mod Grants
pub mod Replacement
use openndx_core.Base.{
  ℕ, zero, suc, ◌+◌, String, ◌<>◌, Bool, true, false, not, ◌&&◌, ◌||◌, Option, none, some, List, [],
  ◌∷◌, ◌++◌, map, Dict, lookup, insert, erase, contains, is_empty, find, filter, ◌==◌, ◌!=◌, nat_eq,
  string_eq, if◌then◌else◌, Result, ok, err, Action, pure, raise, ◌>>=◌, ◌>>◌, on_error,
  from_option, check, map_err,
}
use openndx_core.Base.Table.{Table, DbError, not_found}
use openndx_core.Policy.Model.{
  PolicyParams, AllowListEntry, PolicyMetadata, CreateRequestRecord, CreateRequest, PatchField,
  PatchRequest, FieldRef, AllowListUpdateRequest, PolicyDecisionRequest, FieldRecord,
  PolicyDecisionResponse,
}
use openndx_core.Policy.Engine.{
  OutcomeKind, allow, deny, expired, consent_required, Input, Eval, decide, has_class,
}

-- The sentinel errors of the package; `other` is any other error.
pub data ServiceError : Type 0 where
  metadata_not_found entry_not_found unknown_policy_class other : ServiceError

-- The key of the maps from fields to their metadata.
abbrev pub field_key : String → String → String
field_key schema_id field_name = schema_id <> ":" <> field_name

abbrev pub ref_key : FieldRef → String
ref_key f = field_key f.schema_id f.field_name

abbrev pub metadata_key : PolicyMetadata → String
metadata_key pm = field_key pm.schema_id pm.field_name

-- The map built from the rows: a later row with a key replaces an earlier one.
unfoldable pub metadata_map : List PolicyMetadata → Dict PolicyMetadata → Dict PolicyMetadata
metadata_map [] m = m
metadata_map (pm ∷ rows) m = metadata_map rows (insert (metadata_key pm) pm m)

abbrev pub field_record : PolicyMetadata → FieldRecord
field_record pm = record {
  field_name = pm.field_name;
  schema_id = pm.schema_id;
  display_name = pm.display_name;
  description = pm.description;
  owner = pm.owner;
}

abbrev pub input_for : String → PolicyMetadata → ℕ → Input
input_for app pm now = record {
  app_id = app;
  schema_id = pm.schema_id;
  field_name = pm.field_name;
  policy_class = pm.policy_class;
  params = pm.policy_params;
  grant = elim (lookup app pm.allow_list) [ none ↦ none | some entry ↦ some entry.expires_at ];
  now = now;
}

-- The fields that consent is required for, those that are denied, and those whose grant is over.
pub record Sorted : Type 0 where
  pub consent_required_fields : List FieldRecord
  pub unauthorized_fields : List FieldRecord
  pub expired_fields : List FieldRecord

-- The outcome of one field put before those of the later ones.
abbrev pub sort_field : OutcomeKind → FieldRecord → Sorted → Sorted
sort_field allow f s = s
sort_field consent_required f s = record s {
  consent_required_fields = f ∷ s.consent_required_fields;
}
sort_field expired f s = record s { expired_fields = f ∷ s.expired_fields }
sort_field deny f s = record s { unauthorized_fields = f ∷ s.unauthorized_fields }

abbrev pub response_of : Sorted → PolicyDecisionResponse
response_of s = record {
  app_authorized = is_empty s.unauthorized_fields;
  unauthorized_fields = s.unauthorized_fields;
  app_access_expired = not (is_empty s.expired_fields);
  expired_fields = s.expired_fields;
  app_requires_owner_consent = not (is_empty s.consent_required_fields);
  consent_required_fields = s.consent_required_fields;
}

-- The loop over the required fields; `clock i` is the time read for the i-th of them.
unfoldable pub sort_fields :
    Eval → String → Dict PolicyMetadata → (ℕ → ℕ) → ℕ → List FieldRef → Result ServiceError Sorted
sort_fields eval app m clock i [] =
    ok (record { consent_required_fields = []; unauthorized_fields = []; expired_fields = [] })
sort_fields eval app m clock i (f ∷ rest) =
    let later = sort_fields eval app m clock (suc i) rest in
    elim (lookup (ref_key f) m) [
      | none ↦ err other
      | some pm ↦ elim later [
        | err e ↦ err e
        | ok s ↦
            ok (sort_field (decide eval (input_for app pm (clock i))).0.outcome (field_record pm) s)
      ]
    ]

abbrev pub schema_ids : List FieldRef → List String
schema_ids fields = map (λ f. f.schema_id) fields

abbrev pub is_requested : List FieldRef → PolicyMetadata → Bool
is_requested [] pm = false
is_requested (f ∷ rest) pm =
    ((pm.schema_id == f.schema_id) && (pm.field_name == f.field_name)) || is_requested rest pm

-- Every requested field has its metadata in the map.
unfoldable pub all_known : Dict PolicyMetadata → List FieldRef → Bool
all_known m [] = true
all_known m (f ∷ rest) = elim (lookup (ref_key f) m) [ none ↦ false | some pm ↦ all_known m rest ]

-- The end of a grant: `add_date t years months` is time.AddDate.
unfoldable pub expiry_of : (ℕ → ℕ → ℕ → ℕ) → String → ℕ → Option ℕ
expiry_of add_date duration now =
    if duration == "30d"
    then some (add_date now 0 1)
    else if duration == "365d"
    then some (add_date now 1 0)
    else none

-- The allow-list of a record with one application's entry written.
abbrev pub grant_to : String → AllowListEntry → PolicyMetadata → PolicyMetadata
grant_to app entry pm = record pm {
  allow_list = insert app entry pm.allow_list;
  updated_at = entry.updated_at;
}

abbrev pub has_row_id : ℕ → PolicyMetadata → Bool
has_row_id id pm = pm.id == id

-- CAST(id AS TEXT) = id; `id_text` prints an identifier.
abbrev pub has_text_id : (ℕ → String) → String → PolicyMetadata → Bool
has_text_id id_text id pm = id_text pm.id == id

abbrev pub missing_metadata : DbError → ServiceError
missing_metadata not_found = metadata_not_found
missing_metadata _ = other

-- The value of a column that a PATCH request may give.
abbrev pub patched {ℓ} : {A : Type ℓ} → Bool → A → A → A
patched given value old = if given then value else old

abbrev pub or_empty : Option PolicyParams → PolicyParams
or_empty none = []
or_empty (some params) = params

-- The columns that a PATCH request writes; null clears the parameters.
abbrev pub apply_patch : PatchRequest → ℕ → PolicyMetadata → PolicyMetadata
apply_patch req now pm = record pm {
  display_name = patched req.display_name.given req.display_name.value pm.display_name;
  description = patched req.description.given req.description.value pm.description;
  policy_class =
      if req.policy_class.given
      then (elim req.policy_class.value [ none ↦ pm.policy_class | some c ↦ c ])
      else pm.policy_class;
  policy_params =
      patched req.policy_params.given (or_empty req.policy_params.value) pm.policy_params;
  updated_at = now;
}

-- The class of a PATCH request, where it gives one, is there and loaded.
abbrev pub patch_class_valid : List String → PatchRequest → Bool
patch_class_valid classes req =
    if req.policy_class.given
    then (elim req.policy_class.value [ none ↦ false | some c ↦ has_class classes c ])
    else true

-- The columns of metadata that a CREATE request writes to a field that is there already.
abbrev pub merge_metadata : CreateRequestRecord → ℕ → PolicyMetadata → PolicyMetadata
merge_metadata rec now pm = record pm {
  display_name = rec.display_name;
  description = rec.description;
  source = rec.source;
  policy_class = rec.policy_class;
  policy_params = or_empty rec.policy_params;
  owner = rec.owner;
  updated_at = now;
}

-- The column's default, which gorm writes for an empty value
abbrev pub source_or_default : String → String
source_or_default source = if source == "" then "fallback" else source

abbrev pub new_metadata : String → CreateRequestRecord → ℕ → ℕ → PolicyMetadata
new_metadata schema_id rec id now = record {
  id = id;
  schema_id = schema_id;
  field_name = rec.field_name;
  display_name = rec.display_name;
  description = rec.description;
  source = source_or_default rec.source;
  policy_class = rec.policy_class;
  policy_params = or_empty rec.policy_params;
  allow_list = [];
  owner = rec.owner;
  created_at = now;
  updated_at = now;
}

unfoldable pub by_field_name : List PolicyMetadata → Dict PolicyMetadata → Dict PolicyMetadata
by_field_name [] m = m
by_field_name (pm ∷ rows) m = by_field_name rows (insert pm.field_name pm m)

-- What the loop over the incoming records leaves in memory: the existing records by field name,
-- the new ones, and the names of those to update, as often as they were given.
pub record Processed : Type 0 where
  pub existing : Dict PolicyMetadata
  pub created : List PolicyMetadata
  pub updated : List String

unfoldable pub process_records :
    String → ℕ → (ℕ → ℕ) → ℕ → List CreateRequestRecord → Processed → Processed
process_records schema_id now fresh i [] p = p
process_records schema_id now fresh i (rec ∷ rest) p =
    process_records schema_id now fresh (suc i) rest (elim (lookup rec.field_name p.existing) [
      | some pm ↦ record p {
        existing = insert rec.field_name (merge_metadata rec now pm) p.existing;
        updated = p.updated ++ rec.field_name ∷ [];
      }
      | none ↦ record p { created = p.created ++ new_metadata schema_id rec (fresh i) now ∷ [] }
    ])

unfoldable pub is_given : List CreateRequestRecord → String → Bool
is_given [] name = false
is_given (rec ∷ rest) name = (rec.field_name == name) || is_given rest name

-- The identifiers of the existing records that the request does not name.
unfoldable pub obsolete_ids : List CreateRequestRecord → Dict PolicyMetadata → List ℕ
obsolete_ids records [] = []
obsolete_ids records ((name, pm) ∷ m) =
    let rest = obsolete_ids records m in if is_given records name then rest else pm.id ∷ rest

unfoldable pub classes_known : List String → List CreateRequestRecord → Bool
classes_known classes [] = true
classes_known classes (rec ∷ rest) =
    if has_class classes rec.policy_class then classes_known classes rest else false

-- Select(...).Updates(pm): the columns that an update of metadata writes; not the allow-list.
abbrev pub write_metadata : PolicyMetadata → PolicyMetadata → PolicyMetadata
write_metadata pm r = record r {
  display_name = pm.display_name;
  description = pm.description;
  source = pm.source;
  policy_class = pm.policy_class;
  policy_params = pm.policy_params;
  owner = pm.owner;
  updated_at = pm.updated_at;
}

unfoldable pub collect : Dict PolicyMetadata → List String → List PolicyMetadata
collect m [] = []
collect m (name ∷ names) =
    let rest = collect m names in elim (lookup name m) [ none ↦ rest | some pm ↦ pm ∷ rest ]

module _ (T : Table PolicyMetadata) where
  abbrev pub Method : Type 0 → Type 0
  Method A = Action T.State ServiceError A

  unfoldable pub get_policy_decision :
      Eval → (ℕ → ℕ) → PolicyDecisionRequest → Method PolicyDecisionResponse
  get_policy_decision eval clock req = do
    rows ←
        on_error (λ _. other)
          (T.find_all (λ pm. contains (schema_ids req.required_fields) pm.schema_id))
    sorted ← λ s.
        (sort_fields eval req.application_id (metadata_map rows []) clock 0 req.required_fields, s)
    pure (response_of sorted)

  -- The loop that writes the grants: a record that is requested twice is written twice, the second
  -- time with the allow-list that the first left in memory.
  unfoldable pub write_grants :
      String → AllowListEntry → Dict PolicyMetadata → List FieldRef → Method (Unit {0})
  write_grants app entry m [] = pure tt
  write_grants app entry m (f ∷ rest) = elim (lookup (ref_key f) m) [
    | none ↦ raise other
    | some pm ↦ (do
      on_error (λ _. other)
          (T.update (has_row_id pm.id) (λ r. record r {
            allow_list = (grant_to app entry pm).allow_list;
            updated_at = entry.updated_at;
          }))
      write_grants app entry (insert (ref_key f) (grant_to app entry pm) m) rest)
  ]

  -- The body of the transaction of UpdateAllowList.
  unfoldable pub grant_fields : String → AllowListEntry → List FieldRef → Method (Unit {0})
  grant_fields app entry fields = do
    rows ← on_error (λ _. other) (T.find_all (is_requested fields))
    check (all_known (metadata_map rows []) fields) other
    write_grants app entry (metadata_map rows []) fields

  -- The answer is the list of fields with the end of the grant and the time of the write.
  unfoldable pub update_allow_list :
      (ℕ → ℕ → ℕ → ℕ) → ℕ → AllowListUpdateRequest → Method (List (FieldRef × ℕ × ℕ))
  update_allow_list add_date now req =
      if is_empty req.records then pure [] else elim (expiry_of add_date req.grant_duration now) [
        | none ↦ raise other
        | some expires_at ↦ (do
          T.transaction ServiceError (Unit {0}) (λ _. other)
              (grant_fields req.application_id
                (record { expires_at = expires_at; updated_at = now }) req.records)
          pure (map (λ f. (f, expires_at, now)) req.records))
      ]

  -- The body of the transaction of RevokeAllowListEntry.
  unfoldable pub revoke_entry : (ℕ → String) → ℕ → String → String → Method (Unit {0})
  revoke_entry id_text now id app = do
    pm ← on_error missing_metadata (T.first (has_text_id id_text id))
    from_option entry_not_found (lookup app pm.allow_list)
    on_error (λ _. other)
        (T.update (has_row_id pm.id)
          (λ r. record r { allow_list = erase app pm.allow_list; updated_at = now }))
    pure tt

  unfoldable pub revoke_allow_list_entry : (ℕ → String) → ℕ → String → String → Method (Unit {0})
  revoke_allow_list_entry id_text now id app =
      T.transaction ServiceError (Unit {0}) (λ _. other) (revoke_entry id_text now id app)

  unfoldable pub delete_policy_metadata : (ℕ → String) → String → Method (Unit {0})
  delete_policy_metadata id_text id = do
    deleted ← on_error (λ _. other) (T.delete (has_text_id id_text id))
    check (deleted != 0) metadata_not_found

  unfoldable pub patch_policy_metadata :
      (ℕ → String) → List String → ℕ → String → PatchRequest → Method PolicyMetadata
  patch_policy_metadata id_text classes now id req = do
    pm ← on_error missing_metadata (T.first (has_text_id id_text id))
    check (patch_class_valid classes req) unknown_policy_class
    on_error (λ _. other) (T.update (has_row_id pm.id) (apply_patch req now))
    pure (apply_patch req now pm)

  unfoldable pub update_all : List PolicyMetadata → Method (Unit {0})
  update_all [] = pure tt
  update_all (pm ∷ rest) = do
    on_error (λ _. other) (T.update (has_row_id pm.id) (write_metadata pm))
    update_all rest

  -- No statement is sent where there is nothing to delete or to create.
  unfoldable pub delete_obsolete : List ℕ → Method (Unit {0})
  delete_obsolete [] = pure tt
  delete_obsolete (id ∷ ids) = do
    on_error (λ _. other) (T.delete (λ pm. contains (id ∷ ids) pm.id))
    pure tt

  unfoldable pub create_new_records : List PolicyMetadata → Method (Unit {0})
  create_new_records [] = pure tt
  create_new_records (pm ∷ rest) = on_error (λ _. other) (T.create_all (pm ∷ rest))

  -- What stands between the beginning and the commit of the transaction of CreatePolicyMetadata.
  unfoldable pub replace_metadata : ℕ → (ℕ → ℕ) → CreateRequest → Method (List PolicyMetadata)
  replace_metadata now fresh req = do
    rows ← on_error (λ _. other) (T.find_all (λ pm. pm.schema_id == req.schema_id))
    let p =
        process_records req.schema_id now fresh 0 req.records
          (record { existing = by_field_name rows []; created = []; updated = [] })
    delete_obsolete (obsolete_ids req.records p.existing)
    create_new_records p.created
    update_all (collect p.existing p.updated)
    pure (p.created ++ collect p.existing p.updated)

  unfoldable pub create_policy_metadata :
      List String → ℕ → (ℕ → ℕ) → CreateRequest → Method (List PolicyMetadata)
  create_policy_metadata classes now fresh req = do
    check (classes_known classes req.records) unknown_policy_class
    T.transaction ServiceError (List PolicyMetadata) (λ _. other) (replace_metadata now fresh req)
