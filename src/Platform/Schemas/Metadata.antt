-- ===== src/Platform/Schemas/Metadata.antt =====
-- The policy metadata of a schema: ListPolicyMetadata, PatchPolicyMetadata, DeletePolicyMetadata
-- and RevokeAllowListEntry of internal/pb/schema/service.go. A record is changed only through the
-- schema that has it.
use openndx_core.Base.{
  arith, subst, ==_sound, ==_refl, map_err, String, ◌≡◌, refl, ◌⊎◌, inl, inr, Bool, true, false,
  ◌||◌, List, [], ◌∷◌, ◌==◌, string_eq, if◌then◌else◌, Bool-cases, Result, ok, err, Result-cases,
  Action, pure, raise, ◌>>=◌, ◌>>◌, on_error,
}
use openndx_core.Platform.Schemas.{SchemaError, Systems, World, Service, on_pdp}

module _ (Y : Systems) where
  unfoldable pub has_record : String → List Y.Metadata → Bool
  has_record id [] = false
  has_record id (r ∷ records) = (Y.metadata_id r == id) || has_record id records

  abbrev pub from_pdp : {A : Type 0} → Action Y.Pdp String A → Service Y A
  from_pdp m = on_error SchemaError.pdp_failed (on_pdp Y m)

  unfoldable pub list_policy_metadata : String → Service Y (List Y.Metadata)
  list_policy_metadata schema_id = from_pdp (Y.list_metadata schema_id)

  -- ensurePolicyMetadataInSchema
  unfoldable pub ensure_in_schema : String → String → Service Y (Unit {0})
  ensure_in_schema schema_id id = from_pdp (Y.list_metadata schema_id) >>= λ records.
      if has_record id records then pure tt else raise (SchemaError.metadata_not_found id)

  unfoldable pub patch_policy_metadata : String → String → Y.Patch → Service Y Y.Metadata
  patch_policy_metadata schema_id id req =
      ensure_in_schema schema_id id >> from_pdp (Y.patch_metadata id req)

  unfoldable pub delete_policy_metadata : String → String → Service Y (Unit {0})
  delete_policy_metadata schema_id id =
      ensure_in_schema schema_id id >> from_pdp (Y.delete_metadata id)

  unfoldable pub revoke_allow_list_entry : String → String → String → Service Y (Unit {0})
  revoke_allow_list_entry schema_id id application_id =
      ensure_in_schema schema_id id >> from_pdp (Y.revoke_entry id application_id)

  -- The record with an ID is one of a list.
  abbrev pub IsOneOf : String → List Y.Metadata → Type 0
  IsOneOf id [] = ⊥
  IsOneOf id (r ∷ records) = (Y.metadata_id r ≡ id) ⊎ IsOneOf id records

  -- What an operation on a record of a schema does: it lists the schema's records, and goes on with
  -- `m` exactly where the record is one of them.
  abbrev pub IsWithin :
      {A : Type 0}
      → String
      → String
      → Action Y.Pdp String A
      → World Y
      → Result SchemaError A × World Y
      → Type 0
  IsWithin schema_id id m w (r, w') =
      let listed = Y.list_metadata schema_id w.pdp in
      (((records : List Y.Metadata) → listed.0 ≡ ok records → ¬ (IsOneOf id records))
        × ((e : SchemaError) × (r ≡ err e))
        × (w'.pdp ≡ listed.1))
      ⊎ ((records : List Y.Metadata) × (listed.0 ≡ ok records)
          × IsOneOf id records
          × (r ≡ map_err SchemaError.pdp_failed (m listed.1).0)
          × (w'.pdp ≡ (m listed.1).1))

  found-IsOneOf :
      (id : String) (records : List Y.Metadata) → has_record id records ≡ true → IsOneOf id records
  unfolding has_record
  found-IsOneOf id [] h = absurd (ground arith)
  found-IsOneOf id (r ∷ records) h = elim (Bool-cases (Y.metadata_id r == id)) [
    | inl this ↦ inl (==_sound (Y.metadata_id r) id this)
    | inr other ↦ inr (found-IsOneOf id records (ground arith))
  ]

  missing-IsOneOf :
      (id : String) (records : List Y.Metadata)
      → has_record id records ≡ false
      → ¬ (IsOneOf id records)
  unfolding has_record
  missing-IsOneOf id [] h x = x
  missing-IsOneOf id (r ∷ records) h (inl is) = absurd (ground (arith, ==_refl id))
  missing-IsOneOf id (r ∷ records) h (inr later) = missing-IsOneOf id records (ground arith) later

  ensured :
      {A : Type 0} (schema_id id : String) (m : Action Y.Pdp String A) (w : World Y)
      → IsWithin schema_id id m w ((ensure_in_schema schema_id id >> from_pdp m) w)
  unfolding ensure_in_schema
  ensured schema_id id m w =
      let listed = Y.list_metadata schema_id w.pdp in
      elim (Result-cases listed.0) [
        | inr (e, is) ↦
            rw is (inl (λ records h. absurd (ground arith), (SchemaError.pdp_failed e, refl), refl))
        | inl (records, is) ↦ elim (Bool-cases (has_record id records)) [
          | inl there ↦ rw is rw there (elim (Result-cases (m listed.1).0) [
            | inl (a, done) ↦
                rw done (inr (records, refl, found-IsOneOf id records there, refl, refl))
            | inr (e, bad) ↦
                rw bad (inr (records, refl, found-IsOneOf id records there, refl, refl))
          ])
          | inr missing ↦ rw is rw missing (
              inl (
                λ others h x.
                    let same : others ≡ records = ground arith in
                    missing-IsOneOf id records missing (subst (λ l. IsOneOf id l) same x),
                (SchemaError.metadata_not_found id, refl),
                refl,
              ))
        ]
      ]

  -- A patch, a deletion or a revocation through a schema lists the schema's records. Where the record
  -- that it names is one of them, it does that operation on that record, with its answer or its
  -- error; else, or where the list fails, it fails and asks nothing more.
  pub ownership_kept :
      (schema_id id application_id : String) (req : Y.Patch) (w : World Y)
      → IsWithin schema_id id (Y.patch_metadata id req) w (patch_policy_metadata schema_id id req w)
        × IsWithin schema_id id (Y.delete_metadata id) w (delete_policy_metadata schema_id id w)
        × IsWithin schema_id id
            (Y.revoke_entry id application_id)
            w
            (revoke_allow_list_entry schema_id id application_id w)
  unfolding patch_policy_metadata delete_policy_metadata revoke_allow_list_entry
  ownership_kept schema_id id application_id req w = (
    ensured schema_id id (Y.patch_metadata id req) w,
    ensured schema_id id (Y.delete_metadata id) w,
    ensured schema_id id (Y.revoke_entry id application_id) w,
  )
