-- ===== src/Policy/Service/Replacement.antt =====
-- CreatePolicyMetadata replaces the metadata of a schema and grants nothing.
use openndx_core.Base.{
  ℕ, suc, String, ◌≡◌, refl, sym, ap, subst, ◌∙◌, ◌⊎◌, inl, inr, Bool, true, not, some, List, [],
  ◌∷◌, ◌++◌, arith, lookup, contains, filter, find, All, ◌==◌, ==_sound, nat_eq, string_eq, ok,
  Option-cases, Bool-cases,
}
use openndx_core.Base.Table.{Table, IsLawful, update_where}
use openndx_core.Base.Rows.{find_sound}
use openndx_core.Policy.Model.{PolicyMetadata, CreateRequestRecord, CreateRequest}
use openndx_core.Policy.Service.{
  ServiceError, other, has_row_id, Processed, process_records, new_metadata, write_metadata,
  update_all, delete_obsolete, create_new_records, replace_metadata, create_policy_metadata,
  by_field_name, obsolete_ids, collect, classes_known,
}

-- Each row that is there after was there before with the same allow-list, or has an empty one.
abbrev GrantsNothing : List PolicyMetadata → List PolicyMetadata → Type 0
GrantsNothing before after =
    (id : ℕ) (pm' : PolicyMetadata)
    → find (has_row_id id) after ≡ some pm'
    → ((pm : PolicyMetadata) × (find (has_row_id id) before ≡ some pm)
        × (pm'.allow_list ≡ pm.allow_list))
      ⊎ (pm'.allow_list ≡ [])

GrantsNothing-trans :
    (a b c : List PolicyMetadata) → GrantsNothing a b → GrantsNothing b c → GrantsNothing a c
GrantsNothing-trans a b c f g id pm h = elim (g id pm h) [
  | inr none_given ↦ inr none_given
  | inl (pm1, found, same) ↦ elim (f id pm1 found) [
    | inr none_given ↦ inr (same ∙ none_given)
    | inl (pm0, found0, same0) ↦ inl (pm0, found0, same ∙ same0)
  ]
]

GrantsNothing-refl : (a : List PolicyMetadata) → GrantsNothing a a
GrantsNothing-refl a id pm h = inl (pm, h, refl)

find-filter-kept :
    (q p : PolicyMetadata → Bool) (pm : PolicyMetadata) (rows : List PolicyMetadata)
    → find q (filter p rows) ≡ some pm
    → p pm ≡ true
unfolding find filter
find-filter-kept q p pm [] h = ground arith
find-filter-kept q p pm (r ∷ rows) h = ground (arith, find-filter-kept q p pm rows)

find-filter :
    (ids : List ℕ) (id : ℕ) (pm : PolicyMetadata) (rows : List PolicyMetadata)
    → find (has_row_id id) (filter (λ r. not (contains ids r.id)) rows) ≡ some pm
    → find (has_row_id id) rows ≡ some pm
unfolding find filter
find-filter ids id pm [] h = h
find-filter ids id pm (r ∷ rows) h =
    let p : PolicyMetadata → Bool = λ x. not (contains ids x.id) in
    let kept : not (contains ids pm.id) ≡ true =
      find-filter-kept (has_row_id id) p pm (r ∷ rows) h in
    let named : (pm.id == id) ≡ true = find_sound (has_row_id id) (filter p (r ∷ rows)) pm h in
    ground (
      arith,
      find-filter ids id pm rows,
      ==_sound pm.id id named,
      ==_sound r.id id,
      ap (λ n. contains ids n) (==_sound pm.id id named),
    )

find-All :
    (id : ℕ) (pm : PolicyMetadata) (rows : List PolicyMetadata)
    → All (λ r. r.allow_list ≡ []) rows
    → find (has_row_id id) rows ≡ some pm
    → pm.allow_list ≡ []
unfolding find
find-All id pm [] all h = ground arith
find-All id pm (r ∷ rows) (one, all) h = ground (arith, find-All id pm rows all)

GrantsNothing-append :
    (rows created : List PolicyMetadata)
    → All (λ r. r.allow_list ≡ []) created
    → GrantsNothing rows (rows ++ created)
unfolding find
GrantsNothing-append [] created all id pm h = inr (find-All id pm created all h)
GrantsNothing-append (r ∷ rows) created all id pm h = elim (Bool-cases (has_row_id id r)) [
  | inl hit ↦ inl (r, rw hit refl, ground arith)
  | inr miss ↦ rw miss (GrantsNothing-append rows created all id pm (rw miss at h))
]

GrantsNothing-update :
    (pm : PolicyMetadata) (rows : List PolicyMetadata)
    → GrantsNothing rows (update_where (has_row_id pm.id) (write_metadata pm) rows)
unfolding find update_where
GrantsNothing-update pm [] id pm' h = inl (pm', h, refl)
GrantsNothing-update pm (r ∷ rows) id pm' h = elim (Bool-cases (has_row_id id r)) [
  | inl hit ↦ inl (r, rw hit refl, ground arith)
  | inr miss ↦ rw miss (GrantsNothing-update pm rows id pm' (ground arith))
]

GrantsNothing-filter :
    (ids : List ℕ) (rows : List PolicyMetadata)
    → GrantsNothing rows (filter (λ r. not (contains ids r.id)) rows)
GrantsNothing-filter ids rows id pm h = inl (pm, find-filter ids id pm rows h, refl)

abbrev NoneGranted : List PolicyMetadata → Type 0
NoneGranted = All (λ r. r.allow_list ≡ [])

NoneGranted-append :
    (a b : List PolicyMetadata) → NoneGranted a → NoneGranted b → NoneGranted (a ++ b)
NoneGranted-append [] b x y = y
NoneGranted-append (r ∷ a) b (one, x) y = (one, NoneGranted-append a b x y)

process_records-NoneGranted :
    (schema_id : String) (now : ℕ) (fresh : ℕ → ℕ) (i : ℕ) (records : List CreateRequestRecord)
    (p : Processed)
    → NoneGranted p.created
    → NoneGranted (process_records schema_id now fresh i records p).created
unfolding process_records
process_records-NoneGranted schema_id now fresh i [] p h = h
process_records-NoneGranted schema_id now fresh i (rec ∷ rest) p h =
    process_records-NoneGranted schema_id now fresh (suc i) rest _
      (elim (Option-cases (lookup rec.field_name p.existing)) [
        | inl missing ↦ rw missing (
            NoneGranted-append p.created (new_metadata schema_id rec (fresh i) now ∷ []) h
              (refl, tt))
        | inr (pm, found) ↦ rw found h
      ])

module _ (T : Table PolicyMetadata) (same : PolicyMetadata → PolicyMetadata → Bool)
    (touch : ℕ → PolicyMetadata → PolicyMetadata) (L : IsLawful T same touch) where
  updates-GrantsNothing :
      (pms : List PolicyMetadata) (s : T.State)
      → (update_all T pms s).0 ≡ ok tt
      → GrantsNothing (T.rows s) (T.rows (update_all T pms s).1)
  unfolding update_all
  updates-GrantsNothing [] s h = GrantsNothing-refl (T.rows s)
  updates-GrantsNothing (pm ∷ pms) s h =
      let s1 = (T.update (has_row_id pm.id) (write_metadata pm) s).1 in
      let wrote = L.update_law (has_row_id pm.id) (write_metadata pm) s in
      let rows1 : T.rows s1 ≡ update_where (has_row_id pm.id) (write_metadata pm) (T.rows s) =
        ground (arith, wrote) in
      let rest : (update_all T pms s1).0 ≡ ok tt = ground (arith, wrote) in
      let last : (update_all T (pm ∷ pms) s).1 ≡ (update_all T pms s1).1 = ground (arith, wrote) in
      let first : GrantsNothing (T.rows s) (T.rows s1) =
        rw rows1 (GrantsNothing-update pm (T.rows s)) in
      subst (λ (x : T.State). GrantsNothing (T.rows s) (T.rows x)) (sym last)
        (GrantsNothing-trans (T.rows s) (T.rows s1) (T.rows (update_all T pms s1).1) first
          (updates-GrantsNothing pms s1 rest))

  deletion-GrantsNothing :
      (ids : List ℕ) (s : T.State)
      → (delete_obsolete T ids s).0 ≡ ok tt
      → GrantsNothing (T.rows s) (T.rows (delete_obsolete T ids s).1)
  unfolding delete_obsolete
  deletion-GrantsNothing [] s h = GrantsNothing-refl (T.rows s)
  deletion-GrantsNothing (id ∷ ids) s h =
      let after : T.rows (delete_obsolete T (id ∷ ids) s).1
          ≡ filter (λ r. not (contains (id ∷ ids) r.id)) (T.rows s) =
        ground (arith, L.delete_law (λ pm. contains (id ∷ ids) pm.id) s) in
      rw after (GrantsNothing-filter (id ∷ ids) (T.rows s))

  creation-GrantsNothing :
      (created : List PolicyMetadata) (s : T.State)
      → NoneGranted created
      → (create_new_records T created s).0 ≡ ok tt
      → GrantsNothing (T.rows s) (T.rows (create_new_records T created s).1)
  unfolding create_new_records
  creation-GrantsNothing [] s none_granted h = GrantsNothing-refl (T.rows s)
  creation-GrantsNothing (pm ∷ pms) s none_granted h =
      let after : T.rows (create_new_records T (pm ∷ pms) s).1 ≡ T.rows s ++ pm ∷ pms =
        ground (arith, L.create_all_law (pm ∷ pms) s) in
      rw after (GrantsNothing-append (T.rows s) (pm ∷ pms) none_granted)

  module _ (now : ℕ) (fresh : ℕ → ℕ) (req : CreateRequest) where
    body-GrantsNothing :
        (s : T.State) (written : List PolicyMetadata)
        → (replace_metadata T now fresh req s).0 ≡ ok written
        → GrantsNothing (T.rows s) (T.rows (replace_metadata T now fresh req s).1)
    unfolding replace_metadata
    body-GrantsNothing s written h =
        let rows = filter (λ pm. pm.schema_id == req.schema_id) (T.rows s) in
        let p =
          process_records req.schema_id now fresh 0 req.records
            (record { existing = by_field_name rows []; created = []; updated = [] }) in
        let s1 = (T.find_all (λ pm. pm.schema_id == req.schema_id) s).1 in
        let read = L.find_all_law (λ pm. pm.schema_id == req.schema_id) s in
        let s2 = (delete_obsolete T (obsolete_ids req.records p.existing) s1).1 in
        let s3 = (create_new_records T p.created s2).1 in
        let s4 = (update_all T (collect p.existing p.updated) s3).1 in
        let deleted : (delete_obsolete T (obsolete_ids req.records p.existing) s1).0 ≡ ok tt =
          ground (arith, read) in
        let made : (create_new_records T p.created s2).0 ≡ ok tt = ground (arith, read, deleted) in
        let wrote : (update_all T (collect p.existing p.updated) s3).0 ≡ ok tt =
          ground (arith, read, deleted, made) in
        let last : (replace_metadata T now fresh req s).1 ≡ s4 =
          ground (arith, read, deleted, made, wrote) in
        let none_granted : NoneGranted p.created =
          process_records-NoneGranted req.schema_id now fresh 0 req.records _ tt in
        let first : GrantsNothing (T.rows s) (T.rows s2) =
          subst (λ rows. GrantsNothing rows (T.rows s2)) read.0
            (deletion-GrantsNothing (obsolete_ids req.records p.existing) s1 deleted) in
        let second = creation-GrantsNothing p.created s2 none_granted made in
        let third = updates-GrantsNothing (collect p.existing p.updated) s3 wrote in
        subst (λ (x : T.State). GrantsNothing (T.rows s) (T.rows x)) (sym last)
          (GrantsNothing-trans (T.rows s) (T.rows s3) (T.rows s4)
            (GrantsNothing-trans (T.rows s) (T.rows s2) (T.rows s3) first second) third)

    replacement-GrantsNothing :
        (classes : List String) (s : T.State)
        → GrantsNothing (T.rows s) (T.rows (create_policy_metadata T classes now fresh req s).1)
    unfolding create_policy_metadata
    replacement-GrantsNothing classes s = elim (Bool-cases (classes_known classes req.records)) [
      | inr unknown ↦
          let kept : T.rows (create_policy_metadata T classes now fresh req s).1 ≡ T.rows s =
            ground arith in
          rw kept (GrantsNothing-refl (T.rows s))
      | inl known ↦
          elim (L.transaction_law ServiceError (List PolicyMetadata) (λ _. other)
            (replace_metadata T now fresh req) s) [
              | inl (e, bad, rows) ↦
                  let kept : T.rows (create_policy_metadata T classes now fresh req s).1
                      ≡ T.rows s =
                    ground (arith, rows) in
                  rw kept (GrantsNothing-refl (T.rows s))
              | inr (written, good, body, rows) ↦
                  let kept : T.rows (create_policy_metadata T classes now fresh req s).1
                      ≡ T.rows (replace_metadata T now fresh req s).1 =
                    ground (arith, rows) in
                  rw kept (body-GrantsNothing s written body)
            ]
    ]

    -- A replacement of the metadata of a schema, whether it succeeds or fails, grants nothing: a
    -- record that is found after it was there before with the same allow-list, or has an empty one.
    pub nothing_granted :
        (classes : List String) (s : T.State) (id : ℕ) (pm' : PolicyMetadata)
        → find (has_row_id id) (T.rows (create_policy_metadata T classes now fresh req s).1)
          ≡ some pm'
        → ((pm : PolicyMetadata) × (find (has_row_id id) (T.rows s) ≡ some pm)
            × (pm'.allow_list ≡ pm.allow_list))
          ⊎ (pm'.allow_list ≡ [])
    nothing_granted classes s id pm' found = replacement-GrantsNothing classes s id pm' found
