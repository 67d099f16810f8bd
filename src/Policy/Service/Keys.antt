-- ===== src/Policy/Service/Keys.antt =====
-- The keys of the maps from fields to their metadata: which fields share one, and which row is found
-- under one.
use Prim.Native.Char.{Char, char, code}
use Prim.Native.String.append
use openndx_core.Base.{
  IsIn, ◌⊎◌, ==_sound, lookup-insert, insert, lookup, Dict, List, [], ◌∷◌, filter, contains, some,
  string_eq, String, ℕ, ◌<>◌, ◌≡◌, ◌∙◌, ap, sym, refl, if◌then◌else◌, Bool, true, false, ◌||◌, ◌==◌,
  nat_eq, arith, Bool-cases, inl, inr,
}
use openndx_core.Policy.Model.{PolicyMetadata, FieldRef}
use openndx_core.Policy.Service.{field_key, metadata_key, ref_key, metadata_map, schema_ids}

-- Whether a text has the character with a code.
unfoldable pub has_code : ℕ → String → Bool
has_code n String.[] = false
has_code n (String.◌∷◌ c s) = (code c == n) || has_code n s

-- The parts of a text around its first colon.
unfoldable before_colon : String → String
before_colon String.[] = ""
before_colon (String.◌∷◌ c s) =
    let rest = before_colon s in if code c == 58 then "" else String.◌∷◌ c rest

unfoldable after_colon : String → String
after_colon String.[] = ""
after_colon (String.◌∷◌ c s) = let rest = after_colon s in if code c == 58 then s else rest

abbrev colon : Char
colon = char 58 tt

colon_parts :
    (s t : String)
    → has_code 58 s ≡ false
    → (before_colon (s <> (":" <> t)) ≡ s) × (after_colon (s <> (":" <> t)) ≡ t)
unfolding has_code before_colon after_colon nat_eq
colon_parts String.[] t h =
    rw (append.nil (":" <> t)) rw (append.cons colon "" t) rw (append.nil t) (refl, refl)
colon_parts (String.◌∷◌ c s) t h =
    let (before, after) = colon_parts s t (ground arith) in
    rw (append.cons c s (":" <> t)) (elim (Bool-cases (code c == 58)) [
      | inl bad ↦ absurd (ground arith)
      | inr other ↦ rw other (ap (λ r. String.◌∷◌ c r) before, after)
    ])

-- Fields with one key are the same field of the same schema, where neither schema ID has a colon.
pub field_key_injective :
    (a b f g : String)
    → has_code 58 a ≡ false
    → has_code 58 b ≡ false
    → field_key a f ≡ field_key b g
    → (a ≡ b) × (f ≡ g)
field_key_injective a b f g ha hb same =
    let (before, after) = colon_parts a f ha in
    let (before', after') = colon_parts b g hb in
    (sym before ∙ ap before_colon same ∙ before', sym after ∙ ap after_colon same ∙ after')

-- No schema ID of the fields has a colon.
abbrev pub NoColons : List FieldRef → Type 0
NoColons [] = Unit
NoColons (f ∷ fields) = (has_code 58 f.schema_id ≡ false) × NoColons fields

-- What is in the map has its key, and came from the rows or was there before.
metadata_map-IsIn :
    (rows : List PolicyMetadata) (m : Dict PolicyMetadata) (key : String) (pm : PolicyMetadata)
    → lookup key (metadata_map rows m) ≡ some pm
    → (IsIn pm rows × (metadata_key pm ≡ key)) ⊎ (lookup key m ≡ some pm)
unfolding metadata_map
metadata_map-IsIn [] m key pm h = inr h
metadata_map-IsIn (row ∷ rows) m key pm h =
    elim (metadata_map-IsIn rows (insert (metadata_key row) row m) key pm h) [
      | inl (there, is) ↦ inl (inr there, is)
      | inr before ↦ elim (Bool-cases (metadata_key row == key)) [
        | inr other_key ↦ inr (ground (arith, lookup-insert key (metadata_key row) row m))
        | inl this ↦
            let same : row ≡ pm = ground (arith, lookup-insert key (metadata_key row) row m) in
            inl (inl (sym same), ap metadata_key (sym same) ∙ ==_sound (metadata_key row) key this)
      ]
    ]

filter-IsIn :
    (p : PolicyMetadata → Bool) (rows : List PolicyMetadata) (pm : PolicyMetadata)
    → IsIn pm (filter p rows)
    → IsIn pm rows × (p pm ≡ true)
unfolding filter
filter-IsIn p [] pm h = absurd h
filter-IsIn p (row ∷ rows) pm h = elim (Bool-cases (p row)) [
  | inr dropped ↦
      let (there, passed) = filter-IsIn p rows pm (rw dropped at h) in (inr there, passed)
  | inl kept ↦ elim (rw kept at h) as (λ _. IsIn pm (row ∷ rows) × (p pm ≡ true)) [
    | inl same ↦ (inl same, ap p same ∙ kept)
    | inr later ↦ let (there, passed) = filter-IsIn p rows pm later in (inr there, passed)
  ]
]

-- A schema ID among those of the fields has no colon.
known-no_colon :
    (fields : List FieldRef) (id : String)
    → NoColons fields
    → contains (schema_ids fields) id ≡ true
    → has_code 58 id ≡ false
unfolding contains
known-no_colon [] id none_has h = absurd (ground arith)
known-no_colon (f ∷ fields) id (first, rest) h = elim (Bool-cases (f.schema_id == id)) [
  | inl this ↦ ap (has_code 58) (sym (==_sound f.schema_id id this)) ∙ first
  | inr later ↦ known-no_colon fields id rest (ground arith)
]

-- The metadata that the decision reads: that of the schemas which the request names.
abbrev pub known : List FieldRef → List PolicyMetadata → List PolicyMetadata
known fields rows = filter (λ pm. contains (schema_ids fields) pm.schema_id) rows

-- The metadata that is read for a field is that field's.
pub own_metadata :
    (fields : List FieldRef) (rows : List PolicyMetadata) (f : FieldRef) (pm : PolicyMetadata)
    → NoColons fields
    → has_code 58 f.schema_id ≡ false
    → lookup (ref_key f) (metadata_map (known fields rows) []) ≡ some pm
    → IsIn pm rows × (pm.schema_id ≡ f.schema_id) × (pm.field_name ≡ f.field_name)
unfolding lookup
own_metadata fields rows f pm none_has no_colon found =
    elim (metadata_map-IsIn (known fields rows) [] (ref_key f) pm found) [
      | inr before ↦ absurd (ground arith)
      | inl (there, same_key) ↦
          let (stored, named) =
            filter-IsIn (λ pm. contains (schema_ids fields) pm.schema_id) rows pm there in
          let (same_schema, same_name) =
            field_key_injective pm.schema_id f.schema_id pm.field_name f.field_name
              (known-no_colon fields pm.schema_id none_has named) no_colon same_key in
          (stored, same_schema, same_name)
    ]
