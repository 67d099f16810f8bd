-- ===== src/Platform/Schemas/Creation.antt =====
-- That the creation of a schema takes effect at the database and at the policy decision point, or
-- leaves the database as it was, unless the step that undoes it fails too.
use openndx_core.Base.{
  String, ℕ, ◌≡◌, refl, ap, ◌∙◌, inl, inr, Bool, true, false, not, ◌&&◌, Option, none, some, List,
  [], ◌∷◌, ◌++◌, ◌==◌, ==_refl, string_eq, if◌then◌else◌, Bool-cases, filter, count, Result, ok,
  err, Result-cases, arith,
}
use mathlib.Core.Option.{some-ne-none}
use openndx_core.Base.Table.{Table, IsLawful, DbError}
use openndx_core.Platform.Schemas.{
  Schema, CreateSchemaRequest, SchemaError, Systems, World, same_schema, is_schema_id, has_sdl,
  has_fields, both_or_neither, chosen_id, response_of, schema_of, register, undo_schema,
  create_schema,
}

-- An error after which nothing is left to undo.
abbrev pub IsUndone : SchemaError → Type 0
IsUndone (SchemaError.not_registered _ (some _)) = ⊥
IsUndone _ = Unit

nothing_left :
    (e : String) (undone : Option DbError)
    → IsUndone (SchemaError.not_registered e undone)
    → undone ≡ none
nothing_left e none h = refl
nothing_left e (some _) h = absurd h

exactly_one : (a b : Bool) → (if a then b else not b) ≡ false → a ≡ not b
exactly_one true b h = ground arith
exactly_one false b h = ground arith

rows_without :
    (a : Schema) (rows : List Schema)
    → count (same_schema a) rows ≡ 0
    → filter (λ b. not (same_schema a b)) (rows ++ a ∷ []) ≡ rows
unfolding filter count
rows_without a [] fresh = rw (==_refl (Schema.schema_id a)) refl
rows_without a (b ∷ rows) fresh = ground (arith, rows_without a rows)

module _ (Y : Systems) (touch : ℕ → Schema → Schema)
    (db : IsLawful (Y.schemas) same_schema touch) where
  abbrev pub rows : World Y → List Schema
  rows w = Table.rows (Y.schemas) w.schemas

  -- What the creation of a schema comes to.
  abbrev pub Settled :
      String → ℕ → CreateSchemaRequest → World Y → Result SchemaError Schema × World Y → Type 0
  Settled uuid now req w (err e, w') = IsUndone e → rows w' ≡ rows w
  Settled uuid now req w (ok response, w') =
      let s = schema_of (chosen_id uuid req) now req in
      (response ≡ response_of s)
      × (has_sdl req ≡ not (has_fields req))
      × ((req.schema_id == "") ≡ false → is_schema_id req.schema_id ≡ true)
      × (rows w' ≡ rows w ++ s ∷ [])
      × ((register Y req s w.pdp).0 ≡ ok tt)
      × (w'.pdp ≡ (register Y req s w.pdp).1)

  undo_schema-Gone :
      (a : Schema) (before : List Schema) (w : World Y)
      → count (same_schema a) before ≡ 0
      → rows w ≡ before ++ a ∷ []
      → let r = undo_schema Y a w in
        (o : Option DbError) × (r.0 ≡ ok o) × (o ≡ none → rows r.1 ≡ before)
  unfolding undo_schema
  undo_schema-Gone a before w fresh is = elim (db.delete_law (same_schema a) w.schemas) [
    | inl (e, failed, same) ↦ rw failed (some e, refl, λ h. absurd (some-ne-none e h))
    | inr (gone, left) ↦ rw gone (
      none,
      refl,
      λ _. left ∙ ap (filter (λ b. not (same_schema a b))) is ∙ rows_without a before fresh,
    )
  ]

  -- With an ID that no row has: a creation that succeeds had either an SDL or fields and, where it
  -- named an ID, one of the pattern; it added the schema's row, and the policy decision point
  -- accepted its metadata; and one that fails leaves the rows as before, unless the error has that
  -- of the deletion that undoes it.
  pub schema-Settled :
      (uuid : String) (now : ℕ) (req : CreateSchemaRequest) (w : World Y)
      → count (same_schema (schema_of (chosen_id uuid req) now req)) (rows w) ≡ 0
      → Settled uuid now req w (create_schema Y uuid now req w)
  unfolding create_schema
  schema-Settled uuid now req w fresh =
      let s = schema_of (chosen_id uuid req) now req in
      let created = Table.create (Y.schemas) s w.schemas in
      let v : World Y = record w { schemas = created.1 } in
      elim (Bool-cases (both_or_neither req)) [
        | inl bad ↦ rw bad (λ _. refl)
        | inr one ↦
            elim (Bool-cases (not (req.schema_id == "") && not (is_schema_id req.schema_id))) [
              | inl bad ↦ rw one rw bad (λ _. refl)
              | inr named ↦ rw one rw named (elim (db.create_law s w.schemas) [
                | inl (e, failed, same) ↦ rw failed (λ _. same)
                | inr (stored, more) ↦ elim (Result-cases (register Y req s w.pdp).0) [
                  | inl (_, is) ↦ rw stored rw is (
                    refl,
                    exactly_one (has_sdl req) (has_fields req) one,
                    (λ given. ground arith),
                    more,
                    is,
                    refl,
                  )
                  | inr (e, is) ↦
                      let v' : World Y = record v { pdp = (register Y req s w.pdp).1 } in
                      let (undone, is_undone, gone) = undo_schema-Gone s (rows w) v' fresh more in
                      rw stored rw is rw is_undone (λ h. gone (nothing_left e undone h))
                ]
              ])
            ]
      ]
