-- ===== src/Exchange/Merge/Nulls.antt =====
-- Where a response may hold null, and that every null that goes up is reported.
use openndx_core.Base.{
  ℕ, suc, String, ◌≡◌, ◌≢◌, inl, inr, refl, sym, ap, subst, ◌∙◌, Bool, true, false, not, ◌||◌, ◌&&◌,
  Option, none, some, List, [], ◌∷◌, ◌++◌, arith, ◌==◌, ==_sound, ==_refl, ==_of_ne, string_eq,
  if◌then◌else◌, Bool-cases,
}
use openndx_core.Exchange.Value.{
  Value, null, boolean, number, text, array, object, Items, no_items, item, Members, no_members,
  member, get_member, set_member, add_item, is_null,
}
use openndx_core.Exchange.Operation.{
  TypeRef, named, list_of, non_null, SourceInfo, FieldInfo, field, Fields, end, cons,
}
use openndx_core.Exchange.Completion.{
  PathStep, Answers, unavailable, answered, ItemScope, Completed, Complete, complete, complete_item,
  complete_items, complete_list, complete_raw, from_answer, complete_sourced, complete_nested,
  complete_unsourced, complete_read, complete_field, complete_object, has_selections, is_list,
  elem_of, type_name,
}

-- The items of a list: null only where their type allows it, and otherwise objects of `P`.
abbrev pub ItemsFit : TypeRef → (Members → Type 0) → Items → Type 0
ItemsFit elem P no_items = Unit
ItemsFit elem P (item null rest) = (non_null elem ≡ false) × ItemsFit elem P rest
ItemsFit elem P (item (object ms) rest) = P ms × ItemsFit elem P rest
ItemsFit elem P (item _ rest) = ⊥

-- A field with selections is an object, or a list of such; a leaf has any value of a provider.
abbrev pub Shaped : TypeRef → Bool → (Members → Type 0) → Value → Type 0
Shaped typ selected P null = Unit
Shaped typ false P v = Unit
Shaped (named _ _) true P (object ms) = P ms
Shaped (list_of elem _) true P (array items) = ItemsFit elem P items
Shaped _ true P _ = ⊥

-- The value of a field: not null where its type is non-null.
abbrev pub Fits : FieldInfo → Bool → (Members → Type 0) → Value → Type 0
Fits i selected P v =
    (non_null i.typ ≡ true → v ≢ null) × (i.name ≢ "__typename" → Shaped i.typ selected P v)

abbrev pub DataFits : Fields → Members → Type 0
DataFits end ms = Unit
DataFits (cons (field i selections) rest) ms =
    Fits i (has_selections selections) (DataFits selections) (get_member i.response_key ms)
    × DataFits rest ms

complete-Fits :
    (i : FieldInfo) (parent : String) (v : Value) (reported : Bool) (path : List PathStep)
    (selected : Bool) (P : Members → Type 0)
    → Shaped i.typ selected P v
    → (complete i parent v reported path).failed ≡ false
    → Fits i selected P (complete i parent v reported path).value
unfolding complete
complete-Fits i parent null reported path selected P shape ok_ =
    elim (Bool-cases (non_null i.typ)) [
      | inl nn ↦ absurd (ground arith)
      | inr nullable ↦ rw nullable ((λ nn. ground arith), λ _. tt)
    ]
complete-Fits i parent (boolean b) reported path selected P shape ok_ =
    ((λ nn e. ground arith), λ _. shape)
complete-Fits i parent (number b) reported path selected P shape ok_ =
    ((λ nn e. ground arith), λ _. shape)
complete-Fits i parent (text b) reported path selected P shape ok_ =
    ((λ nn e. ground arith), λ _. shape)
complete-Fits i parent (array b) reported path selected P shape ok_ =
    ((λ nn e. ground arith), λ _. shape)
complete-Fits i parent (object b) reported path selected P shape ok_ =
    ((λ nn e. ground arith), λ _. shape)

-- What is known of one item that is added.
abbrev ItemFits : TypeRef → (Members → Type 0) → Value → Type 0
ItemFits elem P v = ItemsFit elem P (item v no_items)

ItemsFit-add :
    (elem : TypeRef) (P : Members → Type 0) (out : Items) (v : Value)
    → ItemsFit elem P out
    → ItemFits elem P v
    → ItemsFit elem P (add_item out v)
unfolding add_item
ItemsFit-add elem P no_items v h k = k
ItemsFit-add elem P (item null rest) v (n, h) k = (n, ItemsFit-add elem P rest v h k)
ItemsFit-add elem P (item (object ms) rest) v (n, h) k = (n, ItemsFit-add elem P rest v h k)
ItemsFit-add elem P (item (boolean _) rest) v h k = elim h [ ]
ItemsFit-add elem P (item (number _) rest) v h k = elim h [ ]
ItemsFit-add elem P (item (text _) rest) v h k = elim h [ ]
ItemsFit-add elem P (item (array _) rest) v h k = elim h [ ]

leaf-Shaped : (typ : TypeRef) (P : Members → Type 0) (v : Value) → Shaped typ false P v
leaf-Shaped typ P null = tt
leaf-Shaped typ P (boolean _) = tt
leaf-Shaped typ P (number _) = tt
leaf-Shaped typ P (text _) = tt
leaf-Shaped typ P (array _) = tt
leaf-Shaped typ P (object _) = tt

object-Shaped :
    (typ : TypeRef) (P : Members → Type 0) (ms : Members)
    → is_list typ ≡ false
    → P ms
    → Shaped typ true P (object ms)
object-Shaped (named n nn) P ms plain h = h
object-Shaped (list_of elem nn) P ms plain h = absurd (ground arith)

-- A field that is the name of its type.
meta-Fits :
    (answers : Answers) (i : FieldInfo) (selections : Complete) (selected : Bool) (parent : String)
    (scope : Option ItemScope) (path : List PathStep) (P : Members → Type 0)
    → (i.name == "__typename") ≡ true
    → Fits i selected P (complete_field answers i selections selected parent scope path).value
unfolding complete_field
meta-Fits answers i selections selected parent scope path P meta =
    rw meta ((λ nn e. ground arith), λ other. absurd (other (==_sound _ _ meta)))

module _ (i : FieldInfo) (parent : String) (selections : Complete) (P : Members → Type 0)
    (fit : (name : String) (scope : Option ItemScope) (path : List PathStep)
      → (selections name scope path).failed ≡ false
      → P (selections name scope path).members) where
  item_fits :
      (elem : TypeRef) (declared : String) (path : List PathStep) (v : Value)
      → (complete_item i parent selections elem declared path v).failed ≡ false
      → ItemFits elem P (complete_item i parent selections elem declared path v).value
  unfolding complete_item
  item_fits elem declared path v h = elim (Bool-cases (is_null v)) [
    | inl missing ↦ elim (Bool-cases (non_null elem)) [
      | inl nn ↦ absurd (ground arith)
      | inr nullable ↦ rw (missing, nullable) (nullable, tt)
    ]
    | inr there ↦
        let scope : Option ItemScope = some (record { scope_item = v; declared = declared }) in
        let r = selections (type_name elem) scope path in
        elim (Bool-cases r.failed) [
          | inr good ↦ rw (there, good) (fit (type_name elem) scope path good, tt)
          | inl bad ↦ elim (Bool-cases (non_null elem)) [
            | inl nn ↦ absurd (ground arith)
            | inr nullable ↦ rw (there, bad) (nullable, tt)
          ]
        ]
  ]

  items_fit :
      (elem : TypeRef) (declared : String) (path : List PathStep) (n : ℕ) (out items : Items)
      → ItemsFit elem P out
      → (complete_items i parent selections elem declared path n out items).failed ≡ false
      → ItemsFit elem P (complete_items i parent selections elem declared path n out items).items
  unfolding complete_items
  items_fit elem declared path n out no_items start h = start
  items_fit elem declared path n out (item v rest) start h =
      let here = path ++ PathStep.index n ∷ [] in
      let c = complete_item i parent selections elem declared here v in
      elim (Bool-cases c.failed) [
        | inl bad ↦ absurd (ground arith)
        | inr good ↦ rw good (
            items_fit elem declared path (suc n) (add_item out c.value) rest
              (ItemsFit-add elem P out c.value start (item_fits elem declared here v good))
              (rw good at h))
      ]

  list-Fits :
      (elem : TypeRef) (nn : Bool) (raw : Value) (declared : String) (path : List PathStep)
      → i.typ ≡ list_of elem nn
      → (complete_list i parent selections elem raw declared path).failed ≡ false
      → Fits i true P (complete_list i parent selections elem raw declared path).value
  unfolding complete_list
  list-Fits elem nn null declared path is h = complete-Fits i parent null false path true P tt h
  list-Fits elem nn (boolean _) declared path is h =
      complete-Fits i parent null true path true P tt h
  list-Fits elem nn (number _) declared path is h =
      complete-Fits i parent null true path true P tt h
  list-Fits elem nn (text _) declared path is h = complete-Fits i parent null true path true P tt h
  list-Fits elem nn (object _) declared path is h =
      complete-Fits i parent null true path true P tt h
  list-Fits elem nn (array items) declared path is h =
      let r = complete_items i parent selections elem declared path 0 no_items items in
      elim (Bool-cases r.failed) [
        | inl bad ↦ rw bad (complete-Fits i parent null true path true P tt (rw bad at h))
        | inr good ↦ rw good (
            complete-Fits i parent (array r.items) false path true P
              (subst (λ t. Shaped t true P (array r.items)) (sym is)
                (items_fit elem declared path 0 no_items items tt good))
              (rw good at h))
      ]

  abbrev FitsIf : Bool → Completed → Type 0
  FitsIf selected c = c.failed ≡ false → Fits i selected P c.value

  raw_leaf :
      (typ : TypeRef) (declared : String) (path : List PathStep) (raw : Value)
      → i.typ ≡ typ
      → complete_raw i parent selections false declared path raw ≡ complete i parent raw false path
  raw_leaf (named n nn) declared path raw is = ground (arith, ap elem_of is)
  raw_leaf (list_of elem nn) declared path raw is = ground (arith, ap elem_of is)

  raw_list :
      (elem : TypeRef) (nn : Bool) (declared : String) (path : List PathStep) (raw : Value)
      → i.typ ≡ list_of elem nn
      → complete_raw i parent selections true declared path raw
        ≡ complete_list i parent selections elem raw declared path
  raw_list elem nn declared path raw is = ground (arith, ap elem_of is)

  raw_fits_at :
      (typ : TypeRef) (selected : Bool) (declared : String) (path : List PathStep) (raw : Value)
      → i.typ ≡ typ
      → (is_list typ || not selected) ≡ true
      → FitsIf selected (complete_raw i parent selections selected declared path raw)
  raw_fits_at (named n nn) true declared path raw is ready = absurd (ground arith)
  raw_fits_at (named n nn) false declared path raw is ready =
      subst (λ c. FitsIf false c) (sym (raw_leaf (named n nn) declared path raw is))
        (complete-Fits i parent raw false path false P (leaf-Shaped i.typ P raw))
  raw_fits_at (list_of elem nn) true declared path raw is ready =
      subst (λ c. FitsIf true c) (sym (raw_list elem nn declared path raw is))
        (list-Fits elem nn raw declared path is)
  raw_fits_at (list_of elem nn) false declared path raw is ready =
      subst (λ c. FitsIf false c) (sym (raw_leaf (list_of elem nn) declared path raw is))
        (complete-Fits i parent raw false path false P (leaf-Shaped i.typ P raw))

  raw_fits :
      (selected : Bool) (declared : String) (path : List PathStep) (raw : Value)
      → (is_list i.typ || not selected) ≡ true
      → FitsIf selected (complete_raw i parent selections selected declared path raw)
  raw_fits selected declared path raw = raw_fits_at i.typ selected declared path raw refl

  sourced_fits :
      (answers : Answers) (info : SourceInfo) (selected : Bool) (scope : Option ItemScope)
      (path : List PathStep)
      → (is_list i.typ || not selected) ≡ true
      → FitsIf selected (complete_sourced answers i info parent selections selected scope path)
  unfolding complete_sourced
  sourced_fits answers info selected (some scope) path ready =
      raw_fits selected info.provider_field path _ ready
  sourced_fits answers info selected none path ready =
      elim (answers i.path)
        as (λ a. FitsIf selected (from_answer i info parent selections selected path a)) [
          | unavailable schema_id ↦ complete-Fits i parent null true path selected P tt
          | answered response ↦ raw_fits selected info.provider_field path _ ready
        ]

  nested-Fits :
      (scope : Option ItemScope) (path : List PathStep)
      → is_list i.typ ≡ false
      → (complete_nested i parent selections scope path).failed ≡ false
      → Fits i true P (complete_nested i parent selections scope path).value
  unfolding complete_nested
  nested-Fits scope path plain h =
      let r = selections (type_name i.typ) scope path in
      elim (Bool-cases r.failed) [
        | inl bad ↦ rw bad (complete-Fits i parent null true path true P tt (rw bad at h))
        | inr good ↦ rw good (
            complete-Fits i parent (object r.members) false path true P
              (object-Shaped i.typ P r.members plain (fit (type_name i.typ) scope path good))
              (rw good at h))
      ]

  field_fits :
      (answers : Answers) (selected : Bool) (scope : Option ItemScope) (path : List PathStep)
      → (i.name == "__typename") ≡ false
      → ((is_list i.typ && selected) ≡ true → i.source ≢ none)
      → FitsIf selected (complete_field answers i selections selected parent scope path)
  unfolding complete_field
  field_fits answers selected scope path ordinary sourced =
      elim (Bool-cases (i.name == "__typename")) [
        | inl meta ↦ absurd (ground arith)
        | inr plain ↦ rw plain (read_fits i.source sourced)
      ]
    where
      here : List PathStep
      here = path ++ PathStep.key i.response_key ∷ []

      plain_fits :
          (selected : Bool)
          → is_list i.typ && selected ≡ false
          → FitsIf selected (complete_unsourced i parent selections selected scope here)
      plain_fits true h = nested-Fits scope here (ground arith)
      plain_fits false h = complete-Fits i parent null false here false P tt

      read_fits :
          (source : Option SourceInfo)
          → ((is_list i.typ && selected) ≡ true → source ≢ none)
          → FitsIf selected (complete_read answers i selections selected parent scope here source)
      read_fits none sourced = elim (Bool-cases (is_list i.typ && selected)) [
        | inl bad ↦ absurd (sourced bad refl)
        | inr fine ↦ plain_fits selected fine
      ]
      read_fits (some info) sourced = elim (Bool-cases (is_list i.typ || not selected)) [
        | inl ready ↦ rw ready (sourced_fits answers info selected scope here ready)
        | inr nested ↦ rw nested (plain_fits selected (ground arith))
      ]

-- No other field of the same selections has the response key.
abbrev pub KeyFresh : String → Fields → Type 0
KeyFresh k end = Unit
KeyFresh k (cons (field i selections) rest) = (i.response_key ≢ k) × KeyFresh k rest

-- At each level the response keys differ.
abbrev pub KeysDiffer : Fields → Type 0
KeysDiffer end = Unit
KeysDiffer (cons (field i selections) rest) =
    KeyFresh i.response_key rest × KeysDiffer selections × KeysDiffer rest

-- A list of objects has a source.
abbrev pub ListsSourced : Fields → Type 0
ListsSourced end = Unit
ListsSourced (cons (field i selections) rest) =
    ((i.name == "__typename") ≡ false
      → ((is_list i.typ && has_selections selections) ≡ true → i.source ≢ none)
        × ListsSourced selections)
    × ListsSourced rest

get_member-set_member :
    (k j : String) (v : Value) (ms : Members)
    → get_member k (set_member j v ms) ≡ (if j == k then v else get_member k ms)
unfolding get_member set_member
get_member-set_member k j v no_members = ground arith
get_member-set_member k j v (member l w rest) = ground (arith, get_member-set_member k j v rest)

object_keeps :
    (answers : Answers) (k : String) (fields : Fields) (out : Members) (type : String)
    (scope : Option ItemScope) (path : List PathStep)
    → KeyFresh k fields
    → (complete_object answers fields out type scope path).failed ≡ false
    → get_member k (complete_object answers fields out type scope path).members ≡ get_member k out
unfolding complete_object
object_keeps answers k end out type scope path fresh h = refl
object_keeps answers k (cons (field i selections) rest) out type scope path (other, fresh) h =
    let c =
      complete_field answers i (complete_object answers selections no_members)
        (has_selections selections) type scope path in
    elim (Bool-cases c.failed) [
      | inl bad ↦ absurd (ground arith)
      | inr good ↦ rw good (
          object_keeps answers k rest (set_member i.response_key c.value out) type scope path fresh
            (rw good at h)
          ∙ get_member-set_member k i.response_key c.value out
          ∙ (rw (==_of_ne i.response_key k other) refl))
    ]

pub object_fits :
    (answers : Answers) (fields : Fields) (out : Members) (type : String) (scope : Option ItemScope)
    (path : List PathStep)
    → KeysDiffer fields
    → ListsSourced fields
    → (complete_object answers fields out type scope path).failed ≡ false
    → DataFits fields (complete_object answers fields out type scope path).members
unfolding complete_object
object_fits answers end out type scope path keys lists h = tt
object_fits answers (cons (field i selections) rest) out type scope path (fresh, inside, outside)
      (own, lists) h =
    let sub = complete_object answers selections no_members in
    let c = complete_field answers i sub (has_selections selections) type scope path in
    let out' = set_member i.response_key c.value out in
    elim (Bool-cases c.failed) [
      | inl bad ↦ absurd (ground arith)
      | inr good ↦
          let later : (complete_object answers rest out' type scope path).failed ≡ false =
            rw good at h in
          let is : get_member i.response_key
                (complete_object answers rest out' type scope path).members
              ≡ c.value =
            object_keeps answers i.response_key rest out' type scope path fresh later
            ∙ get_member-set_member i.response_key i.response_key c.value out
            ∙ (rw (==_refl i.response_key) refl) in
          rw good (
            subst (λ v. Fits i (has_selections selections) (DataFits selections) v) (sym is)
                (elim (Bool-cases (i.name == "__typename")) [
                  | inl meta ↦
                      meta-Fits answers i sub (has_selections selections) type scope path
                        (DataFits selections) meta
                  | inr ordinary ↦
                      field_fits i type sub (DataFits selections)
                        (λ name scope path h.
                          object_fits answers selections no_members name scope path inside
                            ((own ordinary).1) h)
                        answers (has_selections selections) scope path ordinary ((own ordinary).0)
                        good
                ]),
            object_fits answers rest out' type scope path outside lists later,
          )
    ]
