-- ===== src/Exchange/Merge/Reports.antt =====
-- A response without data says why.
use openndx_core.Base.{
  ℕ, suc, String, ◌≡◌, ◌≢◌, refl, subst, inl, inr, Bool, true, false, not, ◌||◌, Option, none, some,
  List, [], ◌∷◌, ◌++◌, arith, ◌==◌, string_eq, if◌then◌else◌, Bool-cases,
}
use openndx_core.Exchange.Value.{
  Value, null, boolean, number, text, array, object, Items, no_items, item, Members, no_members,
  set_member, add_item, is_null,
}
use openndx_core.Exchange.Operation.{TypeRef, SourceInfo, FieldInfo, field, Fields, end, cons}
use openndx_core.Exchange.Merge.{Fetched, merge}
use openndx_core.Exchange.Completion.{
  PathStep, FieldError, Answers, FetchAnswer, unavailable, answered, ItemScope, Completed, Complete,
  complete, after_errors, complete_item, complete_items, complete_list, complete_raw, from_answer,
  complete_sourced, complete_nested, complete_unsourced, complete_read, complete_field,
  complete_object, has_selections, is_list, elem_of, type_name,
}
use openndx_core.Exchange.Merge.Nulls.{KeysDiffer, ListsSourced, DataFits, object_fits}

-- A null that goes up comes with an error.
abbrev IsLoud : Bool → List FieldError → Type 0
IsLoud failed errors = failed ≡ true → errors ≢ []

append-ne_left : (a b : List FieldError) → a ≢ [] → a ++ b ≢ []
append-ne_left [] b h = absurd (h refl)
append-ne_left (x ∷ a) b h = λ e. cc

append-ne_right : (a b : List FieldError) → b ≢ [] → a ++ b ≢ []
append-ne_right [] b h = h
append-ne_right (x ∷ a) b h = λ e. cc

abbrev IsLoudCompletion : Completed → Type 0
IsLoudCompletion c = IsLoud c.failed c.errors

complete-IsLoud :
    (i : FieldInfo) (parent : String) (v : Value) (path : List PathStep)
    → IsLoudCompletion (complete i parent v false path)
unfolding complete
complete-IsLoud i parent v path h e = ground arith

-- After some errors a completion is loud whether or not it adds its own.
after-IsLoud :
    (es : List FieldError) (c : Completed) → es ≢ [] → IsLoudCompletion (after_errors es c)
after-IsLoud es c some_error h = append-ne_left es c.errors some_error

-- A completion of a value that is there does not fail.
complete-there :
    (i : FieldInfo) (parent : String) (v : Value) (path : List PathStep)
    → is_null v ≡ false
    → (complete i parent v false path).failed ≡ false
unfolding complete
complete-there i parent v path h = ground arith

module _ (i : FieldInfo) (parent : String) (selections : Complete)
    (loud : (name : String) (scope : Option ItemScope) (path : List PathStep)
      → (selections name scope path).failed ≡ true
      → (selections name scope path).errors ≢ []) where
  item-IsLoud :
      (elem : TypeRef) (declared : String) (path : List PathStep) (v : Value)
      → IsLoudCompletion (complete_item i parent selections elem declared path v)
  unfolding complete_item
  item-IsLoud elem declared path v h =
      ground
        (arith, loud (type_name elem) (some (record { scope_item = v; declared = declared })) path)

  items-IsLoud :
      (elem : TypeRef) (declared : String) (path : List PathStep) (n : ℕ) (out items : Items)
      → let r = complete_items i parent selections elem declared path n out items in
        IsLoud r.failed r.errors
  unfolding complete_items
  items-IsLoud elem declared path n out no_items h = cc
  items-IsLoud elem declared path n out (item v rest) h =
      let here = path ++ PathStep.index n ∷ [] in
      let c = complete_item i parent selections elem declared here v in
      elim (Bool-cases c.failed) [
        | inl bad ↦ rw bad (item-IsLoud elem declared here v bad)
        | inr good ↦ rw good (
            append-ne_right c.errors _
              (items-IsLoud elem declared path (suc n) (add_item out c.value) rest (rw good at h)))
      ]

  list-IsLoud :
      (elem : TypeRef) (raw : Value) (declared : String) (path : List PathStep)
      → IsLoudCompletion (complete_list i parent selections elem raw declared path)
  unfolding complete_list
  list-IsLoud elem null declared path h = complete-IsLoud i parent null path h
  list-IsLoud elem (boolean _) declared path h = λ e. cc
  list-IsLoud elem (number _) declared path h = λ e. cc
  list-IsLoud elem (text _) declared path h = λ e. cc
  list-IsLoud elem (object _) declared path h = λ e. cc
  list-IsLoud elem (array items) declared path h =
      let r = complete_items i parent selections elem declared path 0 no_items items in
      elim (Bool-cases r.failed) [
        | inl bad ↦ append-ne_left r.errors _ (items-IsLoud elem declared path 0 no_items items bad)
        | inr good ↦ absurd (ground (arith, complete-there i parent (array r.items) path refl))
      ]

  raw-IsLoud :
      (selected : Bool) (declared : String) (path : List PathStep) (raw : Value)
      → IsLoudCompletion (complete_raw i parent selections selected declared path raw)
  raw-IsLoud selected declared path raw =
      elim (elem_of i.typ)
        as (λ o. IsLoudCompletion (elim o [
          | none ↦ complete i parent raw false path
          | some elem ↦
              if selected
              then complete_list i parent selections elem raw declared path
              else complete i parent raw false path
        ])) [ none ↦ complete-IsLoud i parent raw path | some elem ↦ list_or_leaf elem selected ]
    where
      list_or_leaf :
          (elem : TypeRef) (selected : Bool)
          → IsLoudCompletion (
              if selected
              then complete_list i parent selections elem raw declared path
              else complete i parent raw false path)
      list_or_leaf elem true = list-IsLoud elem raw declared path
      list_or_leaf elem false = complete-IsLoud i parent raw path

  answer-IsLoud :
      (info : SourceInfo) (selected : Bool) (path : List PathStep) (a : FetchAnswer)
      → IsLoudCompletion (from_answer i info parent selections selected path a)
  answer-IsLoud info selected path (unavailable schema_id) h = λ e. cc
  answer-IsLoud info selected path (answered response) h =
      raw-IsLoud selected info.provider_field path _ h

  sourced-IsLoud :
      (answers : Answers) (info : SourceInfo) (selected : Bool) (scope : Option ItemScope)
      (path : List PathStep)
      → IsLoudCompletion (complete_sourced answers i info parent selections selected scope path)
  unfolding complete_sourced
  sourced-IsLoud answers info selected (some scope) path =
      raw-IsLoud selected info.provider_field path _
  sourced-IsLoud answers info selected none path = answer-IsLoud info selected path (answers i.path)

  unsourced-IsLoud :
      (selected : Bool) (scope : Option ItemScope) (path : List PathStep)
      → IsLoudCompletion (complete_unsourced i parent selections selected scope path)
  unfolding complete_nested
  unsourced-IsLoud false scope path h = complete-IsLoud i parent null path h
  unsourced-IsLoud true scope path h =
      let r = selections (type_name i.typ) scope path in
      elim (Bool-cases r.failed) [
        | inl bad ↦ append-ne_left r.errors _ (loud (type_name i.typ) scope path bad)
        | inr good ↦ absurd (ground (arith, complete-there i parent (object r.members) path refl))
      ]

  read-IsLoud :
      (answers : Answers) (selected : Bool) (scope : Option ItemScope) (path : List PathStep)
      (source : Option SourceInfo)
      → IsLoudCompletion (complete_read answers i selections selected parent scope path source)
  read-IsLoud answers selected scope path none h = unsourced-IsLoud selected scope path h
  read-IsLoud answers selected scope path (some info) h =
      elim (Bool-cases (is_list i.typ || not selected)) [
        | inl ready ↦ rw ready (sourced-IsLoud answers info selected scope path (rw ready at h))
        | inr nested ↦ rw nested (unsourced-IsLoud selected scope path (rw nested at h))
      ]

  field-IsLoud :
      (answers : Answers) (selected : Bool) (scope : Option ItemScope) (path : List PathStep)
      → IsLoudCompletion (complete_field answers i selections selected parent scope path)
  unfolding complete_field
  field-IsLoud answers selected scope path h = elim (Bool-cases (i.name == "__typename")) [
    | inl meta ↦ absurd (ground arith)
    | inr plain ↦ rw plain (read-IsLoud answers selected scope _ i.source (rw plain at h))
  ]

object-IsLoud :
    (answers : Answers) (fields : Fields) (out : Members) (type : String) (scope : Option ItemScope)
    (path : List PathStep)
    → let r = complete_object answers fields out type scope path in IsLoud r.failed r.errors
unfolding complete_object
object-IsLoud answers end out type scope path h = cc
object-IsLoud answers (cons (field i selections) rest) out type scope path h =
    let sub = complete_object answers selections no_members in
    let c = complete_field answers i sub (has_selections selections) type scope path in
    let loud =
      field-IsLoud i type sub
        (λ name scope path. object-IsLoud answers selections no_members name scope path) answers
        (has_selections selections) scope path in
    elim (Bool-cases c.failed) [
      | inl bad ↦ rw bad (loud bad)
      | inr good ↦ rw good (
          append-ne_right c.errors _ (
            object-IsLoud answers rest (set_member i.response_key c.value out) type scope path
              (rw good at h)))
    ]

module _ (sprint : Value → String) (answers : Answers) (fields : Fields)
    (fetches : List Fetched) where
  -- For a query whose response keys differ at each level and whose lists of objects have sources:
  -- where the response has data, every field with a non-null type has a value that is not null, an
  -- object field is null or an object of its fields, and so for the items of a list of objects.
  pub merged-DataFits :
      (ms : Members)
      → KeysDiffer fields
      → ListsSourced fields
      → (merge sprint answers fields fetches).body ≡ some ms
      → DataFits fields ms
  unfolding merge
  merged-DataFits ms keys lists h =
      let r = complete_object answers fields no_members "Query" none [] in
      elim (Bool-cases r.failed) [
        | inl bad ↦ absurd (ground arith)
        | inr good ↦
            subst (λ m. DataFits fields m) (ground arith)
              (object_fits answers fields no_members "Query" none [] keys lists good)
      ]

  -- A response without data has an error.
  pub missing_data_reported :
      (merge sprint answers fields fetches).body ≡ none
      → (merge sprint answers fields fetches).errors ≢ []
  unfolding merge
  missing_data_reported h =
      let r = complete_object answers fields no_members "Query" none [] in
      elim (Bool-cases r.failed) [
        | inl bad ↦
            append-ne_left r.errors _ (object-IsLoud answers fields no_members "Query" none [] bad)
        | inr good ↦ absurd (ground arith)
      ]
