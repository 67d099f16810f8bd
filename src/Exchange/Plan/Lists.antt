-- ===== src/Exchange/Plan/Lists.antt =====
-- What a plan that succeeds says of the query's lists.
use openndx_core.Base.{
  String, ◌≡◌, ◌≢◌, refl, inl, inr, Bool, true, false, not, ◌&&◌, ◌||◌, Option, none, some, List,
  arith, ◌==◌, string_eq, Bool-cases, Result, ok, err, Result-cases, continue,
}
use openndx_core.Exchange.Value.{Value, Members}
use openndx_core.Exchange.Paths.{starts_with}
use openndx_core.Exchange.Operation.{SourceInfo, FieldInfo, field, Fields, end, cons}
use openndx_core.Exchange.Merge.{Fetched, merge}
use openndx_core.Exchange.Completion.{is_list, has_selections, Answers}
use openndx_core.Exchange.Merge.Nulls.{KeysDiffer, ListsSourced, DataFits}
use openndx_core.Exchange.Merge.Reports.{merged-DataFits}
use openndx_core.Exchange.Plan.{
  ElementScope, PlanSelections, plan_fields, plan_field, plan_switch, plan_read, plan_unread,
  plan_outside, plan_in_list, build_plan, no_plan,
}
use openndx_core.Exchange.Fetches.{Tools, Plan, Planner, fetch_for, serve}
use openndx_core.Exchange.Bindings.{ArgMapping, ArgumentBinding, bind_arguments}
use openndx_core.Exchange.Plan.Authorized.{planned_ok}

-- A step of planning that succeeds only if `L`.
abbrev Needs : Type 0 → Planner (Unit {0}) → Type 0
Needs L m = (p : Plan) → (m p).0 ≡ ok tt → L

module _ (A B : Type 0) (n : Planner (Unit {0})) where
  after_needs :
      (x : Result String (Unit {0})) (q : Plan)
      → (x ≡ ok tt → A)
      → Needs B n
      → (continue x (λ _. n) q).0 ≡ ok tt
      → A × B
  after_needs (ok u) q first second h = (first refl, second q h)
  after_needs (err e) q first second h = absurd (ground arith)

module _ (tools : Tools) (bindings : List ArgumentBinding) (i : FieldInfo)
    (selections : PlanSelections) (selected : Bool) (L : Type 0) (leaf : selected ≡ false → L)
    (deeper : (scope : Option ElementScope) → Needs L (selections scope)) where
  in_list-Needs :
      (info : SourceInfo) (s : ElementScope)
      → (is_list i.typ || not selected) ≡ true
      → Needs L (plan_in_list i info selections selected s)
  in_list-Needs info s ready p h = elim (Bool-cases (is_list i.typ && selected)) [
    | inl listed ↦ deeper _ p (rw listed at h)
    | inr plain ↦ leaf (ground arith)
  ]

  outside-Needs :
      (info : SourceInfo)
      → (is_list i.typ || not selected) ≡ true
      → Needs L (plan_outside tools bindings i info selections selected)
  outside-Needs info ready p h = elim (Bool-cases (is_list i.typ && selected)) [
    | inr plain ↦ leaf (ground arith)
    | inl listed ↦ elim (Result-cases (fetch_for tools bindings i info p).0) [
      | inr (e, bad) ↦ absurd (ground arith)
      | inl (key, is) ↦
          deeper _ (serve i key (fetch_for tools bindings i info p).1).1 (rw is at (rw listed at h))
    ]
  ]

  abbrev Sourced : Option SourceInfo → Type 0
  Sourced source = ((is_list i.typ && selected) ≡ true → source ≢ none) × L

  unread-Needs :
      (scope : Option ElementScope) (source : Option SourceInfo)
      → Needs (Sourced source) (plan_unread i selections selected scope)
  unread-Needs scope source p h = elim (Bool-cases (is_list i.typ && selected)) [
    | inl bad ↦ absurd (ground arith)
    | inr fine ↦ ((λ listed. absurd (ground arith)), deeper scope p (rw fine at h))
  ]

  read-Needs :
      (info : SourceInfo) (scope : Option ElementScope)
      → (is_list i.typ || not selected) ≡ true
      → Needs L (plan_read tools bindings i info selections selected scope)
  read-Needs info none ready p h = outside-Needs info ready p h
  read-Needs info (some s) ready p h = in_list-Needs info s ready p h

  switch-Needs :
      (scope : Option ElementScope) (source : Option SourceInfo)
      → Needs (Sourced source) (plan_switch tools bindings i selections selected scope source)
  switch-Needs scope none p h = unread-Needs scope none p h
  switch-Needs scope (some info) p h = elim (Bool-cases (is_list i.typ || not selected)) [
    | inl ready ↦ ((λ listed. λ e. cc), read-Needs info scope ready p (rw ready at h))
    | inr nested ↦ unread-Needs scope (some info) p (rw nested at h)
  ]

  field-Needs :
      (scope : Option ElementScope)
      → (i.name == "__typename") ≡ false
      → Needs (Sourced i.source) (plan_field tools bindings i selections selected scope)
  unfolding plan_field
  field-Needs scope ordinary p h = elim (Bool-cases (starts_with i.name "__")) [
    | inl bad ↦ absurd (ground arith)
    | inr visible ↦ switch-Needs scope i.source p (rw visible at (rw ordinary at h))
  ]

leaf_lists : (selections : Fields) → has_selections selections ≡ false → ListsSourced selections
leaf_lists end h = tt
leaf_lists (cons f rest) h = absurd (ground arith)

module _ (tools : Tools) (bindings : List ArgumentBinding) where
  fields-Needs :
      (fields : Fields) (scope : Option ElementScope)
      → Needs (ListsSourced fields) (plan_fields tools bindings fields scope)
  unfolding plan_fields
  fields-Needs end scope p h = tt
  fields-Needs (cons (field i selections) rest) scope p h =
      let sub = plan_fields tools bindings selections in
      let step = plan_field tools bindings i sub (has_selections selections) scope in
      after_needs
        ((i.name == "__typename") ≡ false
          → ((is_list i.typ && has_selections selections) ≡ true → i.source ≢ none)
            × ListsSourced selections)
        (ListsSourced rest) (plan_fields tools bindings rest scope) (step p).0 (step p).1
        (λ good ordinary.
          field-Needs tools bindings i sub (has_selections selections) (ListsSourced selections)
            (leaf_lists selections) (λ scope. fields-Needs selections scope) scope ordinary p good)
        (fields-Needs rest scope) h

-- For a query that was planned and whose response keys differ at each level: where the response
-- has data, every field with a non-null type has a value that is not null, an object field is null
-- or an object of its fields, and so for the items of a list of objects.
pub planned-DataFits :
    (tools : Tools) (mappings : List (Option ArgMapping)) (fields : Fields) (plan : Plan)
    (sprint : Value → String) (answers : Answers) (fetches : List Fetched) (ms : Members)
    → build_plan tools mappings fields ≡ ok plan
    → KeysDiffer fields
    → (merge sprint answers fields fetches).body ≡ some ms
    → DataFits fields ms
unfolding build_plan
planned-DataFits tools mappings fields plan sprint answers fetches ms is keys h =
    let bindings = bind_arguments mappings fields in
    let (good, _) = planned_ok (plan_fields tools bindings fields none no_plan) plan is in
    merged-DataFits sprint answers fields fetches ms keys
      (fields-Needs tools bindings fields none no_plan good) h
