-- ===== src/Exchange/Plan/Authorized.antt =====
-- The policy decision point is asked for what the plan reads, no more and no less.
use openndx_core.Base.{
  String, ◌<>◌, ◌≡◌, refl, sym, ap, subst, ◌∙◌, inl, inr, Bool, true, false, not, ◌&&◌, ◌||◌,
  Option, none, some, List, [], ◌∷◌, ◌++◌, arith, ◌==◌, ==_sound, ==_refl, string_eq, nat_eq,
  if◌then◌else◌, Bool-cases, Result, ok, err, Result-cases, All, pure, ◌>>◌, continue,
}
use openndx_core.Exchange.Paths.{cut_prefix, starts_with, relative_path}
use openndx_core.Exchange.Operation.{SourceInfo, FieldInfo, field, Fields, end, cons}
use openndx_core.Exchange.Access.{RequiredField}
use openndx_core.Exchange.Completion.{is_list, has_selections}
use openndx_core.Exchange.Plan.{
  ElementScope, PlanSelections, has_field, required_fields, plan_fields, plan_field, plan_switch,
  plan_read, plan_unread, plan_outside, plan_in_list, build_plan, no_plan, planned,
}
use openndx_core.Exchange.Fetches.{
  Tools, ProviderArgument, Plan, Planner, has_fetch, fetch_for, arguments, fetch_key, add_field,
  serve, with_field, with_consumer_field, with_fetch, new_fetch,
}
use openndx_core.Exchange.Bindings.{ArgMapping, ArgumentBinding, bind_arguments}
use openndx_core.Exchange.Plan.Keys.{first_part, has_zero, IsClean, first_part-fetch_key}
use openndx_core.Exchange.Plan.Reads.{
  reads, KeyIsRight, reads-with_field, reads-with_consumer_field, reads-new_fetch,
  has_fetch-new_fetch, right-new_fetch, change_fetch-right, has_fetch-change_fetch,
  has_field-append, has_field-add_fetches, with_field-keeps,
}

-- Where a field is: the schema of the list that it is in, the list's declared path, and the path
-- that the list is asked for at.
pub record Place : Type 0 where
  pub schema_id : String
  pub declared : String
  pub requested : String

-- The place that a field reads, in the place that it is in.
abbrev pub place_of : Option Place → SourceInfo → Place
place_of none info = record {
  schema_id = info.schema_id;
  declared = info.provider_field;
  requested = info.provider_field;
}
place_of (some at) info = record {
  schema_id = at.schema_id;
  declared = info.provider_field;
  requested = at.requested <> "." <> relative_path info.provider_field at.declared;
}

abbrev pub field_at : Place → RequiredField
field_at at = record { field_name = at.requested; schema_id = at.schema_id }

-- What one field needs: `inner` gives what its selections need in a place.
abbrev pub field_needs :
    FieldInfo
    → (Option Place → List RequiredField)
    → Bool
    → Option Place
    → Option SourceInfo
    → List RequiredField
field_needs i inner selected place none = inner place
field_needs i inner selected place (some info) =
    if not selected
    then field_at (place_of place info) ∷ []
    else if is_list i.typ
    then inner (some (place_of place info))
    else inner place

-- The provider fields that a query needs: each leaf with a source, and within a list, by its path
-- from the list.
unfoldable pub needs : Fields → Option Place → List RequiredField
needs end place = []
needs (cons (field i selections) rest) place =
    let own = field_needs i (needs selections) (has_selections selections) place i.source in
    let later = needs rest place in (if starts_with i.name "__" then [] else own) ++ later

abbrev place_in : Option ElementScope → Option Place
place_in none = none
place_in (some s) =
    some (record { schema_id = first_part s.fetch; declared = s.declared; requested = s.requested })

abbrev IsIn : Option ElementScope → Plan → Type 0
IsIn none p = Unit
IsIn (some s) p = has_fetch s.fetch p.fetches ≡ true

abbrev IsRight : Plan → Type 0
IsRight p = All KeyIsRight p.fetches

-- What a step of planning makes of a plan: where it succeeds, the plan reads `list` besides.
record Reaches (list : List RequiredField) (p p' : Plan) : Type 0 where
  right : IsRight p'
  keeps : (k : String) → has_fetch k p.fetches ≡ true → has_fetch k p'.fetches ≡ true
  gains : (r : RequiredField) → reads p'.fetches r ≡ (reads p.fetches r || has_field list r)

abbrev Step : Option ElementScope → List RequiredField → Planner (Unit {0}) → Type 0
Step scope list m = (p : Plan) → IsRight p → IsIn scope p → (m p).0 ≡ ok tt → Reaches list p (m p).1

nothing-Step : (scope : Option ElementScope) → Step scope [] (pure tt)
unfolding has_field
nothing-Step scope p right in_scope h = record {
  right = right;
  keeps = λ k there. there;
  gains = λ r. ground arith;
}

Reaches-then :
    (a b : List RequiredField) (p q s : Plan) → Reaches a p q → Reaches b q s → Reaches (a ++ b) p s
Reaches-then a b p q s first second = record {
  right = second.right;
  keeps = λ k there. second.keeps k (first.keeps k there);
  gains = λ r. ground (arith, first.gains r, second.gains r, has_field-append a b r);
}

still-IsIn :
    (scope : Option ElementScope) (list : List RequiredField) (p q : Plan)
    → Reaches list p q
    → IsIn scope p
    → IsIn scope q
still-IsIn none list p q reach in_scope = tt
still-IsIn (some s) list p q reach in_scope = reach.keeps s.fetch in_scope

module _ (scope : Option ElementScope) (a b : List RequiredField) (n : Planner (Unit {0})) where
  after_result :
      (p q : Plan) (x : Result String (Unit {0}))
      → (x ≡ ok tt → Reaches a p q)
      → Step scope b n
      → IsIn scope p
      → (continue x (λ _. n) q).0 ≡ ok tt
      → Reaches (a ++ b) p (continue x (λ _. n) q).1
  after_result p q (err e) first second in_scope h = absurd (ground arith)
  after_result p q (ok u) first second in_scope h =
      let reach = first refl in
      Reaches-then a b p q (n q).1 reach
        (second q reach.right (still-IsIn scope a p q reach in_scope) h)

  seq-Step :
      (m : Planner (Unit {0})) → Step scope a m → Step scope b n → Step scope (a ++ b) (m >> n)
  seq-Step m first second p right in_scope h =
      after_result p (m p).1 (m p).0 (first p right in_scope) second in_scope h

add_field-Reaches :
    (key path : String) (p : Plan)
    → IsRight p
    → has_fetch key p.fetches ≡ true
    → Reaches
        (record { field_name = path; schema_id = first_part key } ∷ [])
        p
        (add_field key path p).1
unfolding has_field
add_field-Reaches key path p right there = record {
  right = change_fetch-right (with_field path) (with_field-keeps path) key p.fetches right;
  keeps =
      λ k h. has_fetch-change_fetch (with_field path) (with_field-keeps path) key k p.fetches ∙ h;
  gains = λ r. ground (arith, reads-with_field path key p.fetches r right there);
}

serve-Reaches :
    (i : FieldInfo) (key : String) (p : Plan) → IsRight p → Reaches [] p (serve i key p).1
unfolding has_field
serve-Reaches i key p right = record {
  right = change_fetch-right (with_consumer_field i) (λ f. (refl, refl)) key p.fetches right;
  keeps =
      λ k h. has_fetch-change_fetch (with_consumer_field i) (λ f. (refl, refl)) key k p.fetches ∙ h;
  gains = λ r. ground (arith, reads-with_consumer_field i key p.fetches r);
}

with_fetch-Reaches :
    (info : SourceInfo) (key : String) (args : List ProviderArgument) (p : Plan)
    → first_part key ≡ info.schema_id
    → IsRight p
    → Reaches [] p (with_fetch info key args p)
      × (has_fetch key (with_fetch info key args p).fetches ≡ true)
unfolding has_field
with_fetch-Reaches info key args p named right = elim (Bool-cases (has_fetch key p.fetches)) [
  | inl there ↦
      rw there (record { right = right; keeps = λ k h. h; gains = λ r. ground arith }, there)
  | inr fresh ↦ rw fresh (
    record {
      right = right-new_fetch (new_fetch info key args) p.fetches named right;
      keeps = λ k h. ground (arith, has_fetch-new_fetch k (new_fetch info key args) p.fetches);
      gains = λ r. ground (arith, reads-new_fetch (new_fetch info key args) p.fetches r refl);
    },
    ground (arith, has_fetch-new_fetch key (new_fetch info key args) p.fetches, ==_refl key),
  )
]

and_false : (b : Bool) → (b && false) ≡ false
and_false b = ground arith

module _ (tools : Tools) (bindings : List ArgumentBinding) (i : FieldInfo) where
  -- The fetch for a field is there, with the schema that it was asked for.
  abbrev IsFetched : SourceInfo → Plan → Result String String × Plan → Type 0
  IsFetched info p (r, q) =
      (key : String)
      → r ≡ ok key
      → (first_part key ≡ info.schema_id) × Reaches [] p q × (has_fetch key q.fetches ≡ true)

  fetch_for-IsFetched :
      (info : SourceInfo) (p : Plan)
      → has_zero info.schema_id ≡ false
      → IsRight p
      → IsFetched info p (fetch_for tools bindings i info p)
  unfolding fetch_for
  fetch_for-IsFetched info p clean right key h =
      elim (Result-cases (arguments tools bindings i info)) [
        | inr (e, bad) ↦ absurd (ground arith)
        | inl (args, good) ↦ elim (Result-cases (fetch_key tools info args)) [
          | inr (e, bad) ↦ absurd (ground arith)
          | inl (found, is) ↦
              let named = first_part-fetch_key tools info args found clean is in
              let (reach, there) = with_fetch-Reaches info found args p named right in
              let same : found ≡ key = ground arith in
              rw good rw is (
                subst
                  (λ k.
                    (first_part k ≡ info.schema_id)
                    × Reaches [] p (with_fetch info found args p)
                    × (has_fetch k (with_fetch info found args p).fetches ≡ true))
                  same (named, reach, there))
        ]
      ]

  module _ (selections : PlanSelections) (inner : Option Place → List RequiredField)
      (steps : (scope : Option ElementScope)
        → Step scope (inner (place_in scope)) (selections scope)) where
    list-Step :
        (info : SourceInfo) (s : ElementScope) (selected : Bool)
        → (is_list i.typ || not selected) ≡ true
        → Step
            (some s)
            (field_needs i inner selected (place_in (some s)) (some info))
            (plan_in_list i info selections selected s)
    list-Step info s false ready p right there h = rw (and_false (is_list i.typ)) (
        add_field-Reaches s.fetch
          (s.requested <> "." <> relative_path info.provider_field s.declared) p right there)
    list-Step info s true ready p right there h =
        let within : ElementScope = record {
          fetch = s.fetch;
          declared = info.provider_field;
          requested = s.requested <> "." <> relative_path info.provider_field s.declared;
        } in
        let listed : is_list i.typ ≡ true = ground arith in
        rw listed (steps (some within) p right there (rw listed at h))

    abbrev read_from : SourceInfo → Bool → String → Planner (Unit {0})
    read_from info selected key =
        if is_list i.typ && selected
        then selections (
            some (record {
              fetch = key;
              declared = info.provider_field;
              requested = info.provider_field;
            }))
        else add_field key info.provider_field

    read_from-Reaches :
        (info : SourceInfo) (selected : Bool) (key : String) (p : Plan)
        → first_part key ≡ info.schema_id
        → (is_list i.typ || not selected) ≡ true
        → IsRight p
        → has_fetch key p.fetches ≡ true
        → (read_from info selected key p).0 ≡ ok tt
        → Reaches
            (field_needs i inner selected none (some info))
            p
            (read_from info selected key p).1
    read_from-Reaches info false key p named ready right there h = rw (and_false (is_list i.typ)) (
        subst
          (λ s.
            Reaches (record { field_name = info.provider_field; schema_id = s } ∷ []) p
              (add_field key info.provider_field p).1)
          named (add_field-Reaches key info.provider_field p right there))
    read_from-Reaches info true key p named ready right there h =
        let within : ElementScope = record {
          fetch = key;
          declared = info.provider_field;
          requested = info.provider_field;
        } in
        let listed : is_list i.typ ≡ true = ground arith in
        rw listed (
          subst
            (λ s.
              Reaches
                (inner (
                  some (record {
                    schema_id = s;
                    declared = info.provider_field;
                    requested = info.provider_field;
                  })))
                p (selections (some within) p).1)
            named (steps (some within) p right there (rw listed at h)))

    outside-Step :
        (info : SourceInfo) (selected : Bool)
        → has_zero info.schema_id ≡ false
        → (is_list i.typ || not selected) ≡ true
        → Step none
            (field_needs i inner selected none (some info))
            (plan_outside tools bindings i info selections selected)
    outside-Step info selected clean ready p right _ h =
        let own = field_needs i inner selected none (some info) in
        let q = (fetch_for tools bindings i info p).1 in
        elim (Result-cases (fetch_for tools bindings i info p).0) [
          | inr (e, bad) ↦ absurd (ground arith)
          | inl (key, is) ↦
              let (named, fetched, there) = fetch_for-IsFetched info p clean right key is in
              let s = (serve i key q).1 in
              let served = serve-Reaches i key q fetched.right in
              rw is (
                Reaches-then [] own p q (read_from info selected key s).1 fetched (
                  Reaches-then [] own q s (read_from info selected key s).1 served (
                    read_from-Reaches info selected key s named ready served.right
                      (served.keeps key there) (rw is at h))))
        ]

    unread-Step :
        (scope : Option ElementScope) (selected : Bool)
        → Step scope (inner (place_in scope)) (plan_unread i selections selected scope)
    unread-Step scope selected p right there h = elim (Bool-cases (is_list i.typ && selected)) [
      | inl bad ↦ absurd (ground arith)
      | inr fine ↦ rw fine (steps scope p right there (rw fine at h))
    ]

    switch-Step :
        (scope : Option ElementScope) (selected : Bool) (source : Option SourceInfo)
        → ((info : SourceInfo) → source ≡ some info → has_zero info.schema_id ≡ false)
        → Step scope
            (field_needs i inner selected (place_in scope) source)
            (plan_switch tools bindings i selections selected scope source)
    switch-Step scope selected none clean p right there h =
        unread-Step scope selected p right there h
    switch-Step scope selected (some info) clean p right there h =
        elim (Bool-cases (is_list i.typ || not selected)) [
          | inl ready ↦ rw ready (read_in scope ready there (rw ready at h))
          | inr nested ↦ rw nested (
              subst (λ l. Reaches l p (plan_unread i selections selected scope p).1)
                (not_read scope (ground arith) (ground arith))
                (unread-Step scope selected p right there (rw nested at h)))
        ]
      where
        read_in :
            (scope : Option ElementScope)
            → (is_list i.typ || not selected) ≡ true
            → IsIn scope p
            → (plan_read tools bindings i info selections selected scope p).0 ≡ ok tt
            → Reaches
                (field_needs i inner selected (place_in scope) (some info))
                p
                (plan_read tools bindings i info selections selected scope p).1
        read_in none ready there h =
            outside-Step info selected (clean info refl) ready p right there h
        read_in (some s) ready there h = list-Step info s selected ready p right there h

        not_read :
            (scope : Option ElementScope)
            → selected ≡ true
            → is_list i.typ ≡ false
            → inner (place_in scope) ≡ field_needs i inner selected (place_in scope) (some info)
        not_read scope yes_ plain = rw yes_ rw plain refl

    field-Step :
        (scope : Option ElementScope) (selected : Bool)
        → ((info : SourceInfo) → i.source ≡ some info → has_zero info.schema_id ≡ false)
        → Step scope
            (if starts_with i.name "__"
              then []
              else field_needs i inner selected (place_in scope) i.source)
            (plan_field tools bindings i selections selected scope)
    unfolding plan_field cut_prefix nat_eq
    field-Step scope selected clean p right there h = elim (Bool-cases (i.name == "__typename")) [
      | inl meta ↦ rw meta (
          subst
            (λ n.
              Reaches
                (if starts_with n "__"
                  then []
                  else field_needs i inner selected (place_in scope) i.source)
                p p)
            (sym (==_sound i.name "__typename" meta)) (nothing-Step scope p right there refl))
      | inr plain ↦ elim (Bool-cases (starts_with i.name "__")) [
        | inl bad ↦ absurd (ground arith)
        | inr visible ↦ rw plain rw visible (
            switch-Step scope selected i.source clean p right there (rw visible at (rw plain at h)))
      ]
    ]

module _ (tools : Tools) (bindings : List ArgumentBinding) where
  fields-Step :
      (fields : Fields) (scope : Option ElementScope)
      → IsClean fields
      → Step scope (needs fields (place_in scope)) (plan_fields tools bindings fields scope)
  unfolding plan_fields needs
  fields-Step end scope clean = nothing-Step scope
  fields-Step (cons (field i selections) rest) scope (own, inside, later) =
      seq-Step scope
        (if starts_with i.name "__"
          then []
          else field_needs i (needs selections) (has_selections selections) (place_in scope)
              i.source)
        (needs rest (place_in scope)) (plan_fields tools bindings rest scope)
        (plan_field tools bindings i (plan_fields tools bindings selections)
          (has_selections selections) scope)
        (field-Step tools bindings i (plan_fields tools bindings selections) (needs selections)
          (λ scope. fields-Step selections scope inside) scope (has_selections selections) own)
        (fields-Step rest scope later)

pub planned_ok :
    (x : Result String (Unit {0}) × Plan) (p : Plan) → planned x ≡ ok p → (x.0 ≡ ok tt) × (x.1 ≡ p)
planned_ok (ok u, q) p h = (refl, cc)
planned_ok (err e, q) p h = absurd (ground arith)

-- When a query whose schemas' names have no zero byte is planned, the fields that the policy
-- decision point is asked for are the provider fields that the query needs, whatever arguments
-- split its fetches.
pub authorized_fields_needed :
    (tools : Tools) (mappings : List (Option ArgMapping)) (fields : Fields) (p : Plan)
    → IsClean fields
    → build_plan tools mappings fields ≡ ok p
    → (r : RequiredField) → has_field (required_fields p) r ≡ has_field (needs fields none) r
unfolding build_plan has_field reads
authorized_fields_needed tools mappings fields p clean h r =
    let bindings = bind_arguments mappings fields in
    let (good, is) = planned_ok (plan_fields tools bindings fields none no_plan) p h in
    let reach = fields-Step tools bindings fields none clean no_plan tt tt good in
    has_field-add_fetches p.fetches [] r
    ∙ ap (λ q. reads (Plan.fetches q) r) (sym is)
    ∙ reach.gains r
