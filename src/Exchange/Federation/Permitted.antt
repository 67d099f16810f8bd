-- ===== src/Exchange/Federation/Permitted.antt =====
-- That providers are asked only for what the gate let through.
use openndx_core.Base.{
  String, ◌≡◌, refl, sym, ap, ◌∙◌, ◌⊎◌, inl, inr, true, none, List, [], ◌∷◌, contains, ==_refl,
  string_eq, Bool-cases, is_empty, Result, ok, err, arith,
}
use openndx_core.Exchange.Value.{Value}
use openndx_core.Exchange.Operation.{Fields, OwnerError, data_owner_id}
use openndx_core.Exchange.Access.{Deps, Rejection, RequiredField, authorize_access}
use openndx_core.Exchange.Access.Gate.{IsPermitted, proceeds_iff}
use openndx_core.Exchange.Plan.{build_plan, has_field, required_fields}
use openndx_core.Exchange.Fetches.{Tools, Fetch, Plan}
use openndx_core.Exchange.Plan.Reads.{reads, has_field-add_fetches}
use openndx_core.Exchange.Federation.{
  Providers, Options, run_plan, run_if_allowed, run_if_planned, run_if_owned, federate_query,
}

abbrev pub IsAmong : Fetch → List Fetch → Type 0
IsAmong f [] = ⊥
IsAmong f (g ∷ fetches) = (f ≡ g) ⊎ IsAmong f fetches

-- A provider field, as the policy decision point is asked for it.
abbrev pub asked_for : String → String → RequiredField
asked_for schema_id path = record { field_name = path; schema_id = schema_id }

reads-IsAmong :
    (f : Fetch) (path : String) (fetches : List Fetch)
    → IsAmong f fetches
    → contains f.fields path ≡ true
    → reads fetches (asked_for f.schema_id path) ≡ true
unfolding reads
reads-IsAmong f path [] among h = absurd among
reads-IsAmong f path (g ∷ fetches) (inl same) h =
    let again : contains g.fields path ≡ true =
      ap (λ x. contains (Fetch.fields x) path) (sym same) ∙ h in
    let schema : g.schema_id ≡ f.schema_id = ap Fetch.schema_id (sym same) in
    rw schema rw (==_refl f.schema_id) rw again refl
reads-IsAmong f path (g ∷ fetches) (inr later) h =
    ground (arith, reads-IsAmong f path fetches later h)

module _ (deps : Deps) (providers : Providers) (tools : Tools) (opts : Options)
    (sprint : Value → String) (app : String) (fields : Fields) (f : Fetch) where
  -- Why a fetch was run: the query is about one owner, it was planned, and its plan was let through.
  pub record IsAllowed : Type 0 where
    pub owner : String
    pub plan : Plan
    pub owned : data_owner_id opts.owner_argument fields ≡ ok owner
    pub was_planned : build_plan tools opts.mappings fields ≡ ok plan
    pub permission : (deps.policy ≡ none) ⊎ IsPermitted deps app (required_fields plan) owner
    pub authorized :
        (path : String)
        → contains f.fields path ≡ true
        → has_field (required_fields plan) (asked_for f.schema_id path) ≡ true

  run_plan-IsAmong :
      (p : Plan)
      → IsAmong f (run_plan deps providers tools opts sprint app fields p).1
      → IsAmong f p.fetches
  run_plan-IsAmong p among = elim (Bool-cases (is_empty p.fetches)) [
    | inl nothing ↦ absurd (rw (nothing, IsAmong) at among)
    | inr some_run ↦ rw (some_run, IsAmong) at among
  ]

  allowed-IsAllowed :
      (owner : String) (p : Plan) (r : Result Rejection (Unit {0}))
      → data_owner_id opts.owner_argument fields ≡ ok owner
      → build_plan tools opts.mappings fields ≡ ok p
      → authorize_access deps app (required_fields p) owner ≡ r
      → IsAmong f (run_if_allowed deps providers tools opts sprint app fields p r).1
      → IsAllowed
  unfolding has_field
  allowed-IsAllowed owner p (err e) owned was_planned is among = absurd among
  allowed-IsAllowed owner p (ok _) owned was_planned is among = record {
    owner = owner;
    plan = p;
    owned = owned;
    was_planned = was_planned;
    permission = (proceeds_iff deps app (required_fields p) owner).0 is;
    authorized = λ path h.
        has_field-add_fetches p.fetches [] (asked_for f.schema_id path)
        ∙ reads-IsAmong f path p.fetches (run_plan-IsAmong p among) h;
  }

  planned-IsAllowed :
      (owner : String) (x : Result String Plan)
      → data_owner_id opts.owner_argument fields ≡ ok owner
      → build_plan tools opts.mappings fields ≡ x
      → IsAmong f (run_if_planned deps providers tools opts sprint app owner fields x).1
      → IsAllowed
  planned-IsAllowed owner (err e) owned is among = absurd among
  planned-IsAllowed owner (ok p) owned is among =
      allowed-IsAllowed owner p (authorize_access deps app (required_fields p) owner) owned is refl
        among

  owned-IsAllowed :
      (x : Result OwnerError String)
      → data_owner_id opts.owner_argument fields ≡ x
      → IsAmong f (run_if_owned deps providers tools opts sprint app fields x).1
      → IsAllowed
  owned-IsAllowed (err e) is among = absurd among
  owned-IsAllowed (ok owner) is among =
      planned-IsAllowed owner (build_plan tools opts.mappings fields) is refl among

  -- A fetch that is run for a query: the query has one owner's identifier, and it was planned, and
  -- no policy client is configured or the plan's fields are permitted for the application and the
  -- owner; every path that the fetch reads is one of these fields.
  pub run_fetch_permitted :
      IsAmong f (federate_query deps providers tools opts sprint app fields).1 → IsAllowed
  unfolding federate_query
  run_fetch_permitted among = owned-IsAllowed (data_owner_id opts.owner_argument fields) refl among
