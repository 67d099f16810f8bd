-- ===== src/Exchange/Federation.antt =====
-- A query from its normalized operation to its response: FederateQuery of
-- internal/oe/federator/federator.go from dataOwnerID on, and internal/oe/federator/execute.go.
-- The providers are asked through clients, which are arguments; an answer is the same whenever it
-- comes, so the fetches have no order in time. The code writes the result of a fetch without a
-- provider to the map of results without its lock, while others may write to it; that race is not
-- modelled.
pub mod Permitted
use openndx_core.Base.{
  String, ◌<>◌, Bool, true, false, Option, none, some, List, [], ◌∷◌, map, is_empty, if◌then◌else◌,
  Result, ok, err, ◌==◌, string_eq,
}
use openndx_core.Exchange.Value.{no_members, Value, Members}
use openndx_core.Exchange.Operation.{Fields, OwnerError, data_owner_id, owner_rejection}
use openndx_core.Exchange.Access.{Deps, Rejection, reject_with_code, authorize_access}
use openndx_core.Exchange.Plan.{build_plan, required_fields}
use openndx_core.Exchange.Fetches.{Tools, Fetch, Plan}
use openndx_core.Exchange.Bindings.{ArgMapping, same_path}
use openndx_core.Exchange.Merge.{ProviderResponse, Fetched, Response, merge}
use openndx_core.Exchange.Completion.{Answers, FetchAnswer, unavailable, answered}

-- The client of a provider, asked with what a fetch prints; an error is its text.
abbrev pub Provider : Type 0
Provider = Fetch → Result String ProviderResponse

-- deps.Providers.Get
abbrev pub Providers : Type 0
Providers = String → Option Provider

pub record Options : Type 0 where
  pub owner_argument : String
  pub mappings : List (Option ArgMapping)

-- A fetch with its result.
pub record Executed : Type 0 where
  pub fetch : Fetch
  pub result : Result String ProviderResponse

abbrev pub execute_one : Providers → Fetch → Executed
execute_one providers f = elim (providers f.schema_id) [
  | none ↦ record {
    fetch = f;
    result = err ("no provider is configured for schema " <> f.schema_id);
  }
  | some ask ↦ record { fetch = f; result = ask f }
]

-- (*Federator).execute
unfoldable pub execute : Providers → List Fetch → List Executed
execute providers fetches = map (execute_one providers) fetches

-- plan.sources[field]
unfoldable pub source_of : List String → List (List String × String) → Option String
source_of path [] = none
source_of path ((p, key) ∷ sources) =
    let rest = source_of path sources in if same_path p path then some key else rest

abbrev pub answer_from : Executed → FetchAnswer
answer_from x = elim x.result [
  | err e ↦ unavailable x.fetch.schema_id
  | ok response ↦ answered response.body
]

-- results[fetch], for the fetch with a key; what is not there is a result without data or error.
unfoldable pub result_of : String → List Executed → FetchAnswer
result_of key [] = answered no_members
result_of key (x ∷ results) =
    let rest = result_of key results in if x.fetch.key == key then answer_from x else rest

-- What merge reads for a consumer field.
abbrev pub answers_from : Plan → List Executed → Answers
answers_from p results path = elim (source_of path p.sources) [
  | none ↦ answered no_members
  | some key ↦ result_of key results
]

abbrev pub response_or_none : Result String ProviderResponse → Option ProviderResponse
response_or_none (ok response) = some response
response_or_none (err e) = none

abbrev pub fetched : Executed → Fetched
fetched x = record {
  schema_id = x.fetch.schema_id;
  consumer_fields = x.fetch.consumer_fields;
  result = response_or_none x.result;
}

-- A rejection, that the query reads nothing, or data with errors.
pub data Reply : Type 0 where
  rejected : Rejection → Reply
  nothing_to_fetch : Reply
  merged : Response → Reply

-- A reply, and the fetches that were run for it.
abbrev pub Outcome : Type 0
Outcome = Reply × List Fetch

module _ (deps : Deps) (providers : Providers) (tools : Tools) (opts : Options)
    (sprint : Value → String) (app : String) where
  abbrev pub run_plan : Fields → Plan → Outcome
  run_plan fields p =
      if is_empty p.fetches
      then (nothing_to_fetch, [])
      else (let results = execute providers p.fetches in
          (merged (merge sprint (answers_from p results) fields (map fetched results)), p.fetches))

  abbrev pub run_if_allowed : Fields → Plan → Result Rejection (Unit {0}) → Outcome
  run_if_allowed fields p (err r) = (rejected r, [])
  run_if_allowed fields p (ok _) = run_plan fields p

  abbrev pub run_if_planned : String → Fields → Result String Plan → Outcome
  run_if_planned owner fields (err e) = (rejected (reject_with_code e "BAD_REQUEST"), [])
  run_if_planned owner fields (ok p) =
      run_if_allowed fields p (authorize_access deps app (required_fields p) owner)

  abbrev pub run_if_owned : Fields → Result OwnerError String → Outcome
  run_if_owned fields (err e) = (rejected (owner_rejection e), [])
  run_if_owned fields (ok owner) =
      run_if_planned owner fields (build_plan tools opts.mappings fields)

  -- FederateQuery, on the fields of the operation
  unfoldable pub federate_query : Fields → Outcome
  federate_query fields = run_if_owned fields (data_owner_id opts.owner_argument fields)
