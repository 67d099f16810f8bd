-- ===== src/Exchange/Tests/Federation.antt =====
-- A query for an owner's name and the names of the owner's children, planned and merged.
use openndx_core.Base.{
  ◌≡◌, ◌≢◌, refl, inl, subst, arith, String, true, false, Option, none, some, [], ◌∷◌, string_eq,
  nat_eq, ◌==◌, lookup, ok, contains, ◌<>◌,
}
use openndx_core.Exchange.Value.{
  Value, null, text, array, object, no_items, item, Members, no_members, member, get_member,
  set_member, add_item,
}
use openndx_core.Exchange.Paths.{
  split_on, cut_prefix, relative_path, is_path_prefix, has_prefix, last_segment,
}
use openndx_core.Exchange.Access.{Deps, authorize_access, check_policy}
use openndx_core.Exchange.Federation.{Providers, Options, federate_query}
use openndx_core.Exchange.Federation.Permitted.{IsAmong, IsAllowed, run_fetch_permitted}
use openndx_core.Exchange.Fetches.{Fetch}
use openndx_core.Base.{inl}
use openndx_core.Exchange.Operation.{data_owner_id, walk}
use openndx_core.Exchange.Operation.{
  named, list_of, SourceInfo, FieldInfo, Field, field, Fields, end, cons,
}
use openndx_core.Exchange.Merge.{merge, pass_on_errors}
use openndx_core.Exchange.Completion.{
  Answers, unavailable, answered, complete_object, complete_field, complete_sourced, complete_list,
  complete_items, complete_item, complete_nested, complete, value_at, value_at_segments, type_name,
}
use openndx_core.Exchange.Merge.Nulls.{DataFits}
use openndx_core.Exchange.Merge.Reports.{missing_data_reported}
use openndx_core.Exchange.Plan.{build_plan, plan_fields, plan_field, required_fields, has_field}
use openndx_core.Exchange.Fetches.{
  Tools, Plan, fetch_for, arguments, collect_arguments, sort_arguments, sorted_in, has_argument,
  consumer_arg_type, fetch_key, key_rest, has_fetch, change_fetch, zero_byte,
}
use openndx_core.Exchange.Bindings.{
  ArgMapping, bind_arguments, bindings_of, same_path, last_of, all_but_last,
}
use mathlib.Core.Option.{none-ne-some, some-injective}
use openndx_core.Exchange.Plan.Keys.{has_zero, IsClean}
use openndx_core.Exchange.Plan.Authorized.{needs, authorized_fields_needed}
use openndx_core.Exchange.Plan.Lists.{planned-DataFits}
use openndx_core.Exchange.Tests.{info}

abbrev source : String → Option SourceInfo
source path = some (record { schema_id = "person"; provider_field = path })

abbrev name_field : Field
name_field = field (info "name" "String" ("me" ∷ "name" ∷ []) [] (source "person.name")) end

abbrev child_name : FieldInfo
child_name =
    info "name" "String" ("me" ∷ "children" ∷ "name" ∷ []) [] (source "person.children.name")

abbrev children : FieldInfo
children =
    record (info "children" "Person" ("me" ∷ "children" ∷ []) [] (source "person.children")) {
      typ = list_of (named "Person" true) false;
    }

abbrev me : FieldInfo
me = record (info "me" "Person" ("me" ∷ []) (("nic", text "123V") ∷ []) none) {
  typ = named "Person" true;
  argument_types = ("nic", named "String" false) ∷ [];
}

abbrev query : Fields
query =
    cons (field me (cons name_field (cons (field children (cons (field child_name end) end)) end)))
      end

abbrev nic_mapping : ArgMapping
nic_mapping = record {
  target_arg_name = "id";
  schema_id = "person";
  source_arg_path = "me-nic";
  target_arg_path = "person";
  target_arg_type = "";
}

abbrev tools : Tools
tools = record { target_type = λ m. none; marshal = λ v. ok "v"; print_type = λ t. "t" }

abbrev key : String
key =
    "person"
    <> (zero_byte
        <> ("person" <> (zero_byte <> ("id" <> (zero_byte <> ("t" <> (zero_byte <> "v")))))))

abbrev plan : Plan
plan = record {
  fetches =
      record {
        schema_id = "person";
        fields = "person.name" ∷ "person.children.name" ∷ [];
        consumer_fields =
            info "name" "String" ("me" ∷ "name" ∷ []) [] (source "person.name") ∷ children ∷ [];
        key = key;
        args =
            record { path = "person"; name = "id"; typ = named "String" true; value = text "123V" }
            ∷ [];
      }
      ∷ [];
  sources = ("me" ∷ "name" ∷ [], key) ∷ ("me" ∷ "children" ∷ [], key) ∷ [];
}

query_planned : build_plan tools (some nic_mapping ∷ none ∷ []) query ≡ ok plan
unfolding build_plan bind_arguments bindings_of plan_fields plan_field fetch_for arguments
    collect_arguments sort_arguments sorted_in has_argument consumer_arg_type fetch_key key_rest
    has_fetch change_fetch same_path last_of all_but_last split_on cut_prefix relative_path
    is_path_prefix has_prefix last_segment lookup contains string_eq nat_eq
query_planned = refl

unfoldable leaf_clean :
    (path : String) (info : SourceInfo) → source path ≡ some info → has_zero info.schema_id ≡ false
unfolding has_zero nat_eq
leaf_clean path info h =
    subst (λ s. has_zero (SourceInfo.schema_id s) ≡ false) (some-injective _ _ h) refl

query-IsClean : IsClean query
query-IsClean = (
  λ info h. absurd (none-ne-some _ h),
  (
    leaf_clean "person.name",
    tt,
    (leaf_clean "person.children", (leaf_clean "person.children.name", tt, tt), tt),
  ),
  tt,
)

authorized_fields_needed_example :
    has_field
      (required_fields plan)
      (record { schema_id = "person"; field_name = "person.children.name" })
    ≡ has_field
        (needs query none)
        (record { schema_id = "person"; field_name = "person.children.name" })
authorized_fields_needed_example =
    authorized_fields_needed tools (some nic_mapping ∷ none ∷ []) query plan query-IsClean
      query_planned (record { schema_id = "person"; field_name = "person.children.name" })

test_needs :
    needs query none
    ≡ record { schema_id = "person"; field_name = "person.name" }
      ∷ record { schema_id = "person"; field_name = "person.children.name" }
      ∷ []
unfolding needs cut_prefix relative_path last_segment nat_eq
test_needs = refl

-- The provider knows two children, the name of the second is not known to it.
abbrev provided : Members
provided =
    member "person"
      (object (
        member "name" (text "Ann") (
          member "children"
            (array (
              item (object (member "name" (text "Ben") no_members))
                (item (object no_members) no_items)))
            no_members)))
      no_members

abbrev answers : Answers
answers path = answered provided

abbrev sprint : Value → String
sprint v = "error"

abbrev merged : Members
merged =
    member "me"
      (object (
        member "name" (text "Ann") (
          member "children"
            (array (
              item (object (member "name" (text "Ben") no_members))
                (item (object (member "name" null no_members)) no_items)))
            no_members)))
      no_members

query_answered : (merge sprint answers query []).body ≡ some merged
unfolding merge complete_object complete_field complete_sourced complete_list complete_items
    complete_item complete_nested complete pass_on_errors value_at value_at_segments type_name
    split_on cut_prefix relative_path last_segment get_member set_member add_item string_eq nat_eq
query_answered = refl

abbrev first_name : String
first_name = "name"

abbrev second_name : String
second_name = "children"

names_tested : (second_name == first_name) ≡ false
unfolding string_eq
names_tested = refl

names_differ : second_name ≢ first_name
names_differ h = ground (arith, names_tested, h)

planned-DataFits_example : DataFits query merged
planned-DataFits_example =
    planned-DataFits tools (some nic_mapping ∷ none ∷ []) query plan sprint answers [] merged
      query_planned (tt, ((names_differ, tt), tt, (tt, (tt, tt, tt), tt)), tt) query_answered

-- A provider that could not be asked, and an object that must not be null.
abbrev silent : Answers
silent path = unavailable "person"

abbrev required_name : Fields
required_name =
    cons
      (field
        (record (info "name" "String" ("name" ∷ []) [] (source "person.name")) {
          typ = named "String" true;
        })
        end)
      end

nothing_merged : (merge sprint silent required_name []).body ≡ none
unfolding merge complete_object complete_field complete_sourced complete pass_on_errors string_eq
nothing_merged = refl

missing_data_reported_example : (merge sprint silent required_name []).errors ≢ []
missing_data_reported_example = missing_data_reported sprint silent required_name [] nothing_merged

-- A policy decision point that authorizes every query.
abbrev permitting : Deps
permitting = record {
  policy = some (λ req. ok (
      some (record {
        app_authorized = true;
        unauthorized_fields = [];
        app_access_expired = false;
        expired_fields = [];
        app_requires_owner_consent = false;
        consent_required_fields = [];
      })));
  consent = none;
}

abbrev person_provider : Providers
person_provider schema_id = some (λ f. ok (record { body = provided; provider_errors = [] }))

abbrev options : Options
options = record { owner_argument = "nic"; mappings = some nic_mapping ∷ none ∷ [] }

abbrev person_fetch : Fetch
person_fetch = record {
  schema_id = "person";
  fields = "person.name" ∷ "person.children.name" ∷ [];
  consumer_fields =
      info "name" "String" ("me" ∷ "name" ∷ []) [] (source "person.name") ∷ children ∷ [];
  key = key;
  args =
      record { path = "person"; name = "id"; typ = named "String" true; value = text "123V" } ∷ [];
}

fetch_run :
    IsAmong person_fetch
      (federate_query permitting person_provider tools options sprint "app" query).1
unfolding federate_query data_owner_id walk authorize_access check_policy build_plan bind_arguments
    bindings_of plan_fields plan_field fetch_for arguments collect_arguments sort_arguments
    sorted_in has_argument consumer_arg_type fetch_key key_rest has_fetch change_fetch same_path
    last_of all_but_last split_on cut_prefix relative_path is_path_prefix has_prefix last_segment
    lookup contains string_eq nat_eq
fetch_run = inl refl

run_fetch_permitted_example :
    IsAllowed permitting person_provider tools options sprint "app" query person_fetch
run_fetch_permitted_example =
    run_fetch_permitted permitting person_provider tools options sprint "app" query person_fetch
      fetch_run

-- A list of which only the items' types are asked for has a fetch that reads nothing.
abbrev children_types : Fields
children_types =
    cons
      (field children (
        cons (field (info "__typename" "String" ("children" ∷ "__typename" ∷ []) [] none) end) end))
      end

abbrev idle_plan : Plan
idle_plan = record {
  fetches =
      record {
        schema_id = "person";
        fields = [];
        consumer_fields = children ∷ [];
        key = "person";
        args = [];
      }
      ∷ [];
  sources = ("me" ∷ "children" ∷ [], "person") ∷ [];
}

test_idle_fetch : build_plan tools [] children_types ≡ ok idle_plan
unfolding build_plan bind_arguments plan_fields plan_field fetch_for arguments collect_arguments
    sort_arguments fetch_key key_rest has_fetch change_fetch cut_prefix string_eq nat_eq
test_idle_fetch = refl
