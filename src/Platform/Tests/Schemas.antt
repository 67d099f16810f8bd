-- ===== src/Platform/Tests/Schemas.antt =====
-- The creation of schemas and the access of members, on tables in memory.
use openndx_core.Base.{
  String, ℕ, ◌≡◌, ◌⊎◌, ◌↔◌, refl, true, Option, none, some, List, [], ◌∷◌, string_eq, nat_eq,
  contains, count, find, ok, err,
}
use openndx_core.Base.Table.{Table}
use openndx_core.Base.Memory.{memory, memory-IsLawful}
use openndx_core.Platform.Systems.{Member, same_member}
use openndx_core.Platform.Members.{get_members_by_ou_id, member_id_by_ou_id}
use openndx_core.Platform.Callers.{
  Auth, Context, IsOwn, can_access, middleware, scopes_of, ou_id_of, access_iff,
}
use openndx_core.Platform.Schemas.{
  Schema, SchemaSubmission, CreateSchemaRequest, Systems, World, same_schema, same_submission,
  is_schema_id, all_chars, create_schema,
}
use openndx_core.Platform.Schemas.Ids.{field_keys_differ}
use openndx_core.Platform.Schemas.Metadata.{
  IsWithin, ownership_kept, patch_policy_metadata, delete_policy_metadata, revoke_allow_list_entry,
}
use openndx_core.Platform.Schemas.Creation.{Settled, schema-Settled}
use openndx_core.Platform.Tests.{ministry, stamp_member}

abbrev stamp : ℕ → Schema → Schema
stamp t s = record s { updated_at = t }

abbrev stamp_submission : ℕ → SchemaSubmission → SchemaSubmission
stamp_submission t s = record s { updated_at = t }

-- A policy decision point that accepts SDL and refuses records; its state is what it was asked.
abbrev systems : Systems
systems = record {
  schemas = memory same_schema stamp;
  submissions = memory same_submission stamp_submission;
  members = memory same_member stamp_member;
  Pdp = List String;
  Patch = String;
  Metadata = String;
  metadata_id = λ id. id;
  create_from_records = λ id records asked. (err "refused", asked);
  create_from_sdl = λ id sdl asked. (ok tt, id ∷ asked);
  list_metadata = λ id asked. (ok ("r-1" ∷ []), asked);
  patch_metadata = λ id patch asked. (ok id, id ∷ asked);
  delete_metadata = λ id asked. (ok tt, id ∷ asked);
  revoke_entry = λ id application asked. (ok tt, id ∷ asked);
}

abbrev world : World systems
world = record { schemas = (7, []); submissions = (7, []); members = (7, []); pdp = [] }

abbrev request : CreateSchemaRequest
request = record {
  schema_id = "drp-person-v1";
  schema_name = "Persons";
  schema_description = none;
  sdl = "type Query { person: Person }";
  fields = [];
  endpoint = "http://drp";
  member_id = "m-1";
}

none_yet :
    count
      (same_schema (record {
        schema_id = "drp-person-v1";
        member_id = "m-1";
        schema_name = "Persons";
        sdl = "type Query { person: Person }";
        endpoint = "http://drp";
        version = "active";
        schema_description = none;
        created_at = 7;
        updated_at = 7;
      }))
      (Table.rows (systems.schemas) world.schemas)
    ≡ 0
unfolding count
none_yet = refl

id_fits : is_schema_id "drp-person-v1" ≡ true
unfolding is_schema_id all_chars nat_eq
id_fits = refl

id_fits_too : is_schema_id "drp-car" ≡ true
unfolding is_schema_id all_chars nat_eq
id_fits_too = refl

schema-Settled_example :
    Settled systems stamp
      (memory-IsLawful same_schema stamp)
      "s-1"
      7
      request
      world
      (create_schema systems "s-1" 7 request world)
unfolding string_eq
schema-Settled_example =
    schema-Settled systems stamp (memory-IsLawful same_schema stamp) "s-1" 7 request world none_yet

abbrev car : String
car = "drp-car"

abbrev car_name : String
car_name = "name"

field_keys_differ_example : (car ≡ car) × (car_name ≡ car_name)
field_keys_differ_example = field_keys_differ car car car_name car_name id_fits_too id_fits_too refl

ownership_kept_example :
    IsWithin systems "drp-car" "r-2"
      (Systems.patch_metadata systems "r-2" "patch")
      world
      (patch_policy_metadata systems "drp-car" "r-2" "patch" world)
    × IsWithin systems "drp-car" "r-2"
        (Systems.delete_metadata systems "r-2")
        world
        (delete_policy_metadata systems "drp-car" "r-2" world)
    × IsWithin systems "drp-car" "r-2"
        (Systems.revoke_entry systems "r-2" "app")
        world
        (revoke_allow_list_entry systems "drp-car" "r-2" "app" world)
ownership_kept_example = ownership_kept systems "drp-car" "r-2" "app" "patch" world

abbrev members : Table Member
members = memory same_member stamp_member

abbrev caller : Option Auth
caller = some (record { scopes = "schema:read" ∷ []; ou_id = "ou-1" })

abbrev context : Context
context = record { auth = caller; member_id = some "m-1" }

passed : (middleware members caller (7, ministry ∷ [])).0 ≡ ok context
unfolding middleware member_id_by_ou_id get_members_by_ou_id find string_eq
passed = refl

access_iff_example : (can_access context "schema:read-all" "m-1" ≡ true) ↔ (
    (contains (scopes_of caller) "schema:read-all" ≡ true)
    ⊎ IsOwn members (7, ministry ∷ []) (ou_id_of caller) "m-1")
access_iff_example =
    access_iff members same_member stamp_member caller (7, ministry ∷ []) "schema:read-all" "m-1"
      context (memory-IsLawful same_member stamp_member) passed
