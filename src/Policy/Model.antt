-- ===== src/Policy/Model.antt =====
-- Records, requests and responses of the policy decision point: internal/pdp/models.
-- The parameters of a policy class are a map from names to JSON texts; nil is none.
use openndx_core.Base.{ℕ, String, Bool, ◌&&◌, not, Option, List, Dict}

abbrev pub PolicyParams : Type 0
PolicyParams = Dict String

pub record AllowListEntry : Type 0 where
  pub expires_at : ℕ
  pub updated_at : ℕ

pub record PolicyMetadata : Type 0 where
  pub id : ℕ
  pub schema_id : String
  pub field_name : String
  pub display_name : Option String
  pub description : Option String
  pub source : String
  pub policy_class : String
  pub policy_params : PolicyParams
  pub allow_list : Dict AllowListEntry
  pub owner : Option String
  pub created_at : ℕ
  pub updated_at : ℕ

pub record CreateRequestRecord : Type 0 where
  pub field_name : String
  pub display_name : Option String
  pub description : Option String
  pub source : String
  pub policy_class : String
  pub policy_params : Option PolicyParams
  pub owner : Option String

pub record CreateRequest : Type 0 where
  pub schema_id : String
  pub records : List CreateRequestRecord

-- OptionalPatchField: whether the property was given, and its value where it was not null.
pub record PatchField (A : Type 0) : Type 0 where
  pub given : Bool
  pub value : Option A

pub record PatchRequest : Type 0 where
  pub display_name : PatchField String
  pub description : PatchField String
  pub policy_class : PatchField String
  pub policy_params : PatchField PolicyParams

-- (PolicyMetadataPatchRequest).IsEmpty
unfoldable pub patch_is_empty : PatchRequest → Bool
patch_is_empty r =
    not r.display_name.given
    && not r.description.given
    && not r.policy_class.given
    && not r.policy_params.given

-- A pair of a schema and a field: a record of the requests for decisions and for grants.
pub record FieldRef : Type 0 where
  pub field_name : String
  pub schema_id : String

pub record AllowListUpdateRequest : Type 0 where
  pub application_id : String
  pub records : List FieldRef
  pub grant_duration : String

pub record PolicyDecisionRequest : Type 0 where
  pub application_id : String
  pub required_fields : List FieldRef

pub record FieldRecord : Type 0 where
  pub field_name : String
  pub schema_id : String
  pub display_name : Option String
  pub description : Option String
  pub owner : Option String

pub record PolicyDecisionResponse : Type 0 where
  pub app_authorized : Bool
  pub unauthorized_fields : List FieldRecord
  pub app_access_expired : Bool
  pub expired_fields : List FieldRecord
  pub app_requires_owner_consent : Bool
  pub consent_required_fields : List FieldRecord
