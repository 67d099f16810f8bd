-- ===== src/Consent/Model.antt =====
-- Records, requests and views of the consent engine: internal/ce/models.
-- A time is a number of nanoseconds, a UUID the number that its 16 bytes spell. A status is the
-- enumeration that the code writes to the column.
use openndx_core.Base.{
  ℕ, String, Bool, true, false, ◌&&◌, ◌||◌, Option, none, some, List, Eq, ◌==◌, ◌!=◌, string_eq,
  option_eq, if◌then◌else◌,
}

pub data ConsentStatus : Type 0 where
  pending approved rejected expired revoked : ConsentStatus

unfoldable pub ConsentStatus-discrete : Discrete ConsentStatus
ConsentStatus-discrete = hlevel

instance unfoldable pub status_eq : Eq ConsentStatus
unfolding ConsentStatus-discrete
status_eq = record { dec = ConsentStatus-discrete }

-- The sentinel errors that a returned error wraps, outermost first; `other` is any other text or
-- database error. `errors.Is` asks whether one of them is in the chain.
pub data Sentinel : Type 0 where
  consent_not_found create_failed update_failed get_failed : Sentinel
  portal_request_failed not_pending not_revocable access_denied other : Sentinel

unfoldable pub Sentinel-discrete : Discrete Sentinel
Sentinel-discrete = hlevel

instance unfoldable pub sentinel_eq : Eq Sentinel
unfolding Sentinel-discrete
sentinel_eq = record { dec = Sentinel-discrete }

abbrev pub Error : Type 0
Error = List Sentinel

pub record ConsentField : Type 0 where
  pub field_name : String
  pub schema_id : String
  pub display_name : Option String
  pub description : Option String
  pub owner : String

pub record ConsentRecord : Type 0 where
  pub consent_id : ℕ
  pub owner_id : String
  pub app_id : String
  pub app_name : Option String
  pub status : ConsentStatus
  pub consent_type : String
  pub created_at : ℕ
  pub updated_at : ℕ
  pub pending_expires_at : Option ℕ
  pub grant_expires_at : Option ℕ
  pub grant_duration : String
  pub fields : List ConsentField
  pub session_id : Option String
  pub consent_portal_url : String
  pub updated_by : Option String

pub record ConsentRequirement : Type 0 where
  pub owner : String
  pub owner_id : String
  pub fields : List ConsentField

pub record CreateConsentRequest : Type 0 where
  pub app_id : String
  pub app_name : Option String
  pub consent_requirement : ConsentRequirement
  pub grant_duration : Option String
  pub consent_type : Option String

pub record ConsentPortalActionRequest : Type 0 where
  pub consent_id : String
  pub owner_id : String
  pub action : String
  pub updated_by : String

pub record InternalView : Type 0 where
  pub consent_id : String
  pub status : ConsentStatus
  pub consent_portal_url : Option String
  pub fields : Option (List ConsentField)

pub record PortalView : Type 0 where
  pub consent_id : String
  pub app_id : String
  pub app_name : Option String
  pub owner_id : String
  pub status : ConsentStatus
  pub consent_type : String
  pub grant_duration : String
  pub created_at : ℕ
  pub updated_at : ℕ
  pub pending_expires_at : Option ℕ
  pub grant_expires_at : Option ℕ
  pub fields : List ConsentField

pub record SummaryView : Type 0 where
  pub consent_id : String
  pub app_id : String
  pub app_name : Option String
  pub status : ConsentStatus
  pub created_at : ℕ
  pub pending_expires_at : Option ℕ
  pub grant_expires_at : Option ℕ

pub record ListConsentsResponse : Type 0 where
  pub consents : List SummaryView
  pub total : ℕ
  pub limit : ℕ
  pub offset : ℕ

-- google/uuid: reading and printing an identifier.
pub record UuidText : Type 0 where
  pub parse : String → Option ℕ
  pub print : ℕ → String

abbrev pub is_active : ConsentStatus → Bool
is_active pending = true
is_active approved = true
is_active _ = false

-- Two optional texts: both absent, or both there and the same.
abbrev pub pointers_equal : Option String → Option String → Bool
pointers_equal none none = true
pointers_equal (some a) (some b) = a == b
pointers_equal _ _ = false

-- (ConsentField).Equals
unfoldable pub equals : ConsentField → ConsentField → Bool
equals a b =
    (a.field_name == b.field_name)
    && (a.schema_id == b.schema_id)
    && pointers_equal a.display_name b.display_name
    && pointers_equal a.description b.description
    && (a.owner == b.owner)

-- (*ConsentRecord).ToConsentResponseInternalView
unfoldable pub to_internal_view : UuidText → ConsentRecord → InternalView
to_internal_view u r = record {
  consent_id = u.print r.consent_id;
  status = r.status;
  consent_portal_url =
      if (r.status == pending) && (r.consent_portal_url != "")
      then some r.consent_portal_url
      else none;
  fields = if (r.status == pending) || (r.status == approved) then some r.fields else none;
}

-- (*ConsentRecord).ToConsentSummaryView
unfoldable pub to_summary_view : UuidText → ConsentRecord → SummaryView
to_summary_view u r = record {
  consent_id = u.print r.consent_id;
  app_id = r.app_id;
  app_name = r.app_name;
  status = r.status;
  created_at = r.created_at;
  pending_expires_at = r.pending_expires_at;
  grant_expires_at = r.grant_expires_at;
}

-- (*ConsentRecord).ToConsentResponsePortalView
unfoldable pub to_portal_view : UuidText → ConsentRecord → PortalView
to_portal_view u r = record {
  consent_id = u.print r.consent_id;
  app_id = r.app_id;
  app_name = r.app_name;
  owner_id = r.owner_id;
  status = r.status;
  consent_type = r.consent_type;
  grant_duration = r.grant_duration;
  created_at = r.created_at;
  updated_at = r.updated_at;
  pending_expires_at = r.pending_expires_at;
  grant_expires_at = r.grant_expires_at;
  fields = r.fields;
}
