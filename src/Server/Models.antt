-- ===== src/Server/Models.antt =====
-- The tables of server/app/models.py, and the database as the record of its tables. A column that
-- holds JSON is a `Fields`. A time is a number of seconds. Identifiers, kinds and statuses that the
-- code only compares are native texts; what it walks through is a `Text`.
use silentguard_xdr.Server.Exec.{Piece}
use silentguard_xdr.Prelude.{
  ℕ, String, Bool, true, false, Option, none, some, List, [], if◌then◌else◌, ◌==◌, nat_eq,
  string_eq, option_eq, list_eq,
}
use silentguard_xdr.Prelude.Text.{Text}

-- A JSON value, as in `details`, `params` and `settings`.
mutual
  pub data Json : Type 0 where
    null : Json
    bool : Bool → Json
    num : ℕ → Json
    str : String → Json
    text : Text → Json
    arr : Items → Json
    obj : Fields → Json

  pub data Items : Type 0 where
    nil : Items
    item : Json → Items → Items

  pub data Fields : Type 0 where
    end : Fields
    field : String → Json → Fields → Fields

-- `d.get(k)`
unfoldable pub get : String → Fields → Option Json
get k end = none
get k (field j v fs) = if j == k then some v else get k fs

-- `d[k] = v`
unfoldable pub put : String → Json → Fields → Fields
put k v end = field k v end
put k v (field j w fs) = if j == k then field j v fs else field j w (put k v fs)

-- `{**d, **e}`
unfoldable pub merge : Fields → Fields → Fields
unfolding put
merge d end = d
merge d (field k v e) = merge (put k v d) e

-- `bool(v)`
unfoldable pub truthy : Json → Bool
truthy null = false
truthy (bool b) = b
truthy (num n) = if n == 0 then false else true
truthy (str s) = if s == "" then false else true
truthy (text []) = false
truthy (arr nil) = false
truthy (obj end) = false
truthy _ = true

-- `d.get(k) or rest`, as text; `shown` is `str`
abbrev pub text_or : (Json → Text) → String → Fields → Text → Text
text_or shown k d rest = elim (get k d) [
  | none ↦ rest
  | some v ↦ if truthy v then shown v else rest
]

-- `class Organization`
pub record Organization : Type 0 where
  pub id : String
  pub name : Text
  pub slug : Text
  pub is_active : Bool
  pub plan : String
  pub license_tier : String
  pub max_devices : ℕ
  pub created_at : ℕ

-- `class DeviceGroup`
pub record DeviceGroup : Type 0 where
  pub id : ℕ
  pub org_id : Option String
  pub name : String
  pub description : String
  pub created_at : ℕ

-- `class Policy`
pub record Policy : Type 0 where
  pub id : ℕ
  pub org_id : Option String
  pub group_id : Option ℕ
  pub name : String
  pub settings : Fields
  pub enabled : Bool
  pub created_at : ℕ

-- `class Device`
pub record Device : Type 0 where
  pub id : String
  pub org_id : Option String
  pub group_id : Option ℕ
  pub hostname : String
  pub platform : String
  pub agent_version : String
  pub api_key : String
  pub enrolled_at : ℕ
  pub last_seen : ℕ
  pub isolated : Bool
  pub pending_commands : List Fields
  pub stopped : Bool
  pub unresponsive_alerted : Bool

-- `class ThreatEvent`
pub record ThreatEvent : Type 0 where
  pub id : ℕ
  pub device_id : String
  pub org_id : Option String
  pub timestamp : ℕ
  pub source : String
  pub severity : String
  pub action : String
  pub summary : List Piece
  pub details : Fields

-- `class QuarantineItem`
pub record QuarantineItem : Type 0 where
  pub id : String
  pub device_id : String
  pub org_id : Option String
  pub original_path : String
  pub sha256 : String
  pub reason : String
  pub verdict : String
  pub status : String
  pub quarantined_at : ℕ
  pub restored_at : Option ℕ

-- `class User`
pub record User : Type 0 where
  pub id : String
  pub org_id : Option String
  pub email : Text
  pub hashed_password : Text
  pub role : String
  pub is_active : Bool
  pub email_verified : Bool
  pub mfa_enabled : Bool
  pub mfa_secret : Option Text
  pub failed_login_count : ℕ
  pub locked_until : Option ℕ
  pub last_login_at : Option ℕ
  pub created_at : ℕ

-- `class UserToken`
pub record UserToken : Type 0 where
  pub id : ℕ
  pub user_id : String
  pub purpose : String
  pub token_hash : String
  pub expires_at : ℕ
  pub used_at : Option ℕ
  pub created_at : ℕ

-- `class RefreshToken`
pub record RefreshToken : Type 0 where
  pub jti : String
  pub user_id : String
  pub expires_at : ℕ
  pub revoked : Bool
  pub created_at : ℕ

-- `class AuditLogEntry`
pub record AuditLogEntry : Type 0 where
  pub id : ℕ
  pub org_id : Option String
  pub timestamp : ℕ
  pub actor : String
  pub action : String
  pub target : Json
  pub details : Fields

-- `class IOC`
pub record Ioc : Type 0 where
  pub id : ℕ
  pub org_id : Option String
  pub ioc_type : String
  pub value : Text
  pub confidence : ℕ
  pub source : String
  pub description : String
  pub expires_at : Option ℕ
  pub created_at : ℕ

-- `class ResponseAction`
pub record ResponseAction : Type 0 where
  pub id : ℕ
  pub org_id : Option String
  pub device_id : Option String
  pub action_type : String
  pub params : Fields
  pub status : String
  pub actor : String
  pub result : Fields
  pub created_at : ℕ
  pub completed_at : Option ℕ

-- `class Detection`
pub record Detection : Type 0 where
  pub id : ℕ
  pub org_id : Option String
  pub device_id : String
  pub event_id : Option ℕ
  pub rule_id : String
  pub name : String
  pub severity : String
  pub risk_score : ℕ
  pub technique_id : String
  pub technique_name : String
  pub status : String
  pub details : Fields
  pub created_at : ℕ

-- `class BlocklistEntry`
pub record BlocklistEntry : Type 0 where
  pub id : ℕ
  pub org_id : Option String
  pub kind : String
  pub value : Text
  pub added_at : ℕ

-- `class IntelRule`
pub record IntelRule : Type 0 where
  pub id : ℕ
  pub org_id : Option String
  pub kind : String
  pub name : String
  pub content : Text
  pub enabled : Bool
  pub created_at : ℕ

-- The tables. `next_id` is the next key of every table with `autoincrement`.
pub record Db : Type 0 where
  pub organizations : List Organization
  pub groups : List DeviceGroup
  pub policies : List Policy
  pub devices : List Device
  pub events : List ThreatEvent
  pub quarantine : List QuarantineItem
  pub users : List User
  pub user_tokens : List UserToken
  pub refresh_tokens : List RefreshToken
  pub audit : List AuditLogEntry
  pub iocs : List Ioc
  pub actions : List ResponseAction
  pub detections : List Detection
  pub blocklist : List BlocklistEntry
  pub intel_rules : List IntelRule
  pub next_id : ℕ

-- `DEFAULT_ORG_ID`
abbrev pub default_org_id : String
default_org_id = "00000000000000000000000000000001"

abbrev pub empty_db : Db
empty_db = record {
  organizations = [];
  groups = [];
  policies = [];
  devices = [];
  events = [];
  quarantine = [];
  users = [];
  user_tokens = [];
  refresh_tokens = [];
  audit = [];
  iocs = [];
  actions = [];
  detections = [];
  blocklist = [];
  intel_rules = [];
  next_id = 1;
}

-- `device.id if device else None`
abbrev pub device_key : Option Device → Option String
device_key none = none
device_key (some d) = some d.id

-- the concatenation of native texts
abbrev pub concat : String → String → String
concat = Prim.Native.String.◌++◌
