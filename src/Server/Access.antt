-- ===== src/Server/Access.antt =====
-- Roles and permissions (server/app/core/roles.py and permissions.py), the caller of a request
-- (server/app/auth.py), and the scope of its reads and writes (server/app/services/tenancy.py).
pub mod Matrix
mod Tests
use silentguard_xdr.Server.Models.{concat, Db, User, default_org_id}
use silentguard_xdr.Server.Exec.{
  HttpError, Exec, Result, ok, err, http, lit, pure, raise, gets, ◌>>=◌,
}
use silentguard_xdr.Prelude.{
  String, Bool, true, false, not, ◌&&◌, ◌||◌, Option, none, some, List, [], ◌∷◌, if◌then◌else◌,
  ◌==◌, nat_eq, string_eq, option_eq, list_eq,
}
use silentguard_xdr.Prelude.Table.{find, select}

-- `class Role`
pub data Role : Type 0 where
  super_admin owner soc_manager analyst threat_hunter responder auditor read_only : Role

-- `class Permission`
pub data Permission : Type 0 where
  read_fleet read_audit write_isolation write_blocklist write_quarantine execute_response :
      Permission
  write_detections manage_intel manage_integrations manage_policy manage_users manage_orgs :
      Permission

-- The sets that the matrix is put together from, by their membership tests.
unfoldable pub all_permissions : Permission → Bool
all_permissions p = true

unfoldable pub read_set : Permission → Bool
read_set read_fleet = true
read_set read_audit = true
read_set _ = false

unfoldable pub respond_set : Permission → Bool
respond_set write_isolation = true
respond_set write_blocklist = true
respond_set write_quarantine = true
respond_set execute_response = true
respond_set _ = false

unfoldable pub triage_set : Permission → Bool
triage_set write_detections = true
triage_set _ = false

unfoldable pub intel_set : Permission → Bool
intel_set manage_intel = true
intel_set _ = false

unfoldable pub integrations_set : Permission → Bool
integrations_set manage_integrations = true
integrations_set _ = false

unfoldable pub policy_set : Permission → Bool
policy_set manage_policy = true
policy_set _ = false

unfoldable pub only_read_fleet : Permission → Bool
only_read_fleet read_fleet = true
only_read_fleet _ = false

unfoldable pub only_manage_orgs : Permission → Bool
only_manage_orgs manage_orgs = true
only_manage_orgs _ = false

-- `permission in ROLE_PERMISSIONS[role]`
unfoldable pub has_permission : Role → Permission → Bool
unfolding all_permissions read_set respond_set triage_set intel_set integrations_set policy_set
    only_read_fleet only_manage_orgs
has_permission super_admin p = all_permissions p
has_permission owner p = all_permissions p && not (only_manage_orgs p)
has_permission soc_manager p =
    read_set p || respond_set p || triage_set p || intel_set p || integrations_set p || policy_set p
has_permission analyst p = read_set p || triage_set p
has_permission threat_hunter p = read_set p || triage_set p || intel_set p
has_permission responder p = only_read_fleet p || respond_set p || triage_set p
has_permission auditor p = read_set p
has_permission read_only p = only_read_fleet p

-- `role in MUTATING_ROLES`
unfoldable pub is_mutating : Role → Bool
is_mutating super_admin = true
is_mutating owner = true
is_mutating soc_manager = true
is_mutating responder = true
is_mutating _ = false

-- `role.value`
unfoldable pub role_value : Role → String
role_value super_admin = "super_admin"
role_value owner = "owner"
role_value soc_manager = "soc_manager"
role_value analyst = "analyst"
role_value threat_hunter = "threat_hunter"
role_value responder = "responder"
role_value auditor = "auditor"
role_value read_only = "read_only"

abbrev pub all_roles : List Role
all_roles =
    super_admin ∷ owner ∷ soc_manager ∷ analyst ∷ threat_hunter ∷ responder ∷ auditor ∷ read_only
    ∷ []

-- `Role(value)`; `none` is its ValueError
unfoldable pub parse_role : String → Option Role
unfolding role_value
parse_role value = find (λ r. role_value r == value) all_roles

unfoldable pub permission_value : Permission → String
permission_value read_fleet = "read:fleet"
permission_value read_audit = "read:audit"
permission_value write_isolation = "write:isolation"
permission_value write_blocklist = "write:blocklist"
permission_value write_quarantine = "write:quarantine"
permission_value execute_response = "execute:response"
permission_value write_detections = "write:detections"
permission_value manage_intel = "manage:intel"
permission_value manage_integrations = "manage:integrations"
permission_value manage_policy = "manage:policy"
permission_value manage_users = "manage:users"
permission_value manage_orgs = "manage:orgs"

-- `class Principal`
pub record Principal : Type 0 where
  pub actor : String
  pub role : Role
  pub user_id : Option String
  pub org_id : Option String
  pub cross_org : Bool

abbrev is_super_admin : Role → Bool
is_super_admin super_admin = true
is_super_admin _ = false

abbrev role_or_read_only : Option Role → Role
role_or_read_only none = read_only
role_or_read_only (some r) = r

-- The credentials of a request: the bearer token taken from its header, and the admin token header.
pub record Credentials : Type 0 where
  pub bearer : Option String
  pub x_admin_token : String

-- The caller of a user row, in `current_principal`.
unfoldable pub principal_of : User → Principal
principal_of user =
    let role = role_or_read_only (parse_role user.role) in
    record {
      actor = concat "user:" user.id;
      role = role;
      user_id = some user.id;
      org_id = user.org_id;
      cross_org = is_super_admin role;
    }

-- the check of the user that an access token names
unfoldable pub active_principal : Option User → Exec Db Principal
unfolding principal_of
active_principal none = raise (http 401 "User is no longer active")
active_principal (some user) =
    if user.is_active then pure (principal_of user) else raise (http 401 "User is no longer active")

-- The signature check of the JWT library, with the claims `type` and `sub`; `admin_token` is the
-- setting, and `fingerprint` the digest of a token.
module _ (decode : String → Option (String × String)) (admin_token : String)
    (fingerprint : String → String) where
  -- `current_principal`
  unfoldable pub current_principal : Credentials → Exec Db Principal
  unfolding active_principal
  current_principal c = elim c.bearer [
    | some token ↦ elim (decode token) [
      | none ↦ raise (http 401 "Invalid or expired token")
      | some (kind, sub) ↦
          if kind == "access"
          then (do found ← gets (λ db. find (λ u. u.id == sub) db.users); active_principal found)
          else raise (http 401 "Invalid or expired token")
    ]
    | none ↦
        if not (admin_token == "") && c.x_admin_token == admin_token
        then pure (record {
          actor = fingerprint c.x_admin_token;
          role = super_admin;
          user_id = none;
          org_id = none;
          cross_org = true;
        })
        else raise (http 401 "Invalid admin token")
  ]

-- `require_permission(permission)`, once the caller is known
unfoldable pub require_permission : Permission → Principal → Exec Db Principal
require_permission permission principal =
    if has_permission principal.role permission
    then pure principal
    else raise (record {
      status_code = 403;
      detail =
          lit "Role '"
          ∷ lit (role_value principal.role)
          ∷ lit "' lacks permission '"
          ∷ lit (permission_value permission)
          ∷ lit "'"
          ∷ [];
    })

-- A row is in the caller's reach: the test in `_get_device_scoped`, `_get_scoped` and their like.
abbrev pub in_scope : Principal → Option String → Bool
in_scope principal org = principal.cross_org || org == principal.org_id

-- `scope_query(query, org_column, principal)`, on the rows of the query
unfoldable pub scope_query : {A : Type 0} → (A → Option String) → Principal → List A → List A
scope_query org_column principal rows =
    if principal.cross_org then rows else select (λ row. org_column row == principal.org_id) rows

-- `owning_org(principal)`; an empty id is falsy, as None is
unfoldable pub owning_org : Principal → String
owning_org principal = elim principal.org_id [
  | none ↦ default_org_id
  | some org ↦ if org == "" then default_org_id else org
]
