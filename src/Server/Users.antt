-- ===== src/Server/Users.antt =====
-- The management of users, server/app/routers/users.py, and of device groups,
-- server/app/routers/policies.py. The update of a role checks the caller's permission itself; the other
-- handlers are given a caller that `require_permission` let through.
pub mod Rights
use silentguard_xdr.Server.Models.{
  Json, Fields, Db, User, Device, DeviceGroup, Policy, AuditLogEntry, end, field,
}
use silentguard_xdr.Server.Exec.{
  Result, ok, err, Exec, HttpError, http, lit, pure, raise, raise_if, or_raise, gets, modify,
  atomic, ◌>>=◌, ◌>>◌,
}
use silentguard_xdr.Server.Access.{
  manage_users, require_permission, Principal, parse_role, in_scope, owning_org,
}
use silentguard_xdr.Server.Plans.{Entitlements, entitlements_for, within_limit}
use silentguard_xdr.Server.Auth.Settings.{Settings}
use silentguard_xdr.Server.Auth.OneTime
use silentguard_xdr.Server.Response.{save_device}
use silentguard_xdr.Prelude.{
  ℕ, ◌+◌, String, Bool, true, false, not, ◌&&◌, Option, none, some, [], ◌∷◌, ◌++◌, if◌then◌else◌,
  ◌==◌, nat_eq, string_eq, option_eq, list_eq, any,
}
use silentguard_xdr.Prelude.Table.{find, count, update, delete}
use silentguard_xdr.Prelude.Text.{Text}

abbrev pub in_org : String → User → Bool
in_org org_id u = u.org_id == some org_id

-- the audit row of a change
abbrev pub record_change : ℕ → String → String → Json → Fields → Option String → Db → Db
record_change now actor action target details org_id db = record db {
  audit =
      db.audit
      ++ record {
        id = db.next_id;
        org_id = org_id;
        timestamp = now;
        actor = actor;
        action = action;
        target = target;
        details = details;
      }
        ∷ [];
  next_id = db.next_id + 1;
}

-- `db.get(User, user_id)` inside the caller's reach
abbrev pub scoped_user : String → Principal → Db → Option User
scoped_user user_id principal db = elim (find (λ u. u.id == user_id) db.users) [
  | none ↦ none
  | some u ↦ if in_scope principal u.org_id then some u else none
]

module _ (digest : String → String) (now : ℕ) (pbkdf2 : Text → Text → ℕ → Text) (s : Settings) where
  -- `create_user`
  unfoldable pub add_user : String → Text → Text → Text → String → Principal → Exec Db User
  unfolding OneTime.create_user
  add_user id email salt password role principal = do
    let org_id = owning_org principal
    limit ← gets (λ db. (entitlements_for db (some org_id)).max_users)
    current ← gets (λ db. count (in_org org_id) db.users)
    raise_if (not (within_limit limit current))
        (http 402 "User limit reached for this plan; upgrade to add more members")
    user ← OneTime.create_user digest now pbkdf2 s id email salt password role org_id
    modify (
        record_change now principal.actor "user_create" (Json.text user.email)
          (field "role" (Json.str user.role) end) (some org_id))
    pure user

abbrev pub in_group : ℕ → Device → Bool
in_group group_id d = d.group_id == some group_id

abbrev pub scoped_group : ℕ → Principal → Db → Option DeviceGroup
scoped_group group_id principal db = elim (find (λ g. g.id == group_id) db.groups) [
  | none ↦ none
  | some g ↦ if in_scope principal g.org_id then some g else none
]

-- the group that a device may join
abbrev pub joinable : Device → Option ℕ → Db → Bool
joinable device none db = true
joinable device (some g) db = elim (find (λ h. h.id == g) db.groups) [
  | none ↦ false
  | some h ↦ h.org_id == device.org_id
]

abbrev pub group_json : Option ℕ → Json
group_json none = Json.null
group_json (some g) = Json.num g

module _ (now : ℕ) where
  -- `disable_user`
  unfoldable pub disable_user : String → Principal → Exec Db (Unit {0})
  disable_user user_id principal db = elim (scoped_user user_id principal db) [
    | none ↦ (err (http 404 "User not found"), db)
    | some user ↦
        (do
          modify (OneTime.save user_id (λ u. record u { is_active = false }))
          modify (
              record_change now principal.actor "user_disable" (Json.text user.email) end
                user.org_id))
          db
  ]

  -- `update_role`, for a caller whose permission is checked
  unfoldable pub change_role : String → String → Principal → Exec Db (Unit {0})
  change_role user_id role principal db =
      if not (entitlements_for db (some (owning_org principal))).rbac
      then (err (http 402 "Role-based access requires the Team or Enterprise plan"), db)
      else elim (parse_role role) [
        | none ↦ (err (OneTime.unknown_role role), db)
        | some known ↦ elim (scoped_user user_id principal db) [
          | none ↦ (err (http 404 "User not found"), db)
          | some user ↦
              (do
                modify (OneTime.save user_id (λ u. record u { role = role }))
                modify (
                    record_change now principal.actor "user_role_update" (Json.text user.email)
                      (field "role" (Json.str role) end) user.org_id))
                db
        ]
      ]

  -- `update_role`
  unfoldable pub update_role : String → String → Principal → Exec Db (Unit {0})
  unfolding change_role
  update_role user_id role principal = do
    require_permission manage_users principal
    change_role user_id role principal

  -- `create_group`
  unfoldable pub create_group : String → String → Principal → Exec Db (Unit {0})
  create_group name description principal = do
    let org_id = owning_org principal
    ent ← gets (λ db. entitlements_for db (some org_id))
    raise_if (not ent.device_groups) (http 402 "Device groups require the Team or Enterprise plan")
    current ← gets (λ db. count (λ g. g.org_id == some org_id) db.groups)
    raise_if (not (within_limit ent.max_groups current))
        (http 402 "Group limit reached for this plan")
    taken ← gets (λ db. any (λ g. g.org_id == some org_id && g.name == name) db.groups)
    raise_if taken (http 409 "Group already exists")
    modify (λ db. record db {
      groups =
          db.groups
          ++ record {
            id = db.next_id;
            org_id = some org_id;
            name = name;
            description = description;
            created_at = now;
          }
            ∷ [];
      next_id = db.next_id + 1;
    })

  -- `delete_group`
  unfoldable pub delete_group : ℕ → Principal → Exec Db (Unit {0})
  delete_group group_id principal db = elim (scoped_group group_id principal db) [
    | none ↦ (err (http 404 "Group not found"), db)
    | some g ↦ (
      ok tt,
      record db {
        devices = update (in_group group_id) (λ d. record d { group_id = none }) db.devices;
        policies = delete (λ p. p.group_id == some group_id) db.policies;
        groups = delete (λ h. h.id == group_id) db.groups;
      },
    )
  ]

  -- `assign_group`
  unfoldable pub assign_group : String → Option ℕ → Principal → Exec Db (Unit {0})
  assign_group device_id group_id principal db = elim (find (λ d. d.id == device_id) db.devices) [
    | none ↦ (err (http 404 "Device not found"), db)
    | some device ↦
        if not (in_scope principal device.org_id)
        then (err (http 404 "Device not found"), db)
        else if not (joinable device group_id db)
        then (err (http 400 "Group not in device's organization"), db)
        else (do
          modify (save_device device_id (λ d. record d { group_id = group_id }))
          modify (
              record_change now principal.actor "device_group_assign" (Json.str device_id)
                (field "group_id" (group_json group_id) end) device.org_id))
            db
  ]
